-- ===== src/Status/Feature.antt =====
-- daemon/feature_status.c: the status of each optional feature.
use acer_nitro_sense_linux.Config.Find.{config_find_fan}
use acer_nitro_sense_linux.Config.Types.{AnsConfig}
use acer_nitro_sense_linux.Keyboard.Backlight.{
  BacklightStatus, keyboard_backlight_read_any, keyboard_backlight_reason,
}
use acer_nitro_sense_linux.Keyboard.Timeout.{TimeoutState}
use acer_nitro_sense_linux.Machine.{Machine}
use acer_nitro_sense_linux.Platform.FanMode.{fan_mode_value_name, read_fan_mode}
use acer_nitro_sense_linux.Platform.PowerSource.{
  PowerSource, power_source_profile_for, power_source_profile_policy_available,
}
use acer_nitro_sense_linux.Platform.Profile.{platform_profile_value_name, read_platform_profile}
use acer_nitro_sense_linux.Prelude.{
  Bool, Bytes, Option, codes, false, if◌then◌else◌, leb_ℤ, ltb_ℤ, minus_one, none, pos, some,
  str_eq, true, ℤ, ◌&&◌, ◌||◌,
}
use acer_nitro_sense_linux.Status.Format.{availability_text, fallback_text, on_off_text}

unfoldable pub reply_coolboost_status : AnsConfig → Bool → Bytes
reply_coolboost_status cfg coolboost_enabled =
    if cfg.fan_modes.available then on_off_text coolboost_enabled else codes "unavailable"

-- The common mode, and the mode and value of each fan.
pub record FanModeReport : Type 0 where
  pub mode : Bytes
  pub cpu_mode : Bytes
  pub cpu_value : ℤ
  pub gpu_mode : Bytes
  pub gpu_value : ℤ

unfoldable pub fan_mode_report : AnsConfig → ℤ → ℤ → FanModeReport
fan_mode_report cfg cpu_value gpu_value =
    let cpu_mode = fan_mode_value_name cfg.fan_modes true cpu_value in
    let gpu_mode = fan_mode_value_name cfg.fan_modes false gpu_value in
    record {
      mode = if str_eq cpu_mode gpu_mode then cpu_mode else codes "mixed";
      cpu_mode = cpu_mode;
      cpu_value = cpu_value;
      gpu_mode = gpu_mode;
      gpu_value = gpu_value;
    }

pub record PowerSourceReport : Type 0 where
  pub source : PowerSource
  pub policy : Bytes
  pub auto_apply : Bytes
  pub ac_profile : Bytes
  pub battery_profile : Bytes
  pub profile : Bytes
  pub target : Bytes

-- A GPU temperature with its source, or why there is none.
pub data GpuTempReport : Type 0 where
  gpu_readable : Bytes → Bytes → ℤ → Option ℤ → GpuTempReport
  gpu_no_power_control : GpuTempReport
  gpu_unreadable : Bytes → Bytes → GpuTempReport

pub record KeyboardReport : Type 0 where
  pub status : BacklightStatus
  pub timeout : Bytes
  pub timeout_seconds : ℤ
  pub timeout_backend : Bytes
  pub timed_off : Bool
  pub restore_percent : ℤ
  pub name_text : Bytes
  pub backend_text : Bytes
  pub reg_text : Option ℤ
  pub reason : Bytes

abbrev pub or_unavailable : Option Bytes → Bytes
or_unavailable none = codes "unavailable"
or_unavailable (some text) = text

-- `strcmp(control, "on") == 0 ? "on" : "auto"`
abbrev live_text : Bytes → Bytes
live_text control = if str_eq control (codes "on") then codes "on" else codes "auto"

-- The name of the profile whose value was read, if one was read.
abbrev shown_profile : AnsConfig → Option (Bool × ℤ) → Bytes
shown_profile cfg none = codes "unavailable"
shown_profile cfg (some (_, value)) =
    if cfg.platform_profiles.available && leb_ℤ (pos 0) value
    then platform_profile_value_name cfg value
    else codes "unavailable"

module _ (M : Machine) where
  open M use {World, ec_read_byte, sensor_read_group_max_c}

  unfoldable pub reply_fan_mode_status : AnsConfig → World → Option FanModeReport × World
  reply_fan_mode_status cfg w =
      let (result, w1) = read_fan_mode M cfg w in
      elim result [
        | none ↦ (none, w1)
        | some (both, cpu_value, gpu_value) ↦
            (if both then some (fan_mode_report cfg cpu_value gpu_value) else none, w1)
      ]

  unfoldable pub reply_profile_status : AnsConfig → World → Option (Bytes × ℤ) × World
  reply_profile_status cfg w =
      let (result, w1) = read_platform_profile M cfg w in
      elim result [
        | none ↦ (none, w1)
        | some (valid, value) ↦
            (if valid then some (platform_profile_value_name cfg value, value) else none, w1)
      ]

  unfoldable pub reply_power_source_status :
      AnsConfig → PowerSource → Bool → World → PowerSourceReport × World
  reply_power_source_status cfg source auto_apply w =
      let (result, w1) = read_platform_profile M cfg w in
      (
        record {
          source = source;
          policy = availability_text (power_source_profile_policy_available cfg);
          auto_apply = on_off_text auto_apply;
          ac_profile = fallback_text cfg.power_source_profiles.ac_profile (codes "unavailable");
          battery_profile =
              fallback_text cfg.power_source_profiles.battery_profile (codes "unavailable");
          profile = shown_profile cfg result;
          target = or_unavailable (power_source_profile_for cfg source);
        },
        w1,
      )

  -- The temperature, or -1, and the register that `source` names.
  unfoldable pub read_gpu_ec_temperature_c : AnsConfig → World → ℤ × ℤ × World
  read_gpu_ec_temperature_c cfg w = elim (config_find_fan cfg (codes "gpu")) [
    | none ↦ (minus_one, minus_one, w)
    | some fan ↦
        let reg = fan.temperature_register in
        let (temp, w1) = ec_read_byte reg w in
        if ltb_ℤ reg (pos 0)
        then (minus_one, minus_one, w)
        else if leb_ℤ temp (pos 0) || ltb_ℤ (pos 130) temp
        then (minus_one, minus_one, w1)
        else (temp, reg, w1)
  ]

  -- The temperature and where it comes from: the register, or -1 for hwmon.
  unfoldable pub read_gpu_temperature : AnsConfig → World → ℤ × ℤ × World
  read_gpu_temperature cfg w =
      let (ec_temp, reg, w1) = read_gpu_ec_temperature_c cfg w in
      let (group_temp, w2) = sensor_read_group_max_c (codes "gpu") w1 in
      if ltb_ℤ ec_temp (pos 0) then (group_temp, minus_one, w2) else (ec_temp, reg, w1)

  -- `source`: the register, or `none` for hwmon.
  abbrev gpu_source : ℤ → Option ℤ
  gpu_source reg = if ltb_ℤ reg (pos 0) then none else some reg

  unfoldable pub reply_gpu_temp_status : AnsConfig → Option Bytes → World → GpuTempReport × World
  reply_gpu_temp_status cfg power_control w =
      let (temp_c, reg, w1) = read_gpu_temperature cfg w in
      let without = or_unavailable power_control in
      if leb_ℤ (pos 0) temp_c
      then (elim power_control [
        | none ↦ (gpu_readable without without temp_c (gpu_source reg), w1)
        | some control ↦ (gpu_readable control (live_text control) temp_c (gpu_source reg), w1)
      ])
      else (elim power_control [
        | none ↦ (gpu_no_power_control, w1)
        | some control ↦ (gpu_unreadable control (live_text control), w1)
      ])

  unfoldable pub reply_keyboard_backlight_status :
      (World → Bool × BacklightStatus) → AnsConfig → TimeoutState → World → KeyboardReport × World
  reply_keyboard_backlight_status read_sysfs cfg runtime w =
      let (_, status, w1) = keyboard_backlight_read_any M read_sysfs cfg w in
      let supported = cfg.keyboard_backlight.timeout_supported in
      (
        record {
          status = status;
          timeout = if supported then on_off_text runtime.enabled else codes "unsupported";
          timeout_seconds = if supported then cfg.keyboard_backlight.timeout_seconds else pos 0;
          timeout_backend = if supported then codes "input-activity" else codes "unsupported";
          timed_off = runtime.timed_off;
          restore_percent = runtime.restore_percent;
          name_text = fallback_text status.name (codes "unavailable");
          backend_text = fallback_text status.backend (codes "none");
          reg_text = if leb_ℤ (pos 0) status.reg then some status.reg else none;
          reason = keyboard_backlight_reason status;
        },
        w1,
      )
