-- ===== src/Daemon/ReadOnly.antt =====
-- What only reads the embedded controller and the sensors: every status report.
use acer_nitro_sense_linux.Config.Find.{config_find_fan}
use acer_nitro_sense_linux.Config.Types.{AnsConfig}
use acer_nitro_sense_linux.Keyboard.Backlight.{
  BacklightStatus, keyboard_backlight_read_any, keyboard_backlight_read_ec,
}
use acer_nitro_sense_linux.Keyboard.Timeout.{TimeoutState}
use acer_nitro_sense_linux.Machine.{Machine}
use acer_nitro_sense_linux.Platform.FanMode.{read_fan_mode}
use acer_nitro_sense_linux.Platform.PowerSource.{PowerSource}
use acer_nitro_sense_linux.Platform.Profile.{read_platform_profile}
use acer_nitro_sense_linux.Prelude.{
  Bool, Bool-cases, Bytes, Option, Option-cases, codes, if_elim, inl, inr, leb_ℤ, ltb_ℤ, none, not,
  pos, some, ℤ,
}
use acer_nitro_sense_linux.Status.Feature.{
  GpuTempReport, read_gpu_ec_temperature_c, read_gpu_temperature, reply_fan_mode_status,
  reply_gpu_temp_status, reply_keyboard_backlight_status, reply_power_source_status,
  reply_profile_status,
}

pub data OnlyRead (M : Machine) (w : M.World) : M.World → Type 0 where
  unread : OnlyRead M w w
  then_read_ec : {w1 : M.World} (reg : ℤ) → OnlyRead M w w1 → OnlyRead M w (M.ec_read_byte reg w1).1
  then_read_sensor :
      {w1 : M.World} (group : Bytes)
      → OnlyRead M w w1
      → OnlyRead M w (M.sensor_read_group_max_c group w1).1

module _ (M : Machine) where
  open M use {World}

  pub fan_mode_status_reads :
      (cfg : AnsConfig) (w : World) → OnlyRead M w (reply_fan_mode_status M cfg w).1
  unfolding reply_fan_mode_status read_fan_mode
  fan_mode_status_reads cfg w = elim (Bool-cases cfg.fan_modes.available) [
    | inl has ↦
        rw has (then_read_ec cfg.fan_modes.gpu_reg (then_read_ec cfg.fan_modes.cpu_reg unread))
    | inr lacks ↦ rw lacks unread
  ]

  profile_reads : (cfg : AnsConfig) (w : World) → OnlyRead M w (read_platform_profile M cfg w).1
  unfolding read_platform_profile
  profile_reads cfg w = elim (Bool-cases cfg.platform_profiles.available) [
    | inl has ↦ rw has (then_read_ec cfg.platform_profiles.reg unread)
    | inr lacks ↦ rw lacks unread
  ]

  pub profile_status_reads :
      (cfg : AnsConfig) (w : World) → OnlyRead M w (reply_profile_status M cfg w).1
  unfolding reply_profile_status read_platform_profile
  profile_status_reads cfg w = elim (Bool-cases cfg.platform_profiles.available) [
    | inl has ↦ rw has (then_read_ec cfg.platform_profiles.reg unread)
    | inr lacks ↦ rw lacks unread
  ]

  pub power_source_status_reads :
      (cfg : AnsConfig) (source : PowerSource) (auto_apply : Bool) (w : World)
      → OnlyRead M w (reply_power_source_status M cfg source auto_apply w).1
  unfolding reply_power_source_status
  power_source_status_reads cfg source auto_apply w = profile_reads cfg w

  gpu_ec_reads : (cfg : AnsConfig) (w : World) → OnlyRead M w (read_gpu_ec_temperature_c M cfg w).2
  unfolding read_gpu_ec_temperature_c
  gpu_ec_reads cfg w = elim (Option-cases (config_find_fan cfg (codes "gpu"))) [
    | inl bad ↦ rw (bad, read_gpu_ec_temperature_c) unread
    | inr (fan, found) ↦
        let reg = fan.temperature_register in
        let Q : ℤ × ℤ × World → Type 0 = λ r. OnlyRead M w r.2 in
        rw (found, read_gpu_ec_temperature_c)
          (if_elim Q (ltb_ℤ reg (pos 0)) unread
            (if_elim Q _ (then_read_ec reg unread) (then_read_ec reg unread)))
  ]

  gpu_reads : (cfg : AnsConfig) (w : World) → OnlyRead M w (read_gpu_temperature M cfg w).2
  unfolding read_gpu_temperature
  gpu_reads cfg w =
      let k = gpu_ec_reads cfg w in
      let Q : ℤ × ℤ × World → Type 0 = λ r. OnlyRead M w r.2 in
      if_elim Q (ltb_ℤ (read_gpu_ec_temperature_c M cfg w).0 (pos 0))
        (then_read_sensor (codes "gpu") k) k

  pub gpu_temp_status_reads :
      (cfg : AnsConfig) (power : Option Bytes) (w : World)
      → OnlyRead M w (reply_gpu_temp_status M cfg power w).1
  unfolding reply_gpu_temp_status
  gpu_temp_status_reads cfg none w =
      let Q : GpuTempReport × World → Type 0 = λ r. OnlyRead M w r.1 in
      if_elim Q (leb_ℤ (pos 0) (read_gpu_temperature M cfg w).0) (gpu_reads cfg w) (gpu_reads cfg w)
  gpu_temp_status_reads cfg (some control) w =
      let Q : GpuTempReport × World → Type 0 = λ r. OnlyRead M w r.1 in
      if_elim Q (leb_ℤ (pos 0) (read_gpu_temperature M cfg w).0) (gpu_reads cfg w) (gpu_reads cfg w)

  backlight_ec_reads :
      (cfg : AnsConfig) (w : World) → OnlyRead M w (keyboard_backlight_read_ec M cfg w).2
  unfolding keyboard_backlight_read_ec
  backlight_ec_reads cfg w =
      let kb = cfg.keyboard_backlight in
      let Q : Bool × BacklightStatus × World → Type 0 = λ r. OnlyRead M w r.2 in
      if_elim Q (not kb.available) unread
        (if_elim Q _ (then_read_ec kb.reg unread) (then_read_ec kb.reg unread))

  pub keyboard_status_reads :
      (read_sysfs : World → Bool × BacklightStatus) (cfg : AnsConfig) (runtime : TimeoutState)
      (w : World)
      → OnlyRead M w (reply_keyboard_backlight_status M read_sysfs cfg runtime w).1
  unfolding reply_keyboard_backlight_status keyboard_backlight_read_any
  keyboard_status_reads read_sysfs cfg runtime w =
      let Q : Bool × BacklightStatus × World → Type 0 = λ r. OnlyRead M w r.2 in
      if_elim Q (read_sysfs w).0 unread
        (if_elim Q cfg.keyboard_backlight.available (backlight_ec_reads cfg w) unread)
