-- ===== src/Status/Capabilities.antt =====
-- daemon/capabilities.c: which features the model has.
use acer_nitro_sense_linux.Client.Types.{entry}
use acer_nitro_sense_linux.Config.Find.{config_find_fan}
use acer_nitro_sense_linux.Config.Types.{AnsConfig, PlatformProfileEntry}
use acer_nitro_sense_linux.Keyboard.Backlight.{BacklightStatus, keyboard_backlight_reason}
use acer_nitro_sense_linux.Platform.PowerSource.{power_source_profile_policy_available}
use acer_nitro_sense_linux.Prelude.{
  Bool, Bytes, List, Option, [], codes, false, if◌then◌else◌, is_some, leb, leb_ℤ, length, none,
  not, pos, some, take, true, ℕ, ℤ, ◌++◌, ◌-◌, ◌==◌, ◌||◌, ◌∷◌,
}
use acer_nitro_sense_linux.Status.Feature.{or_unavailable}
use acer_nitro_sense_linux.Status.Format.{
  availability_text, fallback_text, on_off_text, supported_text,
}

-- The rest of the list after its first entries: `room` is `out_len - off`, and an entry that does
-- not fit is cut to `room - 1` bytes and ends the list.
unfoldable pub profile_entries : Bool → List PlatformProfileEntry → ℕ → Bytes
profile_entries first [] room = []
profile_entries first (entry ∷ entries) room =
    let text = (if first then [] else codes ",") ++ entry.id in
    let rest = profile_entries false entries (room - length text) in
    if leb room (length text) then take (room - 1) text else text ++ rest

unfoldable pub platform_profile_list : AnsConfig → ℕ → Bytes
platform_profile_list cfg out_len =
    if not cfg.platform_profiles.available || length cfg.platform_profiles.profiles == 0
    then take (out_len - 1) (codes "unavailable")
    else profile_entries true cfg.platform_profiles.profiles out_len

-- The register, where it is not hwmon.
unfoldable pub gpu_temperature_source : AnsConfig → Option ℤ
gpu_temperature_source cfg = elim (config_find_fan cfg (codes "gpu")) [
  | none ↦ none
  | some gpu ↦
      if leb_ℤ (pos 0) gpu.temperature_register then some gpu.temperature_register else none
]

unfoldable pub keyboard_backlight_control : AnsConfig → BacklightStatus → Bytes
keyboard_backlight_control cfg status =
    if cfg.keyboard_backlight.available
    then codes "ec-brightness"
    else if status.available
    then codes "sysfs-brightness"
    else codes "unsupported"

pub record CapabilitiesReport : Type 0 where
  pub coolboost : Bytes
  pub coolboost_backend : Bytes
  pub fan_mode : Bytes
  pub fan_modes_list : Bytes
  pub platform_profile : Bytes
  pub profiles_list : Bytes
  pub power_source_profile : Bytes
  pub auto_apply : Bytes
  pub ac_profile : Bytes
  pub battery_profile : Bytes
  pub gpu_temperature : Bytes
  pub gpu_temp_source : Option ℤ
  pub live_policy : Bytes
  pub current_policy : Bytes
  pub keyboard : Bytes
  pub keyboard_control : Bytes
  pub keyboard_timeout : Bytes
  pub timeout_backend : Bytes
  pub keyboard_reason : Bytes

-- `power_control` is what sensor_read_group_power_control reads, `keyboard` the LED's status.
unfoldable pub reply_capabilities :
    AnsConfig → Option Bytes → BacklightStatus → Bool → CapabilitiesReport
reply_capabilities cfg power_control keyboard auto_apply =
    let modes = cfg.fan_modes.available in
    let has_power_control = is_some power_control in
    let has_source = is_some (gpu_temperature_source cfg) in
    record {
      coolboost = availability_text modes;
      coolboost_backend = if modes then codes "fan-mode-turbo" else codes "unavailable";
      fan_mode = availability_text modes;
      fan_modes_list = if modes then codes "auto,manual,turbo" else codes "unavailable";
      platform_profile = availability_text cfg.platform_profiles.available;
      profiles_list = platform_profile_list cfg 256;
      power_source_profile = availability_text (power_source_profile_policy_available cfg);
      auto_apply = on_off_text auto_apply;
      ac_profile = fallback_text cfg.power_source_profiles.ac_profile (codes "unavailable");
      battery_profile =
          fallback_text cfg.power_source_profiles.battery_profile (codes "unavailable");
      gpu_temperature =
          if has_power_control || has_source then codes "available" else codes "cached-only";
      gpu_temp_source = gpu_temperature_source cfg;
      live_policy = if has_power_control then codes "auto,live" else codes "unavailable";
      current_policy = or_unavailable power_control;
      keyboard = availability_text (cfg.keyboard_backlight.available || keyboard.available);
      keyboard_control = keyboard_backlight_control cfg keyboard;
      keyboard_timeout = supported_text cfg.keyboard_backlight.timeout_supported;
      timeout_backend =
          if cfg.keyboard_backlight.timeout_supported
          then codes "input-activity"
          else codes "unsupported";
      keyboard_reason =
          if cfg.keyboard_backlight.available
          then codes "ok"
          else keyboard_backlight_reason keyboard;
    }
