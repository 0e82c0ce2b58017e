-- ===== src/Config/Types.antt =====
-- config/*_types.h and config/types.h: the model profile as records.
-- A fixed array with its length field (`fans` and `fan_len`) is one list; a `char` array is the
-- bytes of its text.
use acer_nitro_sense_linux.Prelude.{Bool, Bytes, List, ℤ}

-- struct safety_config
pub record SafetyConfig : Type 0 where
  pub min_speed_percent : ℤ
  pub min_speed_temperature_c : ℤ
  pub critical_speed_percent : ℤ
  pub critical_full_speed : Bool
  pub critical_step_percent : ℤ
  pub critical_consecutive_samples : ℤ
  pub critical_release_temperature_c : ℤ
  pub auto_ramp_up_percent : ℤ
  pub auto_ramp_bypass_temperature_c : ℤ
  pub missing_temperature_speed_percent : ℤ
  pub max_ec_read_failures : ℤ
  pub max_ec_write_failures : ℤ

-- struct threshold
pub record Threshold : Type 0 where
  pub up : ℤ
  pub down : ℤ
  pub speed : ℤ

-- struct fan_config
pub record FanConfig : Type 0 where
  pub id : Bytes
  pub name : Bytes
  pub sensor_group : Bytes
  pub control_sensor_group : Bytes
  pub sensor_power_control : Bytes
  pub keep_awake : Bool
  pub read_register : ℤ
  pub write_register : ℤ
  pub temperature_register : ℤ
  pub control_temperature_register : ℤ
  pub read_min : ℤ
  pub read_max : ℤ
  pub write_min : ℤ
  pub write_max : ℤ
  pub reset_speed : ℤ
  pub missing_temperature_speed_percent : ℤ
  pub curve : List Threshold

-- struct ec_write_config
pub record EcWriteConfig : Type 0 where
  pub reg : ℤ
  pub value : ℤ
  pub reset_value : ℤ

-- struct preset_config
pub record PresetConfig : Type 0 where
  pub id : Bytes
  pub cpu : ℤ
  pub gpu : ℤ

-- struct fan_mode_config
pub record FanModeConfig : Type 0 where
  pub available : Bool
  pub cpu_reg : ℤ
  pub gpu_reg : ℤ
  pub cpu_auto_value : ℤ
  pub cpu_manual_value : ℤ
  pub cpu_turbo_value : ℤ
  pub gpu_auto_value : ℤ
  pub gpu_manual_value : ℤ
  pub gpu_turbo_value : ℤ

-- struct platform_profile_entry
pub record PlatformProfileEntry : Type 0 where
  pub id : Bytes
  pub value : ℤ

-- struct platform_profile_config
pub record PlatformProfileConfig : Type 0 where
  pub available : Bool
  pub reg : ℤ
  pub default_profile : Bytes
  pub profiles : List PlatformProfileEntry

-- struct power_source_profile_config
pub record PowerSourceProfileConfig : Type 0 where
  pub auto_apply : Bool
  pub ac_profile : Bytes
  pub battery_profile : Bytes

-- struct keyboard_backlight_config
pub record KeyboardBacklightConfig : Type 0 where
  pub available : Bool
  pub reg : ℤ
  pub min_value : ℤ
  pub max_value : ℤ
  pub timeout_supported : Bool
  pub timeout_default_enabled : Bool
  pub timeout_seconds : ℤ

-- struct ans_config; `coolboost_default_enabled` is the one field of struct coolboost_config.
pub record AnsConfig : Type 0 where
  pub model : Bytes
  pub default_preset : Bytes
  pub ec_path : Bytes
  pub allowed_dmi : List Bytes
  pub poll_interval_ms : ℤ
  pub critical_temperature_c : ℤ
  pub read_words : Bool
  pub safety : SafetyConfig
  pub coolboost_default_enabled : Bool
  pub fan_modes : FanModeConfig
  pub platform_profiles : PlatformProfileConfig
  pub power_source_profiles : PowerSourceProfileConfig
  pub keyboard_backlight : KeyboardBacklightConfig
  pub init_writes : List EcWriteConfig
  pub fans : List FanConfig
  pub presets : List PresetConfig
