-- ===== src/Config/Load.antt =====
-- config/config.c: `config_load`, from the text of the profile on; reading the file is not
-- modelled.
pub mod Valid
use acer_nitro_sense_linux.Config.Fans.{config_parse_fans}
use acer_nitro_sense_linux.Config.Lists.{
  config_parse_allowed_dmi, config_parse_init_writes, config_parse_presets,
}
use acer_nitro_sense_linux.Config.Parse.{
  config_optional_bool_key, config_optional_int_key, config_optional_string_key,
  config_required_string_key,
}
use acer_nitro_sense_linux.Config.Platform.{
  config_parse_keyboard_backlight, config_parse_platform_profiles,
  config_parse_power_source_profiles,
}
use acer_nitro_sense_linux.Config.Safety.{config_parse_safety}
use acer_nitro_sense_linux.Config.Sections.{config_parse_fan_modes}
use acer_nitro_sense_linux.Config.Types.{AnsConfig}
use acer_nitro_sense_linux.Prelude.{
  Bytes, Option, codes, false, guard, leb_ℤ, pos, some, true, ℤ, ◌&&◌, ◌>>=◌, ◌>>◌,
}

-- The fields that `config_load_identity` sets.
pub record ModelIdentity : Type 0 where
  pub model : Bytes
  pub default_preset : Bytes
  pub ec_path : Bytes

unfoldable pub config_load_identity : Bytes → Option ModelIdentity
config_load_identity json = do
  model ← config_required_string_key json (codes "model") 96
  preset ← config_required_string_key json (codes "default_preset") 32
  path ← config_optional_string_key json (codes "path") (codes "/sys/kernel/debug/ec/ec0/io") 256
  some (record { model = model; default_preset = preset; ec_path = path })

unfoldable pub config_load_bounded_int : Bytes → Bytes → ℤ → ℤ → ℤ → Option ℤ
config_load_bounded_int json key value lo hi = do
  v ← config_optional_int_key json key value
  guard (leb_ℤ lo v && leb_ℤ v hi)
  some v

unfoldable pub config_load : Bytes → Option AnsConfig
config_load json = do
  who ← config_load_identity json
  interval ←
      config_load_bounded_int json (codes "poll_interval_ms") (pos 3000) (pos 100) (pos 60000)
  critical ←
      config_load_bounded_int json (codes "critical_temperature_c") (pos 90) (pos 1) (pos 130)
  words ← config_optional_bool_key json (codes "read_words") true
  safety ← config_parse_safety json critical
  modes ← config_parse_fan_modes json
  platform ← config_parse_platform_profiles json
  power ← config_parse_power_source_profiles json platform
  keyboard ← config_parse_keyboard_backlight json
  writes ← config_parse_init_writes json
  fans ← config_parse_fans json
  presets ← config_parse_presets json
  some (record {
    model = who.model;
    default_preset = who.default_preset;
    ec_path = who.ec_path;
    allowed_dmi = config_parse_allowed_dmi json;
    poll_interval_ms = interval;
    critical_temperature_c = critical;
    read_words = words;
    safety = safety;
    coolboost_default_enabled = false;
    fan_modes = modes;
    platform_profiles = platform;
    power_source_profiles = power;
    keyboard_backlight = keyboard;
    init_writes = writes;
    fans = fans;
    presets = presets;
  })
