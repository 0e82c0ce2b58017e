-- ===== src/Config/Platform.antt =====
-- config/platform.c: platform profiles, power-source profiles and the keyboard backlight.
use acer_nitro_sense_linux.Config.Fans.{parse_objects}
use acer_nitro_sense_linux.Config.Find.{find_by_id}
use acer_nitro_sense_linux.Config.Parse.{
  config_byte_value_valid, config_optional_bool_key, config_optional_int_key,
  config_optional_string_key, config_required_int_key, config_required_string_key,
}
use acer_nitro_sense_linux.Config.Types.{
  KeyboardBacklightConfig, PlatformProfileConfig, PlatformProfileEntry, PowerSourceProfileConfig,
}
use acer_nitro_sense_linux.Prelude.{
  Bool, Bytes, List, Option, [], codes, false, guard, is_some, leb_ℤ, ltb_ℤ, minus_one, none, pos,
  some, true, ℕ, ℤ, ◌&&◌, ◌>>=◌, ◌>>◌,
}
use acer_nitro_sense_linux.Util.Json.{json_find_key}
use acer_nitro_sense_linux.Util.Json.Scan.{json_find_array}

unfoldable pub parse_platform_profile_entry : Bytes → Option PlatformProfileEntry
parse_platform_profile_entry json = do
  value ← config_required_int_key json (codes "value")
  id ← config_required_string_key json (codes "id") 32
  guard (config_byte_value_valid value)
  some (record { id = id; value = value })

-- The register and the default profile.
unfoldable pub parse_platform_profile_header : Bytes → Option (ℤ × Bytes)
parse_platform_profile_header json = do
  reg ← config_required_int_key json (codes "register")
  guard (config_byte_value_valid reg)
  default ← config_optional_string_key json (codes "default_profile") [] 32
  some (reg, default)

abbrev max_platform_profiles : ℕ
max_platform_profiles = 8

abbrev pub no_platform_profiles : PlatformProfileConfig
no_platform_profiles = record {
  available = false;
  reg = pos 0;
  default_profile = [];
  profiles = [];
}

-- An entry with an empty id would be skipped, but `parse_platform_profile_entry` refuses it.
abbrev parse_platform_profile_entries : Bytes → Option (List PlatformProfileEntry)
parse_platform_profile_entries section = elim (json_find_array section (codes "profiles")) [
  | none ↦ some []
  | some p ↦ parse_objects parse_platform_profile_entry 512 max_platform_profiles p
]

unfoldable pub config_parse_platform_profiles : Bytes → Option PlatformProfileConfig
config_parse_platform_profiles json = elim (json_find_key json (codes "platform_profiles")) [
  | none ↦ some no_platform_profiles
  | some section ↦ do
    (reg, default) ← parse_platform_profile_header section
    entries ← parse_platform_profile_entries section
    some (record { available = true; reg = reg; default_profile = default; profiles = entries })
]

abbrev pub no_power_source_profiles : PowerSourceProfileConfig
no_power_source_profiles = record { auto_apply = false; ac_profile = []; battery_profile = [] }

unfoldable pub parse_power_source_profile_fields : Bytes → Option PowerSourceProfileConfig
parse_power_source_profile_fields json = do
  ac ← config_required_string_key json (codes "ac") 32
  battery ← config_required_string_key json (codes "battery") 32
  auto_apply ← config_optional_bool_key json (codes "auto_apply") false
  some (record { auto_apply = auto_apply; ac_profile = ac; battery_profile = battery })

-- `config_find_platform_profile(cfg, id) != NULL`
abbrev pub profile_known : PlatformProfileConfig → Bytes → Bool
profile_known platform id =
    is_some (find_by_id (λ (p : PlatformProfileEntry). p.id) platform.profiles id)

unfoldable pub power_source_profiles_refer_to_known_profiles :
    PlatformProfileConfig → PowerSourceProfileConfig → Bool
power_source_profiles_refer_to_known_profiles platform power =
    platform.available
    && profile_known platform power.ac_profile
    && profile_known platform power.battery_profile

unfoldable pub config_parse_power_source_profiles :
    Bytes → PlatformProfileConfig → Option PowerSourceProfileConfig
config_parse_power_source_profiles json platform =
    elim (json_find_key json (codes "power_source_profiles")) [
      | none ↦ some no_power_source_profiles
      | some section ↦ do
        power ← parse_power_source_profile_fields section
        guard (power_source_profiles_refer_to_known_profiles platform power)
        some power
    ]

abbrev pub no_keyboard_backlight : KeyboardBacklightConfig
no_keyboard_backlight = record {
  available = false;
  reg = minus_one;
  min_value = pos 0;
  max_value = pos 0;
  timeout_supported = false;
  timeout_default_enabled = false;
  timeout_seconds = pos 30;
}

unfoldable pub parse_keyboard_backlight_fields : Bytes → Option KeyboardBacklightConfig
parse_keyboard_backlight_fields json = do
  reg ← config_required_int_key json (codes "register")
  max_value ← config_required_int_key json (codes "max_value")
  min_value ← config_optional_int_key json (codes "min_value") (pos 0)
  supported ← config_optional_bool_key json (codes "timeout_supported") false
  enabled ← config_optional_bool_key json (codes "timeout_default_enabled") false
  seconds ← config_optional_int_key json (codes "timeout_seconds") (pos 30)
  some (record {
    available = true;
    reg = reg;
    min_value = min_value;
    max_value = max_value;
    timeout_supported = supported;
    timeout_default_enabled = enabled;
    timeout_seconds = seconds;
  })

unfoldable pub keyboard_backlight_values_valid : KeyboardBacklightConfig → Bool
keyboard_backlight_values_valid k =
    (config_byte_value_valid k.reg
      && config_byte_value_valid k.min_value
      && config_byte_value_valid k.max_value)
    && ltb_ℤ k.min_value k.max_value
    && (leb_ℤ (pos 5) k.timeout_seconds && leb_ℤ k.timeout_seconds (pos 3600))

unfoldable pub config_parse_keyboard_backlight : Bytes → Option KeyboardBacklightConfig
config_parse_keyboard_backlight json = elim (json_find_key json (codes "keyboard_backlight")) [
  | none ↦ some no_keyboard_backlight
  | some section ↦ do
    k ← parse_keyboard_backlight_fields section
    guard (keyboard_backlight_values_valid k)
    some k
]
