-- ===== src/Config/Lists.antt =====
-- config/lists.c: allowed machines, init writes and presets.
use acer_nitro_sense_linux.Config.Fans.{parse_objects}
use acer_nitro_sense_linux.Config.Parse.{
  config_byte_value_valid, config_percent_value_valid, config_required_int_key,
  config_required_string_key,
}
use acer_nitro_sense_linux.Config.Types.{EcWriteConfig, PresetConfig}
use acer_nitro_sense_linux.Prelude.{
  Bytes, List, Option, [], codes, guard, none, some, suc, zero, ℕ, ◌&&◌, ◌>>=◌, ◌>>◌, ◌∷◌,
}
use acer_nitro_sense_linux.Util.Json.{split_at}
use acer_nitro_sense_linux.Util.Json.Scan.{json_copy_slice, json_find_array}

-- The loop of `config_parse_allowed_dmi` over the quoted texts of the array, each cut to 63 bytes.
unfoldable pub parse_quoted : ℕ → Bytes → List Bytes
parse_quoted zero p = []
parse_quoted (suc room) p =
    let rest = parse_quoted room in
    elim (split_at b'"' p) [
      | none ↦ []
      | some (_, after) ↦ elim (split_at b'"' after) [
        | none ↦ []
        | some (text, p') ↦ json_copy_slice text 64 ∷ rest p'
      ]
    ]

unfoldable pub config_parse_allowed_dmi : Bytes → List Bytes
unfolding parse_quoted
config_parse_allowed_dmi json = elim (json_find_array json (codes "allowed_dmi_substrings")) [
  | none ↦ []
  | some p ↦ parse_quoted 8 p
]

unfoldable pub parse_init_write : Bytes → Option EcWriteConfig
parse_init_write json = do
  reg ← config_required_int_key json (codes "register")
  value ← config_required_int_key json (codes "value")
  reset ← config_required_int_key json (codes "reset_value")
  guard (
      config_byte_value_valid reg && config_byte_value_valid value && config_byte_value_valid reset)
  some (record { reg = reg; value = value; reset_value = reset })

abbrev max_writes : ℕ
max_writes = 8

unfoldable pub config_parse_init_writes : Bytes → Option (List EcWriteConfig)
config_parse_init_writes json = elim (json_find_array json (codes "init_writes")) [
  | none ↦ some []
  | some p ↦ parse_objects parse_init_write 512 max_writes p
]

unfoldable pub parse_preset : Bytes → Option PresetConfig
parse_preset json = do
  cpu ← config_required_int_key json (codes "cpu")
  gpu ← config_required_int_key json (codes "gpu")
  id ← config_required_string_key json (codes "id") 32
  guard (config_percent_value_valid cpu && config_percent_value_valid gpu)
  some (record { id = id; cpu = cpu; gpu = gpu })

abbrev max_presets : ℕ
max_presets = 16

unfoldable pub config_parse_presets : Bytes → Option (List PresetConfig)
config_parse_presets json = elim (json_find_array json (codes "presets")) [
  | none ↦ some []
  | some p ↦ parse_objects parse_preset 512 max_presets p
]
