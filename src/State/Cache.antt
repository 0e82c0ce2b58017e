-- ===== src/State/Cache.antt =====
-- fan/temperature_cache.c: the last temperatures, from the texts of earlier runs.
use acer_nitro_sense_linux.Config.Types.{AnsConfig, FanConfig}
use acer_nitro_sense_linux.Fan.State.{FanState}
use acer_nitro_sense_linux.Prelude.{
  Bool, Bytes, List, Option, [], codes, if◌then◌else◌, length, ltb_ℤ, minus_one, none, pos, some,
  true, ℤ, ◌&&◌, ◌++◌, ◌==◌, ◌∷◌,
}
use acer_nitro_sense_linux.State.Buffer.{
  TextBuffer, decimal, json_append_string, text_buffer_append, text_buffer_init, text_buffer_ok,
}
use acer_nitro_sense_linux.Util.Json.{json_int_key}
use acer_nitro_sense_linux.Util.Json.Scan.{json_object_with_id}

-- `temp > 0 && temp < 130`
abbrev pub plausible : ℤ → Bool
plausible temp = ltb_ℤ (pos 0) temp && ltb_ℤ temp (pos 130)

unfoldable pub seed_state : ℤ → ℤ → FanState → FanState
seed_state temp control_temp s = record s {
  temp_c = if plausible temp then temp else s.temp_c;
  temp_seeded = if plausible temp then true else s.temp_seeded;
  control_temp_c = if plausible control_temp then control_temp else s.control_temp_c;
  control_temp_seeded = if plausible control_temp then true else s.control_temp_seeded;
}

-- The needle of the loop is that of `json_object_with_id`.
unfoldable pub seed_fan : Bytes → FanConfig → FanState → FanState
seed_fan json fan s = elim (json_object_with_id json fan.id) [
  | none ↦ s
  | some fan_obj ↦
      let temp = json_int_key fan_obj (codes "temp_c") minus_one in
      seed_state temp (json_int_key fan_obj (codes "control_temp_c") temp) s
]

unfoldable pub seed_fans : Bytes → List FanConfig → List FanState → List FanState
seed_fans json [] states = states
seed_fans json (fan ∷ fans) [] = []
seed_fans json (fan ∷ fans) (s ∷ states) = seed_fan json fan s ∷ seed_fans json fans states

unfoldable pub seed_temperatures_from_file :
    Option Bytes → AnsConfig → List FanState → List FanState
seed_temperatures_from_file none cfg states = states
seed_temperatures_from_file (some json) cfg states = seed_fans json cfg.fans states

-- The texts of the status file and of the cache, which goes last.
unfoldable pub seed_last_temperatures :
    Option Bytes → Option Bytes → AnsConfig → List FanState → List FanState
seed_last_temperatures status cache cfg states =
    seed_temperatures_from_file cache cfg (seed_temperatures_from_file status cfg states)

-- A line of the cache, whose id is written with its escapes.
unfoldable pub append_cache_line : TextBuffer → FanConfig → FanState → Bool → TextBuffer
append_cache_line out fan s last =
    let out1 = (text_buffer_append out (codes "    { \"id\": ")).1 in
    let out2 = (json_append_string out1 fan.id).1 in
    (text_buffer_append out2 (
      codes ", \"temp_c\": "
      ++ decimal s.temp_c
      ++ codes ", \"control_temp_c\": "
      ++ decimal s.control_temp_c
      ++ codes " }"
      ++ (if last then [] else codes ",")
      ++ codes "\n")).1

unfoldable pub append_cache_lines : TextBuffer → List FanConfig → List FanState → TextBuffer
append_cache_lines out [] states = out
append_cache_lines out (fan ∷ fans) [] = out
append_cache_lines out (fan ∷ fans) (s ∷ states) =
    append_cache_lines (append_cache_line out fan s (length fans == 0)) fans states

-- daemon/status.c: the text that replaces the cache.
unfoldable pub write_temperature_cache : AnsConfig → List FanState → Option Bytes
write_temperature_cache cfg states =
    let out0 = (text_buffer_append (text_buffer_init 512) (codes "{\n  \"fans\": [\n")).1 in
    let out1 = append_cache_lines out0 cfg.fans states in
    let out2 = (text_buffer_append out1 (codes "  ]\n}\n")).1 in
    if text_buffer_ok out2 then some out2.content else none
