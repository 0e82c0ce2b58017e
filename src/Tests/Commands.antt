-- ===== src/Tests/Commands.antt =====
-- Commands and texts.
use acer_nitro_sense_linux.Command.Parser.{parse_ec_dump_command, parse_set_command}
use acer_nitro_sense_linux.Command.Parser.Laws.{
  command_parse_action_iff, parse_ec_dump_command_in, parse_set_command_iff,
}
use acer_nitro_sense_linux.Command.Tokens.{
  command_has_only_trailing_space, command_parse_action, command_parse_int_token,
  command_parse_percent_token, command_read_token, expect_token, word,
}
use acer_nitro_sense_linux.Command.Tokens.Grammar.{Line, Token, command_read_token_iff}
use acer_nitro_sense_linux.Prelude.{
  Bytes, [], arith, codes, length, none, pos, refl, some, str_eq, true, ◌*ℤ◌, ◌+ℤ◌, ◌-ℤ◌, ◌<◌, ◌↔◌,
  ◌∷◌, ◌≡◌, ◌≤ℤ◌,
}
use acer_nitro_sense_linux.Util.Strtol.{
  digit_value, parse_int_range, read_digits, skip_c_space, strip_prefix, strtol,
}
use acer_nitro_sense_linux.Util.Text.{skip_space, string_copy, string_copy_lem}

command_read_token_iff_example :
    (command_read_token (codes "  set cpu") 16 ≡ some (codes "set", codes " cpu"))
    ↔ Token (codes "  set cpu") (codes "set") (codes " cpu") × (length (codes "set") < 16)
command_read_token_iff_example =
    command_read_token_iff (codes "  set cpu") 16 (codes "set") (codes " cpu")

command_parse_action_iff_example :
    (command_parse_action (codes "preset cool") (codes "preset") 32 ≡ some (codes "cool"))
    ↔ Line (codes "preset cool") (codes "preset" ∷ codes "cool" ∷ []) × (length (codes "cool") < 32)
command_parse_action_iff_example =
    command_parse_action_iff (codes "preset cool") (codes "preset") 32 (codes "cool") (omega arith)

parse_set_command_iff_example :
    (parse_set_command (codes "set cpu 50") 32 ≡ some (codes "cpu", pos 50)) ↔ (
      (text : Bytes) × Line (codes "set cpu 50") (codes "set" ∷ codes "cpu" ∷ text ∷ [])
      × (length (codes "cpu") < 32)
      × (length text < 16)
      × (command_parse_percent_token text ≡ some (pos 50)))
parse_set_command_iff_example = parse_set_command_iff (codes "set cpu 50") 32 (codes "cpu") (pos 50)

dump_16_143 : parse_ec_dump_command (codes "ec-dump 0x10 0x8f") ≡ some (pos 16, pos 143)
unfolding parse_ec_dump_command expect_token command_read_token command_parse_int_token
    command_has_only_trailing_space word skip_space str_eq parse_int_range strtol skip_c_space
    strip_prefix read_digits digit_value ◌-ℤ◌ ◌+ℤ◌ ◌*ℤ◌
dump_16_143 = refl

parse_ec_dump_command_in_example :
    (pos 0 ≤ℤ pos 16) × (pos 16 ≤ℤ pos 143) × (pos 143 ≤ℤ pos 255) × (pos 143 ≤ℤ pos 16 +ℤ pos 127)
parse_ec_dump_command_in_example = parse_ec_dump_command_in (codes "ec-dump 0x10 0x8f") dump_16_143

string_copy_lem_example :
    let (fits, copied) = string_copy [] 4 (some (codes "cpu-fan")) in
    (length copied < 4) × ((fits ≡ true) ↔ (copied ≡ codes "cpu-fan"))
string_copy_lem_example = string_copy_lem [] 4 (codes "cpu-fan") (omega arith)

set_commands :
    (parse_set_command (codes " set  cpu 50 ") 32 ≡ some (codes "cpu", pos 50))
    × (parse_set_command (codes "set cpu 0") 32 ≡ none)
    × (parse_set_command (codes "set cpu 50 x") 32 ≡ none)
    × (parse_set_command (codes "set cpu 50") 3 ≡ none)
unfolding parse_set_command expect_token command_read_token command_parse_percent_token
    command_has_only_trailing_space word skip_space str_eq parse_int_range strtol skip_c_space
    strip_prefix read_digits digit_value ◌-ℤ◌ ◌+ℤ◌ ◌*ℤ◌
set_commands = (refl, refl, refl, refl)
