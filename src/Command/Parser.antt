-- ===== src/Command/Parser.antt =====
-- commands/parser/parser.c: one parser for each command of the daemon. The wrappers that only
-- name the command of `command_parse_action` or `command_parse_sub_action` take its buffer size.
pub mod Laws
use acer_nitro_sense_linux.Command.Tokens.{
  command_has_only_trailing_space, command_parse_action, command_parse_int_action,
  command_parse_int_sub_action, command_parse_int_token, command_parse_percent_token,
  command_parse_sub_action, command_read_token, expect_token,
}
use acer_nitro_sense_linux.Prelude.{
  Bool, Bytes, Option, codes, false, guard, leb_ℤ, none, pos, some, ℕ, ℤ, ◌&&◌, ◌-ℤ◌, ◌>>=◌, ◌>>◌,
}

unfoldable pub parse_set_command : Bytes → ℕ → Option (Bytes × ℤ)
parse_set_command cmd fan_len = do
  cursor ← expect_token cmd (codes "set") 16
  (fan, cursor') ← command_read_token cursor fan_len
  (percent_text, cursor'') ← command_read_token cursor' 16
  guard (command_has_only_trailing_space cursor'')
  percent ← command_parse_percent_token percent_text
  some (fan, percent)

unfoldable pub parse_preset_command : Bytes → ℕ → Option Bytes
parse_preset_command cmd len = command_parse_action cmd (codes "preset") len

unfoldable pub parse_coolboost_command : Bytes → ℕ → Option Bytes
parse_coolboost_command cmd len = command_parse_action cmd (codes "coolboost") len

unfoldable pub parse_fan_mode_command : Bytes → ℕ → Option Bytes
parse_fan_mode_command cmd len = command_parse_action cmd (codes "fan-mode") len

unfoldable pub parse_profile_command : Bytes → ℕ → Option Bytes
parse_profile_command cmd len = command_parse_action cmd (codes "profile") len

unfoldable pub parse_power_source_command : Bytes → ℕ → Option Bytes
parse_power_source_command cmd len = command_parse_action cmd (codes "power-source") len

unfoldable pub parse_power_source_auto_command : Bytes → ℕ → Option Bytes
parse_power_source_auto_command cmd len =
    command_parse_sub_action cmd (codes "power-source") (codes "auto") len

unfoldable pub parse_gpu_temp_command : Bytes → ℕ → Option Bytes
parse_gpu_temp_command cmd len = command_parse_action cmd (codes "gpu-temp") len

unfoldable pub parse_keyboard_backlight_command : Bytes → ℕ → Option Bytes
parse_keyboard_backlight_command cmd len = command_parse_action cmd (codes "keyboard-backlight") len

unfoldable pub parse_keyboard_backlight_set_command : Bytes → Option ℤ
parse_keyboard_backlight_set_command cmd =
    command_parse_int_sub_action cmd (codes "keyboard-backlight") (codes "set") (pos 0) (pos 100)

unfoldable pub parse_keyboard_backlight_timeout_command : Bytes → ℕ → Option Bytes
parse_keyboard_backlight_timeout_command cmd len =
    command_parse_sub_action cmd (codes "keyboard-backlight") (codes "timeout") len

unfoldable pub parse_ec_read_command : Bytes → Option ℤ
parse_ec_read_command cmd = command_parse_int_action cmd (codes "ec-read") (pos 0) (pos 255)

unfoldable pub parse_ec_dump_command : Bytes → Option (ℤ × ℤ)
parse_ec_dump_command cmd = do
  cursor ← expect_token cmd (codes "ec-dump") 16
  (start_text, cursor') ← command_read_token cursor 16
  (end_text, cursor'') ← command_read_token cursor' 16
  guard (command_has_only_trailing_space cursor'')
  first ← command_parse_int_token start_text (pos 0) (pos 255)
  last ← command_parse_int_token end_text (pos 0) (pos 255)
  guard (leb_ℤ first last && leb_ℤ (last -ℤ first) (pos 127))
  some (first, last)

unfoldable pub command_is_exact : Bytes → Bytes → Bool
command_is_exact cmd name = elim (expect_token cmd name 32) [
  | none ↦ false
  | some cursor ↦ command_has_only_trailing_space cursor
]
