-- ===== src/Client/Backlight.antt =====
-- commands/client/platform.c: `keyboard-backlight`.
use acer_nitro_sense_linux.Client.Transport.{client_send_commandf}
use acer_nitro_sense_linux.Client.Types.{
  ClientCall, ClientCommand, argv_at, call_entry, complains, entry, prints_usage, sends,
}
use acer_nitro_sense_linux.Command.Tokens.{command_int_in, command_token_in}
use acer_nitro_sense_linux.Prelude.{
  Bytes, List, [], codes, if◌then◌else◌, length, ltb, negsuc, not, pos, text_has_value, ℤ, ◌%◌,
  ◌++◌, ◌-◌, ◌==◌, ◌^◌, ◌||◌, ◌∷◌,
}
use acer_nitro_sense_linux.State.Buffer.{decimal}
use acer_nitro_sense_linux.Util.Strtol.{strtol}

-- The conversion of a `long` to a 32-bit `int`, which keeps the low 32 bits.
unfoldable pub long_to_int : ℤ → ℤ
long_to_int (pos n) =
    let low = n % 2 ^ 32 in if ltb low (2 ^ 31) then pos low else negsuc (2 ^ 32 - 1 - low)
long_to_int (negsuc n) =
    let low = n % 2 ^ 32 in if ltb low (2 ^ 31) then negsuc low else pos (2 ^ 32 - 1 - low)

unfoldable pub client_handle_keyboard_backlight_status_command : List Bytes → ClientCall
client_handle_keyboard_backlight_status_command argv =
    if not (length argv == 3) then prints_usage else sends (codes "keyboard-backlight status\n")

unfoldable pub brightness_steps : List ℤ
brightness_steps = pos 0 ∷ pos 25 ∷ pos 50 ∷ pos 75 ∷ pos 100 ∷ []

-- "keyboard-backlight set %ld\n"
abbrev pub backlight_line : ℤ → Bytes
backlight_line percent = codes "keyboard-backlight set " ++ (decimal percent ++ codes "\n")

unfoldable pub client_handle_keyboard_backlight_set_command : List Bytes → ClientCall
client_handle_keyboard_backlight_set_command argv =
    let p = strtol (argv_at argv 3) 10 in
    if not (length argv == 4)
    then prints_usage
    else if not p.found
        || text_has_value p.rest
        || not (command_int_in (long_to_int p.value) brightness_steps)
    then complains
    else client_send_commandf (backlight_line p.value)

unfoldable pub client_handle_keyboard_backlight_timeout_command : List Bytes → ClientCall
client_handle_keyboard_backlight_timeout_command argv =
    if not (length argv == 4)
    then prints_usage
    else if not (command_token_in (argv_at argv 3) (codes "status" ∷ codes "on" ∷ codes "off" ∷ []))
    then complains
    else client_send_commandf
        (codes "keyboard-backlight timeout " ++ (argv_at argv 3 ++ codes "\n"))

unfoldable pub client_keyboard_commands : List ClientCommand
client_keyboard_commands =
    entry (codes "status") client_handle_keyboard_backlight_status_command
    ∷ entry (codes "set") client_handle_keyboard_backlight_set_command
    ∷ entry (codes "timeout") client_handle_keyboard_backlight_timeout_command
    ∷ []

unfoldable pub client_handle_keyboard_backlight_command : List Bytes → ClientCall
client_handle_keyboard_backlight_command argv =
    if ltb (length argv) 3
    then prints_usage
    else call_entry client_keyboard_commands (argv_at argv 2) argv complains
