-- ===== src/Client/Groups.antt =====
-- commands/client/fan.c and platform.c: the lines of the commands with subcommands.
use acer_nitro_sense_linux.Client.Backlight.{
  client_handle_keyboard_backlight_command, client_handle_keyboard_backlight_set_command,
  client_handle_keyboard_backlight_status_command, client_handle_keyboard_backlight_timeout_command,
  client_keyboard_commands,
}
use acer_nitro_sense_linux.Client.Fan.{
  client_ec_commands, client_handle_ec_command, client_handle_ec_dump_command,
  client_handle_ec_read_command, client_handle_preset_command, client_handle_preset_show_command,
  client_handle_set_command, client_preset_commands, dump_range, ec_dump_line, ec_read_line,
  parse_dump_bytes, set_fans, set_line,
}
use acer_nitro_sense_linux.Client.Known.{
  IsServed, call_entry-IsServed, counted-IsServed, formats-IsKnown, names-IsKnown, parsed-IsServed,
  refused-IsServed, sendf-IsServed,
}
use acer_nitro_sense_linux.Client.Parse.{client_parse_byte_value, client_parse_percent}
use acer_nitro_sense_linux.Client.Platform.{
  client_coolboost_commands, client_handle_coolboost_command, client_handle_coolboost_set_command,
  client_handle_coolboost_status_command, client_handle_power_source_apply_command,
  client_handle_power_source_auto_command, client_handle_power_source_command,
  client_handle_power_source_status_command, client_power_source_commands,
}
use acer_nitro_sense_linux.Client.Transport.{client_send_commandf}
use acer_nitro_sense_linux.Client.Types.{argv_at, complains, prints_usage}
use acer_nitro_sense_linux.Command.Tokens.{command_token_in}
use acer_nitro_sense_linux.Prelude.{
  Bytes, List, arith, codes, if◌then◌else◌, length, ltb, not, ℤ, ◌++◌, ◌==◌,
}

pub ec_read-IsServed : (argv : List Bytes) → IsServed (client_handle_ec_read_command argv)
unfolding client_handle_ec_read_command
ec_read-IsServed argv = counted-IsServed (not (length argv == 4)) _ (
    parsed-IsServed (client_parse_byte_value (argv_at argv 3))
      (λ start. client_send_commandf (ec_read_line start))
      (λ start. sendf-IsServed (ec_read_line start) (formats-IsKnown _).0))

pub dump_range-IsServed : (range : ℤ × ℤ) → IsServed (dump_range range.0 range.1)
unfolding dump_range
dump_range-IsServed (start, end) = refused-IsServed _ (ec_dump_line start end) (formats-IsKnown _).1

pub ec_dump-IsServed : (argv : List Bytes) → IsServed (client_handle_ec_dump_command argv)
unfolding client_handle_ec_dump_command
ec_dump-IsServed argv = counted-IsServed (not (length argv == 5)) _ (
    parsed-IsServed (parse_dump_bytes argv) (λ range. dump_range range.0 range.1)
      dump_range-IsServed)

pub ec-IsServed : (argv : List Bytes) → IsServed (client_handle_ec_command argv)
unfolding client_handle_ec_command client_ec_commands
ec-IsServed argv = counted-IsServed (ltb (length argv) 3) _ (
    call_entry-IsServed client_ec_commands (argv_at argv 2) argv prints_usage
      (ec_read-IsServed, (ec_dump-IsServed, tt)) tt)

pub set-IsServed : (argv : List Bytes) → IsServed (client_handle_set_command argv)
unfolding client_handle_set_command
set-IsServed argv = counted-IsServed (not (length argv == 4)) _ (
    parsed-IsServed (client_parse_percent (argv_at argv 3))
      (λ percent.
        if not (command_token_in (argv_at argv 2) set_fans)
        then complains
        else client_send_commandf (set_line (argv_at argv 2) percent))
      (λ percent. refused-IsServed _ (set_line (argv_at argv 2) percent) (formats-IsKnown _).2))

pub preset-IsServed : (argv : List Bytes) → IsServed (client_handle_preset_command argv)
unfolding client_handle_preset_command client_preset_commands client_handle_preset_show_command
preset-IsServed argv = counted-IsServed (not (length argv == 3)) _ (
    call_entry-IsServed client_preset_commands (argv_at argv 2) argv _
      ((λ words. counted-IsServed (not (length words == 3)) _ (omega arith, names-IsKnown.0)), tt)
      (sendf-IsServed _ (formats-IsKnown _).3))

pub coolboost-IsServed : (argv : List Bytes) → IsServed (client_handle_coolboost_command argv)
unfolding client_handle_coolboost_command client_coolboost_commands
    client_handle_coolboost_set_command client_handle_coolboost_status_command
coolboost-IsServed argv =
    let set_lem = λ (words : List Bytes). counted-IsServed (not (length words == 3)) _ (
      sendf-IsServed (codes "coolboost " ++ (argv_at words 2 ++ codes "\n"))
        (formats-IsKnown _).4) in
    counted-IsServed (ltb (length argv) 3) _ (
      call_entry-IsServed client_coolboost_commands (argv_at argv 2) argv complains
        (set_lem, (set_lem, ((λ words. counted-IsServed (not (length words == 3)) _ tt), tt))) tt)

pub power_source-IsServed : (argv : List Bytes) → IsServed (client_handle_power_source_command argv)
unfolding client_handle_power_source_command client_power_source_commands
    client_handle_power_source_status_command client_handle_power_source_apply_command
    client_handle_power_source_auto_command
power_source-IsServed argv = counted-IsServed (ltb (length argv) 3) _ (
    call_entry-IsServed client_power_source_commands (argv_at argv 2) argv complains
      (
        (λ words.
            counted-IsServed (not (length words == 3)) _ (omega arith, (formats-IsKnown _).8)),
        (
          (λ words.
              counted-IsServed (not (length words == 3)) _ (omega arith, (formats-IsKnown _).8)),
          (
            (λ words.
                counted-IsServed (not (length words == 4)) _
                  (refused-IsServed _ _ (formats-IsKnown _).8)),
            tt,
          ),
        ),
      )
      tt)

pub keyboard-IsServed :
    (argv : List Bytes) → IsServed (client_handle_keyboard_backlight_command argv)
unfolding client_handle_keyboard_backlight_command client_keyboard_commands
    client_handle_keyboard_backlight_status_command client_handle_keyboard_backlight_set_command
    client_handle_keyboard_backlight_timeout_command
keyboard-IsServed argv = counted-IsServed (ltb (length argv) 3) _ (
    call_entry-IsServed client_keyboard_commands (argv_at argv 2) argv complains
      (
        (λ words.
            counted-IsServed (not (length words == 3)) _ (omega arith, (formats-IsKnown _).9)),
        (
          (λ words.
              counted-IsServed (not (length words == 4)) _
                (refused-IsServed _ _ (formats-IsKnown _).9)),
          (
            (λ words.
                counted-IsServed (not (length words == 4)) _
                  (refused-IsServed _ _ (formats-IsKnown _).9)),
            tt,
          ),
        ),
      )
      tt)
