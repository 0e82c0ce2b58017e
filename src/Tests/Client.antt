-- ===== src/Tests/Client.antt =====
-- Command lines of the client, and what the daemon makes of them.
use acer_nitro_sense_linux.Client.Backlight.{
  brightness_steps, client_handle_keyboard_backlight_set_command, long_to_int,
}
use acer_nitro_sense_linux.Client.Bounds.{client_run-IsServed}
use acer_nitro_sense_linux.Client.Capture.{capture_replies_lem, joined}
use acer_nitro_sense_linux.Client.Dispatch.{client_commands, client_run}
use acer_nitro_sense_linux.Client.Fan.{client_handle_set_command, set_fans}
use acer_nitro_sense_linux.Client.Known.{IsServed}
use acer_nitro_sense_linux.Client.Parse.{client_parse_percent}
use acer_nitro_sense_linux.Client.Served.{client_set_served}
use acer_nitro_sense_linux.Client.Transport.{capture_replies, client_send_commandf}
use acer_nitro_sense_linux.Client.Types.{call_entry, sends}
use acer_nitro_sense_linux.Command.Tokens.{command_int_in, command_token_in}
use acer_nitro_sense_linux.Config.Valid.{IsWithin}
use acer_nitro_sense_linux.Daemon.Chosen.{IsManualAt, WritesSucceed}
use acer_nitro_sense_linux.Daemon.Registry.{handle_client}
use acer_nitro_sense_linux.Prelude.{
  Bytes, List, [], arith, codes, map, pos, refl, some, str_eq, take, true, ℤ, ◌-◌, ◌∷◌, ◌≡◌,
}
use acer_nitro_sense_linux.State.Buffer.{decimal, decimal_digits}
use acer_nitro_sense_linux.Tests.{bench, bench_profile}
use acer_nitro_sense_linux.Tests.Service.{bench_host, service_with}
use acer_nitro_sense_linux.Util.Strtol.{
  digit_value, parse_int_range, read_digits, skip_c_space, strip_prefix, strtol,
}

abbrev set_words : List Bytes
set_words = codes "acer-nitro-sense" ∷ codes "set" ∷ codes "cpu" ∷ codes "50" ∷ []

abbrev dump_words : List Bytes
dump_words = codes "acer-nitro-sense" ∷ codes "ec" ∷ codes "dump" ∷ codes "0x10" ∷ codes "31" ∷ []

set_sent : client_run set_words ≡ sends (codes "set cpu 50\n")
unfolding client_run client_commands call_entry str_eq client_handle_set_command
    client_parse_percent parse_int_range strtol skip_c_space strip_prefix read_digits digit_value
    set_fans command_token_in client_send_commandf decimal decimal_digits
set_sent = refl

bench-WritesSucceed : WritesSucceed bench
bench-WritesSucceed reg value w = refl

client_set_served_example :
    (percent : ℤ) × (client_parse_percent (codes "50") ≡ some percent)
    × IsWithin (pos 1) (pos 100) percent
    × (let (s', _, w') =
          handle_client bench bench_host bench_profile
            (map some (codes "set cpu 50\n"))
            true
            (service_with true (codes "auto"))
            [] in
        IsManualAt bench bench_profile
          (codes "cpu")
          percent
          (service_with true (codes "auto")).daemon
          []
          s'.daemon
          w')
client_set_served_example =
    client_set_served bench bench_host bench_profile (service_with true (codes "auto")) [] set_words
      bench-WritesSucceed refl set_sent

client_run-IsServed_example : IsServed (client_run set_words)
client_run-IsServed_example = client_run-IsServed set_words

capture_replies_lem_example :
    capture_replies 4 [] (codes "ab" ∷ codes "cd" ∷ [])
    ≡ take (4 - 1) (joined (codes "ab" ∷ codes "cd" ∷ []))
capture_replies_lem_example = capture_replies_lem 4 (codes "ab" ∷ codes "cd" ∷ []) (omega arith)

-- 2^32 + 25 is cut to the step 25, but sent as it was given.
wrapped_backlight_test :
    client_handle_keyboard_backlight_set_command (
      codes "acer-nitro-sense" ∷ codes "keyboard-backlight" ∷ codes "set" ∷ codes "4294967321" ∷ [])
    ≡ sends (codes "keyboard-backlight set 4294967321\n")
unfolding client_handle_keyboard_backlight_set_command strtol skip_c_space strip_prefix read_digits
    digit_value long_to_int brightness_steps command_int_in client_send_commandf decimal
    decimal_digits
wrapped_backlight_test = refl
