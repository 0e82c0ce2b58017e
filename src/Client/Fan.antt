-- ===== src/Client/Fan.antt =====
-- commands/client/fan.c: `ec`, `set` and `preset`.
use acer_nitro_sense_linux.Client.Parse.{client_parse_byte_value, client_parse_percent}
use acer_nitro_sense_linux.Client.Transport.{client_send_commandf}
use acer_nitro_sense_linux.Client.Types.{
  ClientCall, ClientCommand, argv_at, call_entry, complains, entry, prints_usage, sends,
}
use acer_nitro_sense_linux.Command.Tokens.{command_token_in}
use acer_nitro_sense_linux.Prelude.{
  Bytes, List, Option, [], codes, if◌then◌else◌, length, ltb, ltb_ℤ, none, not, pos, some, ℤ, ◌++◌,
  ◌-ℤ◌, ◌==◌, ◌>>=◌, ◌||◌, ◌∷◌,
}
use acer_nitro_sense_linux.State.Buffer.{decimal}

-- "ec-read %d\n"
abbrev pub ec_read_line : ℤ → Bytes
ec_read_line start = codes "ec-read " ++ (decimal start ++ codes "\n")

-- "ec-dump %d %d\n"
abbrev pub ec_dump_line : ℤ → ℤ → Bytes
ec_dump_line start end =
    codes "ec-dump " ++ (decimal start ++ (codes " " ++ (decimal end ++ codes "\n")))

-- "set %s %d\n"
abbrev pub set_line : Bytes → ℤ → Bytes
set_line fan percent = codes "set " ++ (fan ++ (codes " " ++ (decimal percent ++ codes "\n")))

unfoldable pub client_handle_ec_read_command : List Bytes → ClientCall
client_handle_ec_read_command argv =
    if not (length argv == 4)
    then prints_usage
    else elim (client_parse_byte_value (argv_at argv 3)) [
      | none ↦ complains
      | some start ↦ client_send_commandf (ec_read_line start)
    ]

-- The range of a dump, once both registers are read.
unfoldable pub dump_range : ℤ → ℤ → ClientCall
dump_range start end =
    if ltb_ℤ end start || ltb_ℤ (pos 127) (end -ℤ start)
    then complains
    else client_send_commandf (ec_dump_line start end)

-- The two registers, if both are bytes.
unfoldable pub parse_dump_bytes : List Bytes → Option (ℤ × ℤ)
parse_dump_bytes argv = do
  start ← client_parse_byte_value (argv_at argv 3)
  end ← client_parse_byte_value (argv_at argv 4)
  some (start, end)

unfoldable pub client_handle_ec_dump_command : List Bytes → ClientCall
client_handle_ec_dump_command argv =
    if not (length argv == 5) then prints_usage else elim (parse_dump_bytes argv) [
      | none ↦ complains
      | some (start, end) ↦ dump_range start end
    ]

unfoldable pub client_ec_commands : List ClientCommand
client_ec_commands =
    entry (codes "read") client_handle_ec_read_command
    ∷ entry (codes "dump") client_handle_ec_dump_command
    ∷ []

unfoldable pub client_handle_ec_command : List Bytes → ClientCall
client_handle_ec_command argv =
    if ltb (length argv) 3
    then prints_usage
    else call_entry client_ec_commands (argv_at argv 2) argv prints_usage

unfoldable pub set_fans : List Bytes
set_fans = codes "cpu" ∷ codes "gpu" ∷ codes "all" ∷ []

unfoldable pub client_handle_set_command : List Bytes → ClientCall
client_handle_set_command argv =
    if not (length argv == 4) then prints_usage else elim (client_parse_percent (argv_at argv 3)) [
      | none ↦ complains
      | some percent ↦
          if not (command_token_in (argv_at argv 2) set_fans)
          then complains
          else client_send_commandf (set_line (argv_at argv 2) percent)
    ]

unfoldable pub client_handle_preset_show_command : List Bytes → ClientCall
client_handle_preset_show_command argv =
    if not (length argv == 3) then prints_usage else sends (codes "preset-show\n")

unfoldable pub client_preset_commands : List ClientCommand
client_preset_commands = entry (codes "show") client_handle_preset_show_command ∷ []

unfoldable pub client_handle_preset_command : List Bytes → ClientCall
client_handle_preset_command argv =
    if not (length argv == 3)
    then prints_usage
    else call_entry client_preset_commands (argv_at argv 2) argv
        (client_send_commandf (codes "preset " ++ (argv_at argv 2 ++ codes "\n")))
