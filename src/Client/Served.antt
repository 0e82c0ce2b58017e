-- ===== src/Client/Served.antt =====
-- A `set` from the command line to the daemon: commands/client/, the grammar of the commands, and
-- commands/daemon/registry.c.
use acer_nitro_sense_linux.Client.Accepted.{set_sends}
use acer_nitro_sense_linux.Client.Dispatch.{client_commands, client_run}
use acer_nitro_sense_linux.Client.Fan.{client_handle_set_command, set_fans, set_line}
use acer_nitro_sense_linux.Client.Parse.{client_parse_percent}
use acer_nitro_sense_linux.Client.Received.{set_received, set_text}
use acer_nitro_sense_linux.Client.Types.{argv_at, call_entry, prints_usage, sends}
use acer_nitro_sense_linux.Command.Tokens.{
  command_first_token, command_read_token, command_token_in, word,
}
use acer_nitro_sense_linux.Config.Find.{find_by_id}
use acer_nitro_sense_linux.Config.Types.{AnsConfig}
use acer_nitro_sense_linux.Config.Valid.{IsWithin}
use acer_nitro_sense_linux.Daemon.Chosen.{IsManualAt, WritesSucceed, set_command-IsManualAt}
use acer_nitro_sense_linux.Daemon.Fan.{
  handle_fan_control_command, handle_named_command, handle_set_command, set_command,
}
use acer_nitro_sense_linux.Daemon.Registry.{
  daemon_commands, dispatch_daemon_command, execute_read, find_daemon_command, handle_client,
  run_entry, run_route, within,
}
use acer_nitro_sense_linux.Daemon.Types.{Service}
use acer_nitro_sense_linux.Machine.{Machine}
use acer_nitro_sense_linux.Platform.Host.{Host}
use acer_nitro_sense_linux.Prelude.{
  Bytes, List, arith, codes, if◌then◌else◌, length, ltb, map, pos, refl, some, str_eq, true, ℤ, ◌∙◌,
  ◌≡◌,
}
use acer_nitro_sense_linux.Util.Strtol.{parse_int_range_in}
use acer_nitro_sense_linux.Util.Text.{skip_space}

-- A line whose first word is `set` reaches the fan commands.
set_line_reaches :
    (M : Machine) (H : Host M) (cfg : AnsConfig) (cmd : Bytes) (s : Service) (w : M.World)
    → command_first_token cmd 32 ≡ some (codes "set")
    → dispatch_daemon_command M H cfg cmd true s w
      ≡ within M H s (handle_set_command M cfg cmd s.daemon w)
unfolding dispatch_daemon_command daemon_commands find_daemon_command find_by_id run_entry run_route
    handle_fan_control_command handle_named_command str_eq
set_line_reaches M H cfg cmd s w first =
    rw (dispatch_daemon_command, first, handle_fan_control_command, first) refl

-- The client's table sends `set` to its handler.
client_run-set :
    (argv : List Bytes) {cmd : Bytes}
    → argv_at argv 1 ≡ codes "set"
    → client_run argv ≡ sends cmd
    → client_handle_set_command argv ≡ sends cmd
unfolding client_run client_commands call_entry str_eq
client_run-set argv {cmd} named h =
    let row : (if ltb (length argv) 2 then prints_usage else client_handle_set_command argv)
        ≡ sends cmd =
      rw named at h in
    ground arith

set_text-first :
    (fan : Bytes) (percent : ℤ) → command_first_token (set_text fan percent) 32 ≡ some (codes "set")
unfolding command_first_token command_read_token skip_space word
set_text-first fan percent = refl

-- The daemon carries out `set` on the line that the client sends for it.
set_line_served :
    (M : Machine) (H : Host M) (cfg : AnsConfig) (s : Service) (w : M.World) (fan : Bytes)
    (percent : ℤ)
    → command_token_in fan set_fans ≡ true
    → IsWithin (pos 1) (pos 100) percent
    → handle_client M H cfg (map some (set_line fan percent)) true s w
      ≡ within M H s (set_command M cfg fan percent s.daemon w)
unfolding handle_client execute_read handle_set_command
set_line_served M H cfg s w fan percent listed inside =
    let (read, parsed) = set_received fan percent listed inside in
    let reaches =
      set_line_reaches M H cfg (set_text fan percent) s w (set_text-first fan percent) in
    rw (handle_client, read) (reaches ∙ rw (handle_set_command, parsed) refl)

-- Where the EC takes every write: whatever else stands on the command line of `set`, if the
-- client sends a line, the daemon that reads it from a sender with the control permission ends in
-- manual control, with every fan that was chosen at the percentage that the given text stands
-- for, which is 1 to 100, as the policy adjusts it, and every other fan as leaving coolboost left
-- it; the speeds of the chosen fans are the last writes to the EC.
pub client_set_served :
    (M : Machine) (H : Host M) (cfg : AnsConfig) (s : Service) (w : M.World) (argv : List Bytes)
    {cmd : Bytes}
    → WritesSucceed M
    → argv_at argv 1 ≡ codes "set"
    → client_run argv ≡ sends cmd
    → (percent : ℤ) × (client_parse_percent (argv_at argv 3) ≡ some percent)
      × IsWithin (pos 1) (pos 100) percent
      × (let (s', _, w') = handle_client M H cfg (map some cmd) true s w in
          IsManualAt M cfg (argv_at argv 2) percent s.daemon w s'.daemon w')
unfolding client_parse_percent
client_set_served M H cfg s w argv works named h =
    let fan = argv_at argv 2 in
    let (percent, number, listed, line) = set_sends argv (client_run-set argv named h) in
    let inside = parse_int_range_in (argv_at argv 3) (pos 1) (pos 100) 10 number in
    let served = set_line_served M H cfg s w fan percent listed inside in
    let manual = set_command-IsManualAt M cfg fan percent s.daemon w works inside in
    (percent, number, inside, rw (← line, served) manual)
