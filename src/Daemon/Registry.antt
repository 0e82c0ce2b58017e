-- ===== src/Daemon/Registry.antt =====
-- commands/daemon/registry.c and daemon.c: which handler a command reaches, and who may use it.
use acer_nitro_sense_linux.Client.Types.{entry}
use acer_nitro_sense_linux.Command.Parser.{
  command_is_exact, parse_coolboost_command, parse_fan_mode_command, parse_gpu_temp_command,
  parse_keyboard_backlight_command, parse_keyboard_backlight_timeout_command,
  parse_power_source_command, parse_profile_command,
}
use acer_nitro_sense_linux.Command.Tokens.{command_first_token}
use acer_nitro_sense_linux.Config.Find.{find_by_id}
use acer_nitro_sense_linux.Config.Types.{AnsConfig}
use acer_nitro_sense_linux.Daemon.Backlight.{handle_keyboard_backlight_command}
use acer_nitro_sense_linux.Daemon.Control.{handle_daemon_control_command, handle_ec_command}
use acer_nitro_sense_linux.Daemon.Fan.{handle_fan_control_command}
use acer_nitro_sense_linux.Daemon.Modes.{handle_coolboost_command, handle_fan_mode_command}
use acer_nitro_sense_linux.Daemon.Power.{
  handle_gpu_temp_command, handle_power_source_command, handle_profile_command,
}
use acer_nitro_sense_linux.Daemon.Protocol.{control_read_command}
use acer_nitro_sense_linux.Daemon.Types.{
  Answer, DaemonState, Reply, Service, bad_usage, invalid_command, permission_denied, refused,
  reported, shows_capabilities, shows_coolboost, shows_fan_mode, shows_gpu_temp, shows_keyboard,
  shows_power_source, shows_preset, shows_presets, shows_profile, shows_status, unchanged,
  unknown_command,
}
use acer_nitro_sense_linux.Machine.{Machine}
use acer_nitro_sense_linux.Platform.Host.{Host}
use acer_nitro_sense_linux.Platform.PowerSource.{read_power_source}
use acer_nitro_sense_linux.Prelude.{
  Bool, Bytes, List, Option, [], codes, false, if◌then◌else◌, none, not, some, str_eq, true, ℕ,
  ◌&&◌, ◌||◌, ◌∷◌,
}
use acer_nitro_sense_linux.Status.Capabilities.{reply_capabilities}
use acer_nitro_sense_linux.Status.Feature.{
  reply_coolboost_status, reply_fan_mode_status, reply_gpu_temp_status,
  reply_keyboard_backlight_status, reply_power_source_status, reply_profile_status,
}
use acer_nitro_sense_linux.Status.Reply.{reply_preset_show, reply_presets, reply_status}

-- The registry's handlers.
pub data Route : Type 0 where
  status_route presets_route preset_show_route capabilities_route coolboost_route : Route
  fan_mode_route profile_route power_source_route gpu_temp_route keyboard_route : Route
  ec_route fan_route daemon_control_route : Route

-- daemon_registry_command
pub record DaemonCommand : Type 0 where
  pub command_name : Bytes
  pub requires_control : Bool
  pub route : Route

abbrev open_to_all : Bytes → Route → DaemonCommand
open_to_all name r = record { command_name = name; requires_control = false; route = r }

abbrev controlled : Bytes → Route → DaemonCommand
controlled name r = record { command_name = name; requires_control = true; route = r }

unfoldable pub daemon_commands : List DaemonCommand
daemon_commands =
    open_to_all (codes "status") status_route
    ∷ open_to_all (codes "presets") presets_route
    ∷ open_to_all (codes "preset-show") preset_show_route
    ∷ open_to_all (codes "capabilities") capabilities_route
    ∷ open_to_all (codes "coolboost") coolboost_route
    ∷ open_to_all (codes "fan-mode") fan_mode_route
    ∷ open_to_all (codes "profile") profile_route
    ∷ open_to_all (codes "power-source") power_source_route
    ∷ open_to_all (codes "gpu-temp") gpu_temp_route
    ∷ open_to_all (codes "keyboard-backlight") keyboard_route
    ∷ controlled (codes "ec-read") ec_route
    ∷ controlled (codes "ec-dump") ec_route
    ∷ controlled (codes "set") fan_route
    ∷ controlled (codes "preset") fan_route
    ∷ controlled (codes "auto") fan_route
    ∷ controlled (codes "firmware-auto") fan_route
    ∷ controlled (codes "resume") daemon_control_route
    ∷ controlled (codes "stop") daemon_control_route
    ∷ []

unfoldable pub find_daemon_command : Bytes → Option DaemonCommand
find_daemon_command name = find_by_id (λ c. c.command_name) daemon_commands name

unfoldable pub command_action_is_status : Bytes → (Bytes → ℕ → Option Bytes) → Bool
command_action_is_status cmd parser = elim (parser cmd 16) [
  | none ↦ false
  | some action ↦ str_eq action (codes "status")
]

module _ (M : Machine) (H : Host M) where
  open M use {World}

  abbrev pub Outcome : Type 0
  Outcome = Service × Answer × World

  -- The state of the fan commands inside that of the daemon.
  abbrev pub within : Service → DaemonState × Answer × World → Outcome
  within s r = (record s { daemon = r.0 }, r.1, r.2)

  abbrev pub usage_or : Bytes → Bytes → Reply → Service → World → Outcome
  usage_or cmd name reply s w =
      if not (command_is_exact cmd name) then (s, refused bad_usage, w) else (s, reported reply, w)

  -- A status for everybody, else a change that needs the control permission.
  unfoldable pub status_or_control : Bool → Bool → Outcome → Outcome → Service → World → Outcome
  status_or_control is_status can_control status change s w =
      if is_status
      then status
      else if not can_control
      then (s, refused permission_denied, w)
      else change

  unfoldable pub handle_coolboost_registry_command :
      AnsConfig → Bytes → Bool → Service → World → Outcome
  handle_coolboost_registry_command cfg cmd can_control s w =
      status_or_control (command_action_is_status cmd parse_coolboost_command) can_control
        (s, reported (shows_coolboost (reply_coolboost_status cfg s.daemon.coolboost_enabled)), w)
        (within s (handle_coolboost_command M cfg cmd s.daemon w)) s w

  unfoldable pub handle_fan_mode_registry_command :
      AnsConfig → Bytes → Bool → Service → World → Outcome
  handle_fan_mode_registry_command cfg cmd can_control s w =
      let (shown, w1) = reply_fan_mode_status M cfg w in
      status_or_control (command_action_is_status cmd parse_fan_mode_command) can_control
        (s, reported (shows_fan_mode shown), w1)
        (within s (handle_fan_mode_command M cfg cmd s.daemon w)) s w

  unfoldable pub handle_profile_registry_command :
      AnsConfig → Bytes → Bool → Service → World → Outcome
  handle_profile_registry_command cfg cmd can_control s w =
      let (shown, w1) = reply_profile_status M cfg w in
      status_or_control (command_action_is_status cmd parse_profile_command) can_control
        (s, reported (shows_profile shown), w1) (unchanged s (handle_profile_command M cfg cmd w)) s
        w

  unfoldable pub handle_power_source_registry_command :
      AnsConfig → Bytes → Bool → Service → World → Outcome
  handle_power_source_registry_command cfg cmd can_control s w =
      let source = read_power_source M H w in
      let (shown, w1) = reply_power_source_status M cfg source s.power_source_auto_apply w in
      status_or_control (command_action_is_status cmd parse_power_source_command) can_control
        (s, reported (shows_power_source shown), w1)
        (handle_power_source_command M cfg source cmd s w) s w

  unfoldable pub handle_gpu_temp_registry_command :
      AnsConfig → Bytes → Bool → Service → World → Outcome
  handle_gpu_temp_registry_command cfg cmd can_control s w =
      let power = H.sensor_read_group_power_control (codes "gpu") w in
      let (shown, w1) = reply_gpu_temp_status M cfg power w in
      status_or_control (command_action_is_status cmd parse_gpu_temp_command) can_control
        (s, reported (shows_gpu_temp shown), w1) (unchanged s (handle_gpu_temp_command M H cmd w)) s
        w

  unfoldable pub handle_keyboard_backlight_registry_command :
      AnsConfig → Bytes → Bool → Service → World → Outcome
  handle_keyboard_backlight_registry_command cfg cmd can_control s w =
      let (shown, w1) = reply_keyboard_backlight_status M H.read_sysfs cfg s.timeout w in
      let is_status =
        command_action_is_status cmd parse_keyboard_backlight_command
        || command_action_is_status cmd parse_keyboard_backlight_timeout_command in
      status_or_control is_status can_control (s, reported (shows_keyboard shown), w1)
        (handle_keyboard_backlight_command M cfg cmd s w) s w

  unfoldable pub run_route : Route → AnsConfig → Bytes → Bool → Service → World → Outcome
  run_route status_route cfg cmd can_control s w =
      let d = s.daemon in
      let source = read_power_source M H w in
      usage_or cmd (codes "status")
        (shows_status (reply_status cfg d.states d.auto_mode d.preset d.coolboost_enabled source)) s
        w
  run_route presets_route cfg cmd can_control s w =
      usage_or cmd (codes "presets") (shows_presets (reply_presets cfg)) s w
  run_route preset_show_route cfg cmd can_control s w =
      let d = s.daemon in
      usage_or cmd (codes "preset-show")
        (shows_preset (reply_preset_show cfg d.states d.auto_mode d.preset)) s w
  run_route capabilities_route cfg cmd can_control s w =
      let power = H.sensor_read_group_power_control (codes "gpu") w in
      let (_, led) = H.read_sysfs w in
      usage_or cmd (codes "capabilities")
        (shows_capabilities (reply_capabilities cfg power led s.power_source_auto_apply)) s w
  run_route coolboost_route cfg cmd can_control s w =
      handle_coolboost_registry_command cfg cmd can_control s w
  run_route fan_mode_route cfg cmd can_control s w =
      handle_fan_mode_registry_command cfg cmd can_control s w
  run_route profile_route cfg cmd can_control s w =
      handle_profile_registry_command cfg cmd can_control s w
  run_route power_source_route cfg cmd can_control s w =
      handle_power_source_registry_command cfg cmd can_control s w
  run_route gpu_temp_route cfg cmd can_control s w =
      handle_gpu_temp_registry_command cfg cmd can_control s w
  run_route keyboard_route cfg cmd can_control s w =
      handle_keyboard_backlight_registry_command cfg cmd can_control s w
  run_route ec_route cfg cmd can_control s w = unchanged s (handle_ec_command M cmd w)
  run_route fan_route cfg cmd can_control s w =
      within s (handle_fan_control_command M cfg cmd s.daemon w)
  run_route daemon_control_route cfg cmd can_control s w =
      handle_daemon_control_command M H cfg cmd s w

  -- Every handler answers true, so the reply of its failure is never sent.
  unfoldable pub run_entry : DaemonCommand → AnsConfig → Bytes → Bool → Service → World → Outcome
  run_entry entry cfg cmd can_control s w =
      if entry.requires_control && not can_control
      then (s, refused permission_denied, w)
      else run_route entry.route cfg cmd can_control s w

  unfoldable pub dispatch_daemon_command : AnsConfig → Bytes → Bool → Service → World → Outcome
  dispatch_daemon_command cfg cmd can_control s w = elim (command_first_token cmd 32) [
    | none ↦ (s, refused unknown_command, w)
    | some name ↦ elim (find_daemon_command name) [
      | none ↦ (s, refused unknown_command, w)
      | some entry ↦ run_entry entry cfg cmd can_control s w
    ]
  ]

  -- The command that was read, if it is valid.
  unfoldable pub execute_read : AnsConfig → Option Bytes → Bool → Service → World → Outcome
  execute_read cfg none can_control s w = (s, refused invalid_command, w)
  execute_read cfg (some cmd) can_control s w = dispatch_daemon_command cfg cmd can_control s w

  -- A connection, by what its reads give.
  unfoldable pub handle_client : AnsConfig → List (Option ℕ) → Bool → Service → World → Outcome
  handle_client cfg reads can_control s w =
      execute_read cfg (control_read_command reads 256) can_control s w
