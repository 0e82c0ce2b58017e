-- ===== src/Daemon/Permission.antt =====
-- What a client without the control permission can do.
use acer_nitro_sense_linux.Client.Types.{entry}
use acer_nitro_sense_linux.Command.Parser.{command_is_exact}
use acer_nitro_sense_linux.Command.Tokens.{command_first_token}
use acer_nitro_sense_linux.Config.Find.{find_by_id}
use acer_nitro_sense_linux.Config.Types.{AnsConfig}
use acer_nitro_sense_linux.Daemon.ReadOnly.{
  OnlyRead, fan_mode_status_reads, gpu_temp_status_reads, keyboard_status_reads,
  power_source_status_reads, profile_status_reads, unread,
}
use acer_nitro_sense_linux.Daemon.Registry.{
  DaemonCommand, Route, capabilities_route, coolboost_route, daemon_commands, daemon_control_route,
  dispatch_daemon_command, ec_route, fan_mode_route, fan_route, find_daemon_command, gpu_temp_route,
  handle_coolboost_registry_command, handle_fan_mode_registry_command,
  handle_gpu_temp_registry_command, handle_keyboard_backlight_registry_command,
  handle_power_source_registry_command, handle_profile_registry_command, keyboard_route,
  power_source_route, preset_show_route, presets_route, profile_route, run_entry, run_route,
  status_or_control, status_route, usage_or,
}
use acer_nitro_sense_linux.Daemon.Types.{Answer, Reply, Service}
use acer_nitro_sense_linux.Machine.{Machine}
use acer_nitro_sense_linux.Platform.Host.{Host}
use acer_nitro_sense_linux.Platform.PowerSource.{read_power_source}
use acer_nitro_sense_linux.Prelude.{
  All, Bool, Bool-cases, Bytes, List, OnSome-some, Option-cases, [], arith, codes, false, if_elim,
  inl, inr, just, not, refl, some, str_eq, true, ◌∷◌, ◌≡◌,
}

-- The routes that are not for the control permission alone.
abbrev is_open : Route → Bool
is_open ec_route = false
is_open fan_route = false
is_open daemon_control_route = false
is_open _ = true

find_by_id-All :
    {A : Type 0} (P : A → Type 0) (key : A → Bytes) (xs : List A) (id : Bytes) {x : A}
    → All P xs
    → find_by_id key xs id ≡ some x
    → P x
unfolding find_by_id
find_by_id-All P key [] id h found = cc found
find_by_id-All P key (y ∷ xs) id (h, hs) found = elim (Bool-cases (str_eq (key y) id)) [
  | inl same ↦ OnSome-some {P = P} (just h) (rw same at found)
  | inr other ↦ find_by_id-All P key xs id hs (rw other at found)
]

guarded_routes : All (λ c. c.requires_control ≡ not (is_open c.route)) daemon_commands
unfolding daemon_commands
guarded_routes = ground arith

module _ (M : Machine) (H : Host M) (cfg : AnsConfig) (cmd : Bytes) where
  open M use {World}

  -- The state stays as it is, nothing is saved, and the EC is only read.
  abbrev pub Harmless : Service → World → Service × Answer × World → Type 0
  Harmless s w r = (r.0 ≡ s) × (r.1.saved ≡ false) × OnlyRead M w r.2

  usage-Harmless :
      (name : Bytes) (shown : Reply) (s : Service) (w : World)
      → Harmless s w (usage_or M H cmd name shown s w)
  usage-Harmless name shown s w =
      if_elim (Harmless s w) (not (command_is_exact cmd name)) (refl, refl, unread)
        (refl, refl, unread)

  status-Harmless :
      (is_status : Bool) (status change : Service × Answer × World) (s : Service) (w : World)
      → Harmless s w status
      → Harmless s w (status_or_control M H is_status false status change s w)
  unfolding status_or_control
  status-Harmless true status change s w h = h
  status-Harmless false status change s w h = (refl, refl, unread)

  open_route-Harmless :
      (r : Route) (s : Service) (w : World)
      → is_open r ≡ true
      → Harmless s w (run_route M H r cfg cmd false s w)
  unfolding run_route handle_coolboost_registry_command handle_fan_mode_registry_command
      handle_profile_registry_command handle_power_source_registry_command
      handle_gpu_temp_registry_command handle_keyboard_backlight_registry_command
  open_route-Harmless status_route s w h = usage-Harmless (codes "status") _ s w
  open_route-Harmless presets_route s w h = usage-Harmless (codes "presets") _ s w
  open_route-Harmless preset_show_route s w h = usage-Harmless (codes "preset-show") _ s w
  open_route-Harmless capabilities_route s w h = usage-Harmless (codes "capabilities") _ s w
  open_route-Harmless coolboost_route s w h = status-Harmless _ _ _ s w (refl, refl, unread)
  open_route-Harmless fan_mode_route s w h =
      status-Harmless _ _ _ s w (refl, refl, fan_mode_status_reads M cfg w)
  open_route-Harmless profile_route s w h =
      status-Harmless _ _ _ s w (refl, refl, profile_status_reads M cfg w)
  open_route-Harmless power_source_route s w h = status-Harmless _ _ _ s w (
    refl,
    refl,
    power_source_status_reads M cfg (read_power_source M H w) s.power_source_auto_apply w,
  )
  open_route-Harmless gpu_temp_route s w h = status-Harmless _ _ _ s w (
    refl,
    refl,
    gpu_temp_status_reads M cfg (H.sensor_read_group_power_control (codes "gpu") w) w,
  )
  open_route-Harmless keyboard_route s w h =
      status-Harmless _ _ _ s w (refl, refl, keyboard_status_reads M H.read_sysfs cfg s.timeout w)
  open_route-Harmless ec_route s w h = cc h
  open_route-Harmless fan_route s w h = cc h
  open_route-Harmless daemon_control_route s w h = cc h

  entry-Harmless :
      (entry : DaemonCommand) (s : Service) (w : World)
      → entry.requires_control ≡ not (is_open entry.route)
      → Harmless s w (run_entry M H entry cfg cmd false s w)
  unfolding run_entry
  entry-Harmless entry s w h = elim (Bool-cases (is_open entry.route)) [
    | inl opened ↦ rw (h, opened) (open_route-Harmless entry.route s w opened)
    | inr closed ↦ rw (h, closed) (refl, refl, unread)
  ]

  guarded :
      (name : Bytes) {entry : DaemonCommand}
      → find_daemon_command name ≡ some entry
      → entry.requires_control ≡ not (is_open entry.route)
  unfolding find_daemon_command
  guarded name found =
      find_by_id-All (λ c. c.requires_control ≡ not (is_open c.route)) (λ c. c.command_name)
        daemon_commands name guarded_routes found

  -- Without the control permission no command has an effect, whatever its text: the daemon's
  -- state stays as it is, nothing is saved, and the EC and the sensors are only read.
  pub uncontrolled-Harmless :
      (s : Service) (w : World) → Harmless s w (dispatch_daemon_command M H cfg cmd false s w)
  unfolding dispatch_daemon_command
  uncontrolled-Harmless s w = elim (Option-cases (command_first_token cmd 32)) [
    | inl bad ↦ rw (bad, dispatch_daemon_command) (refl, refl, unread)
    | inr (name, read) ↦
        rw (read, dispatch_daemon_command)
          (elim (Option-cases (find_daemon_command name)) [
            | inl bad ↦ rw bad (refl, refl, unread)
            | inr (entry, found) ↦ rw found (entry-Harmless entry s w (guarded name found))
          ])
  ]
