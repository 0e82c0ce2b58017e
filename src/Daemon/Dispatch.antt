-- ===== src/Daemon/Dispatch.antt =====
-- Every command keeps the daemon's state consistent.
use acer_nitro_sense_linux.Client.Types.{entry}
use acer_nitro_sense_linux.Command.Parser.{
  parse_keyboard_backlight_set_command, parse_keyboard_backlight_timeout_command,
  parse_power_source_auto_command,
}
use acer_nitro_sense_linux.Command.Tokens.{
  command_first_token, command_int_in, command_second_token,
}
use acer_nitro_sense_linux.Config.Types.{AnsConfig}
use acer_nitro_sense_linux.Config.Valid.{IsValidProfile}
use acer_nitro_sense_linux.Daemon.Backlight.{
  backlight_command, brightness_steps, find_keyboard_backlight_timeout_value,
  handle_keyboard_backlight_command, handle_keyboard_backlight_set_command,
  handle_keyboard_backlight_timeout_command,
}
use acer_nitro_sense_linux.Daemon.Control.{
  handle_daemon_control_command, handle_resume_command, handle_stop_command, reapply_after_resume,
}
use acer_nitro_sense_linux.Daemon.Invariant.{IsConsistent, handle_fan_control_command-IsConsistent}
use acer_nitro_sense_linux.Daemon.Invariant.Modes.{mode_commands-IsConsistent}
use acer_nitro_sense_linux.Daemon.Power.{
  find_power_source_auto_value, handle_power_source_auto_command, handle_power_source_command,
  power_source_auto,
}
use acer_nitro_sense_linux.Daemon.Registry.{
  Route, capabilities_route, coolboost_route, daemon_control_route, dispatch_daemon_command,
  ec_route, fan_mode_route, fan_route, find_daemon_command, gpu_temp_route,
  handle_coolboost_registry_command, handle_fan_mode_registry_command,
  handle_gpu_temp_registry_command, handle_keyboard_backlight_registry_command,
  handle_power_source_registry_command, handle_profile_registry_command, keyboard_route,
  power_source_route, preset_show_route, presets_route, profile_route, run_entry, run_route,
  status_or_control, status_route,
}
use acer_nitro_sense_linux.Daemon.Sound.{current-IsSound}
use acer_nitro_sense_linux.Daemon.Types.{Answer, DaemonState, Service}
use acer_nitro_sense_linux.Keyboard.Backlight.{keyboard_backlight_set_percent}
use acer_nitro_sense_linux.Machine.{Machine}
use acer_nitro_sense_linux.Platform.FanMode.{firmware_auto_mode}
use acer_nitro_sense_linux.Platform.Host.{Host}
use acer_nitro_sense_linux.Platform.PowerSource.{
  PowerSource, power_source_profile_policy_available, read_power_source,
}
use acer_nitro_sense_linux.Prelude.{
  Bool, Bytes, Option-cases, codes, if_elim, inl, inr, not, str_eq, ℤ,
}

module _ (M : Machine) (H : Host M) (cfg : AnsConfig) (v : IsValidProfile cfg) where
  open M use {World}

  -- A consistent state of the fan commands, in the state of the whole daemon.
  abbrev pub ServiceConsistent : Service × Answer × World → Type 0
  ServiceConsistent r = IsConsistent cfg r.0.daemon

  -- The same, where the command does not reach the EC.
  abbrev Pair : Service × Answer → Type 0
  Pair r = IsConsistent cfg r.0.daemon

  reapply-IsConsistent :
      (d : DaemonState) (w : World)
      → IsConsistent cfg d
      → IsConsistent cfg (reapply_after_resume M H cfg d w).0
  unfolding reapply_after_resume
  reapply-IsConsistent d w h =
      let Q : DaemonState × World → Type 0 = λ r. IsConsistent cfg r.0 in
      if_elim Q (firmware_auto_mode d.auto_mode d.preset) h (record {
        fans_sound = current-IsSound M cfg v d.states _ h.fans_sound;
        coolboost_available = h.coolboost_available;
        preset_fits = h.preset_fits;
      })

  control-IsConsistent :
      (cmd : Bytes) (s : Service) (w : World)
      → IsConsistent cfg s.daemon
      → ServiceConsistent (handle_daemon_control_command M H cfg cmd s w)
  unfolding handle_daemon_control_command handle_resume_command handle_stop_command
  control-IsConsistent cmd s w h = elim (Option-cases (command_first_token cmd 32)) [
    | inl bad ↦ rw (bad, handle_daemon_control_command) h
    | inr (name, read) ↦
        rw (read, handle_daemon_control_command)
          (if_elim ServiceConsistent (str_eq name (codes "resume"))
            (if_elim ServiceConsistent _ h (reapply-IsConsistent s.daemon w h))
            (if_elim ServiceConsistent (str_eq name (codes "stop")) (if_elim Pair _ h h) h))
  ]

  auto_apply-IsConsistent :
      (source : PowerSource) (enabled : Bool) (s : Service) (w : World)
      → IsConsistent cfg s.daemon
      → ServiceConsistent (power_source_auto M cfg source enabled s w)
  unfolding power_source_auto
  auto_apply-IsConsistent source enabled s w h =
      if_elim ServiceConsistent _ (if_elim ServiceConsistent _ h h) h

  auto_command-IsConsistent :
      (source : PowerSource) (cmd : Bytes) (s : Service) (w : World)
      → IsConsistent cfg s.daemon
      → ServiceConsistent (handle_power_source_auto_command M cfg source cmd s w)
  unfolding handle_power_source_auto_command
  auto_command-IsConsistent source cmd s w h =
      elim (Option-cases (parse_power_source_auto_command cmd 16)) [
        | inl bad ↦ rw (bad, handle_power_source_auto_command) h
        | inr (value, read) ↦ elim (Option-cases (find_power_source_auto_value value)) [
          | inl bad ↦
              rw (read, handle_power_source_auto_command, bad)
                (if_elim ServiceConsistent (not (power_source_profile_policy_available cfg)) h h)
          | inr (enabled, known) ↦
              rw (read, handle_power_source_auto_command, known)
                (if_elim ServiceConsistent (not (power_source_profile_policy_available cfg)) h
                  (auto_apply-IsConsistent source enabled s w h))
        ]
      ]

  power_source-IsConsistent :
      (source : PowerSource) (cmd : Bytes) (s : Service) (w : World)
      → IsConsistent cfg s.daemon
      → ServiceConsistent (handle_power_source_command M cfg source cmd s w)
  unfolding handle_power_source_command
  power_source-IsConsistent source cmd s w h = elim (Option-cases (command_second_token cmd 16)) [
    | inl bad ↦ rw (bad, handle_power_source_command) h
    | inr (action, read) ↦
        rw (read, handle_power_source_command)
          (if_elim ServiceConsistent (str_eq action (codes "apply")) h (
            if_elim ServiceConsistent (str_eq action (codes "auto"))
              (auto_command-IsConsistent source cmd s w h) h))
  ]

  timeout-IsConsistent :
      (cmd : Bytes) (s : Service)
      → IsConsistent cfg s.daemon
      → Pair (handle_keyboard_backlight_timeout_command cfg cmd s)
  unfolding handle_keyboard_backlight_timeout_command
  timeout-IsConsistent cmd s h =
      elim (Option-cases (parse_keyboard_backlight_timeout_command cmd 16)) [
        | inl bad ↦ rw (bad, handle_keyboard_backlight_timeout_command) h
        | inr (action, read) ↦ elim (Option-cases (find_keyboard_backlight_timeout_value action)) [
          | inl bad ↦
              rw (read, handle_keyboard_backlight_timeout_command, bad)
                (if_elim Pair (not cfg.keyboard_backlight.timeout_supported) h h)
          | inr (on, known) ↦
              rw (read, handle_keyboard_backlight_timeout_command, known)
                (if_elim Pair (not cfg.keyboard_backlight.timeout_supported) h h)
        ]
      ]

  brightness-IsConsistent :
      (percent : ℤ) (s : Service) (w : World)
      → IsConsistent cfg s.daemon
      → ServiceConsistent (backlight_command M cfg percent s w)
  unfolding backlight_command
  brightness-IsConsistent percent s w h =
      let (done, result, w1) = keyboard_backlight_set_percent M cfg percent w in
      elim (Option-cases result) [
        | inl bad ↦ rw bad (if_elim ServiceConsistent (not done) h h)
        | inr (status, read) ↦ rw read (if_elim ServiceConsistent (not done) h h)
      ]

  set-IsConsistent :
      (cmd : Bytes) (s : Service) (w : World)
      → IsConsistent cfg s.daemon
      → ServiceConsistent (handle_keyboard_backlight_set_command M cfg cmd s w)
  unfolding handle_keyboard_backlight_set_command
  set-IsConsistent cmd s w h = elim (Option-cases (parse_keyboard_backlight_set_command cmd)) [
    | inl bad ↦ rw (bad, handle_keyboard_backlight_set_command) h
    | inr (percent, read) ↦
        rw (read, handle_keyboard_backlight_set_command)
          (if_elim ServiceConsistent (not (command_int_in percent brightness_steps)) h (
            if_elim ServiceConsistent (not cfg.keyboard_backlight.available) h
              (brightness-IsConsistent percent s w h)))
  ]

  keyboard-IsConsistent :
      (cmd : Bytes) (s : Service) (w : World)
      → IsConsistent cfg s.daemon
      → ServiceConsistent (handle_keyboard_backlight_command M cfg cmd s w)
  unfolding handle_keyboard_backlight_command
  keyboard-IsConsistent cmd s w h = elim (Option-cases (command_second_token cmd 16)) [
    | inl bad ↦ rw (bad, handle_keyboard_backlight_command) h
    | inr (action, read) ↦
        rw (read, handle_keyboard_backlight_command)
          (if_elim ServiceConsistent (str_eq action (codes "set")) (set-IsConsistent cmd s w h) (
            if_elim ServiceConsistent (str_eq action (codes "timeout"))
              (timeout-IsConsistent cmd s h) h))
  ]

  guarded-IsConsistent :
      (is_status can_control : Bool) (status change : Service × Answer × World) (s : Service)
      (w : World)
      → IsConsistent cfg s.daemon
      → ServiceConsistent status
      → ServiceConsistent change
      → ServiceConsistent (status_or_control M H is_status can_control status change s w)
  unfolding status_or_control
  guarded-IsConsistent is_status can_control status change s w h k l =
      if_elim ServiceConsistent is_status k (if_elim ServiceConsistent (not can_control) h l)

  route-IsConsistent :
      (r : Route) (cmd : Bytes) (can_control : Bool) (s : Service) (w : World)
      → IsConsistent cfg s.daemon
      → ServiceConsistent (run_route M H r cfg cmd can_control s w)
  unfolding run_route handle_coolboost_registry_command handle_fan_mode_registry_command
      handle_profile_registry_command handle_power_source_registry_command
      handle_gpu_temp_registry_command handle_keyboard_backlight_registry_command
  route-IsConsistent status_route cmd can_control s w h = if_elim ServiceConsistent _ h h
  route-IsConsistent presets_route cmd can_control s w h = if_elim ServiceConsistent _ h h
  route-IsConsistent preset_show_route cmd can_control s w h = if_elim ServiceConsistent _ h h
  route-IsConsistent capabilities_route cmd can_control s w h = if_elim ServiceConsistent _ h h
  route-IsConsistent coolboost_route cmd can_control s w h =
      guarded-IsConsistent _ can_control _ _ s w h h
        (mode_commands-IsConsistent M cfg v cmd s.daemon w h).1
  route-IsConsistent fan_mode_route cmd can_control s w h =
      guarded-IsConsistent _ can_control _ _ s w h h
        (mode_commands-IsConsistent M cfg v cmd s.daemon w h).0
  route-IsConsistent profile_route cmd can_control s w h =
      guarded-IsConsistent _ can_control _ _ s w h h h
  route-IsConsistent power_source_route cmd can_control s w h =
      guarded-IsConsistent _ can_control _ _ s w h h
        (power_source-IsConsistent (read_power_source M H w) cmd s w h)
  route-IsConsistent gpu_temp_route cmd can_control s w h =
      guarded-IsConsistent _ can_control _ _ s w h h h
  route-IsConsistent keyboard_route cmd can_control s w h =
      guarded-IsConsistent _ can_control _ _ s w h h (keyboard-IsConsistent cmd s w h)
  route-IsConsistent ec_route cmd can_control s w h = h
  route-IsConsistent fan_route cmd can_control s w h =
      handle_fan_control_command-IsConsistent M cfg v cmd s.daemon w h
  route-IsConsistent daemon_control_route cmd can_control s w h = control-IsConsistent cmd s w h

  pub dispatch_daemon_command-IsConsistent :
      (cmd : Bytes) (can_control : Bool) (s : Service) (w : World)
      → IsConsistent cfg s.daemon
      → ServiceConsistent (dispatch_daemon_command M H cfg cmd can_control s w)
  unfolding dispatch_daemon_command run_entry
  dispatch_daemon_command-IsConsistent cmd can_control s w h =
      elim (Option-cases (command_first_token cmd 32)) [
        | inl bad ↦ rw (bad, dispatch_daemon_command) h
        | inr (name, read) ↦
            rw (read, dispatch_daemon_command)
              (elim (Option-cases (find_daemon_command name)) [
                | inl bad ↦ rw bad h
                | inr (entry, found) ↦ rw found (
                    if_elim ServiceConsistent _ h
                      (route-IsConsistent entry.route cmd can_control s w h))
              ])
      ]
