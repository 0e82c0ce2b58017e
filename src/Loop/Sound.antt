-- ===== src/Loop/Sound.antt =====
-- The invariant of the whole run of the daemon.
use acer_nitro_sense_linux.Config.Types.{AnsConfig}
use acer_nitro_sense_linux.Config.Valid.{IsValidProfile}
use acer_nitro_sense_linux.Daemon.Dispatch.{dispatch_daemon_command-IsConsistent}
use acer_nitro_sense_linux.Daemon.Invariant.{IsConsistent}
use acer_nitro_sense_linux.Daemon.Protocol.{control_read_command}
use acer_nitro_sense_linux.Daemon.Registry.{execute_read, handle_client}
use acer_nitro_sense_linux.Daemon.Types.{DaemonState, Service}
use acer_nitro_sense_linux.Fan.Invariant.{update_fan_states-IsSound}
use acer_nitro_sense_linux.Fan.Invariant.Requests.{apply_preset-IsSound}
use acer_nitro_sense_linux.Fan.Requests.{apply_preset}
use acer_nitro_sense_linux.Loop.Seeded.{initial-IsSound, seed_file-IsSound}
use acer_nitro_sense_linux.Loop.Startup.{
  SavedFiles, apply_default_preset, controlled_by, default_named_preset, initial_service, serve,
  start_control, start_service,
}
use acer_nitro_sense_linux.Loop.Step.{
  Client, Event, LoopState, Ready, handle_ready, loop_round, nothing_ready, run_rounds,
  scheduled_update, select_failed, serve_client, something_ready, tick_backlight, update_fans,
}
use acer_nitro_sense_linux.Machine.{Machine}
use acer_nitro_sense_linux.Platform.FanMode.{apply_firmware_auto_fan_mode, firmware_auto_preset}
use acer_nitro_sense_linux.Platform.Host.{Host}
use acer_nitro_sense_linux.Prelude.{
  Bool, Bytes, List, Option, Option-cases, [], arith, codes, false, if_elim, inl, inr, leb_ℤ, none,
  not, some, str_eq, text_has_value, true, ℤ, ◌∷◌, ◌≡◌,
}
use acer_nitro_sense_linux.State.Cache.{seed_last_temperatures}
use acer_nitro_sense_linux.State.Restore.{restore_control_state}
use acer_nitro_sense_linux.State.Sound.{
  restore-IsConsistent, with_preset-IsConsistent, with_states-IsConsistent,
}

module _ (M : Machine) (H : Host M) (cfg : AnsConfig) (v : IsValidProfile cfg) where
  open M use {World}

  -- A consistent service, with the world that it comes with.
  abbrev Kept : Service × World → Type 0
  Kept r = IsConsistent cfg r.0.daemon

  tick_keeps :
      (has_inputs : Bool) (now_ms activity_ms : ℤ) (s : Service) (w : World)
      → IsConsistent cfg s.daemon
      → Kept (tick_backlight M H cfg has_inputs now_ms activity_ms s w)
  unfolding tick_backlight
  tick_keeps has_inputs now_ms activity_ms s w h = if_elim Kept has_inputs h h

  update_keeps_consistent :
      (s : Service) (w : World) → IsConsistent cfg s.daemon → Kept (update_fans M H cfg s w)
  unfolding update_fans
  update_keeps_consistent s w h =
      let d = s.daemon in
      with_states-IsConsistent cfg d _ h
        (update_fan_states-IsSound M cfg d.states d.auto_mode d.preset w v h.fans_sound)

  scheduled_keeps :
      (e : Event) (l : LoopState) (w : World)
      → IsConsistent cfg l.service.daemon
      → IsConsistent cfg (scheduled_update M H cfg e l w).0.service.daemon
  unfolding scheduled_update
  scheduled_keeps e l w h =
      let Q : LoopState × World → Type 0 = λ r. IsConsistent cfg r.0.service.daemon in
      if_elim Q (leb_ℤ l.next_update_ms e.now_ms)
        (update_keeps_consistent _ _
          (tick_keeps e.has_inputs e.now_ms e.last_activity_ms l.service _ h))
        h

  read_keeps :
      (read : Option Bytes) (can_control : Bool) (s : Service) (w : World)
      → IsConsistent cfg s.daemon
      → IsConsistent cfg (execute_read M H cfg read can_control s w).0.daemon
  unfolding execute_read
  read_keeps none can_control s w h = h
  read_keeps (some cmd) can_control s w h =
      dispatch_daemon_command-IsConsistent M H cfg v cmd can_control s w h

  client_keeps :
      (client : Option Client) (s : Service) (w : World)
      → IsConsistent cfg s.daemon
      → Kept (serve_client M H cfg client s w)
  unfolding serve_client handle_client
  client_keeps none s w h = h
  client_keeps (some c) s w h = read_keeps (control_read_command c.incoming 256) c.can_control s w h

  ready_keeps :
      (e : Event) (r : Ready) (s : Service) (w : World)
      → IsConsistent cfg s.daemon
      → IsConsistent cfg (handle_ready M H cfg e r s w).1.daemon
  unfolding handle_ready
  ready_keeps e nothing_ready s w h = h
  ready_keeps e select_failed s w h = h
  ready_keeps e something_ready s w h =
      client_keeps e.client _ _ (tick_keeps e.has_inputs e.handled_ms e.new_activity_ms s w h)

  rounds_keep :
      (events : List Event) (l : LoopState) (w : World)
      → IsConsistent cfg l.service.daemon
      → IsConsistent cfg (run_rounds M H cfg events l w).0.service.daemon
  unfolding run_rounds loop_round
  rounds_keep [] l w h = h
  rounds_keep (e ∷ events) l w h =
      let Q : LoopState × World → Type 0 = λ r. IsConsistent cfg r.0.service.daemon in
      let k = ready_keeps e e.ready _ _ (scheduled_keeps e l w h) in
      if_elim Q (not l.service.running) h (if_elim Q _ k (rounds_keep events _ _ k))

  -- Another control mode under its name.
  moved_keeps :
      (d : DaemonState) (mode : Bool) (name : Bytes)
      → IsConsistent cfg d
      → IsConsistent cfg (controlled_by d mode name)
  moved_keeps d mode name h =
      let k = with_preset-IsConsistent cfg d name h in
      record {
        fans_sound = k.fans_sound;
        coolboost_available = k.coolboost_available;
        preset_fits = k.preset_fits;
      }

  named_keeps :
      (d : DaemonState) (w : World)
      → IsConsistent cfg d
      → IsConsistent cfg (default_named_preset M H cfg d w).0
  unfolding default_named_preset
  named_keeps d w h =
      let Q : DaemonState × World → Type 0 = λ r. IsConsistent cfg r.0 in
      let b = not (text_has_value cfg.default_preset) in
      elim (Option-cases (apply_preset M cfg d.states cfg.default_preset w)) [
        | inl bad ↦ rw bad (if_elim Q b h h)
        | inr (r, done) ↦ rw done (
            if_elim Q b h (
              with_states-IsConsistent cfg _ r.0 (moved_keeps d false cfg.default_preset h)
                (apply_preset-IsSound M cfg d.states cfg.default_preset w v h.fans_sound done)))
      ]

  default_keeps :
      (d : DaemonState) (w : World)
      → IsConsistent cfg d
      → IsConsistent cfg (apply_default_preset M H cfg d w).0
  unfolding apply_default_preset
  default_keeps d w h =
      let Q : DaemonState × World → Type 0 = λ r. IsConsistent cfg r.0 in
      if_elim Q (str_eq cfg.default_preset (codes "auto")) (moved_keeps d true (codes "auto") h) (
        if_elim Q (not (str_eq cfg.default_preset firmware_auto_preset)) (named_keeps d w h) (
          if_elim Q (apply_firmware_auto_fan_mode M cfg w).0
            (moved_keeps d false firmware_auto_preset h) (named_keeps d _ h)))

  control_keeps :
      (files : SavedFiles) (s : Service) (w : World)
      → IsConsistent cfg s.daemon
      → Kept (start_control M H cfg files s w)
  unfolding start_control restore_control_state
  control_keeps files s w h =
      let k = default_keeps s.daemon w h in
      elim (Option-cases files.state_file) [
        | inl bad ↦ rw bad k
        | inr (json, read) ↦ rw read (restore-IsConsistent M cfg v json s w h)
      ]

  initial-IsConsistent :
      (files : SavedFiles)
      → (cfg.coolboost_default_enabled ≡ true → cfg.fan_modes.available ≡ true)
      → IsConsistent cfg (initial_service cfg files).daemon
  unfolding initial_service seed_last_temperatures
  initial-IsConsistent files coolboost = record {
    fans_sound =
        seed_file-IsSound files.cache_file cfg _
          (seed_file-IsSound files.status_file cfg _ (initial-IsSound cfg cfg.fans v.0 v.1));
    coolboost_available = coolboost;
    preset_fits = omega arith;
  }

  -- For a valid profile whose coolboost default is on only if it has fan modes: from its start
  -- until it ends, whatever the saved files hold, whatever events come in (the clock, the input
  -- devices, any client with any command and any permission) and whatever the EC answers, the
  -- daemon's state is consistent when its rounds are over: the invariant of every fan, coolboost
  -- on only where the model has fan modes, and a preset that fits its buffer.
  pub serve-IsConsistent :
      (files : SavedFiles) (events : List Event) (w : World)
      → (cfg.coolboost_default_enabled ≡ true → cfg.fan_modes.available ≡ true)
      → IsConsistent cfg (serve M H cfg files events w).0.daemon
  unfolding serve start_service
  serve-IsConsistent files events w coolboost =
      rounds_keep events _ _
        (control_keeps files (initial_service cfg files) _ (initial-IsConsistent files coolboost))
