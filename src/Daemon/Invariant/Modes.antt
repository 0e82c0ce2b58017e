-- ===== src/Daemon/Invariant/Modes.antt =====
-- Consistent states of the daemon, and the handlers of fan_mode.c and coolboost.c.
use acer_nitro_sense_linux.Command.Parser.{parse_coolboost_command, parse_fan_mode_command}
use acer_nitro_sense_linux.Config.Types.{AnsConfig}
use acer_nitro_sense_linux.Config.Valid.{IsValidProfile}
use acer_nitro_sense_linux.Daemon.Invariant.{IsConsistent, mode_fits}
use acer_nitro_sense_linux.Daemon.Modes.{
  coolboost_command, enter_fan_mode, fan_mode_command, handle_coolboost_command,
  handle_fan_mode_command, switch_coolboost,
}
use acer_nitro_sense_linux.Daemon.Sound.{coolboost-IsSound, current-IsSound}
use acer_nitro_sense_linux.Daemon.Types.{Answer, DaemonState, fan_command_set_control_mode}
use acer_nitro_sense_linux.Fan.Invariant.{IsSound}
use acer_nitro_sense_linux.Fan.State.{FanState}
use acer_nitro_sense_linux.Machine.{Machine}
use acer_nitro_sense_linux.Platform.FanMode.{
  FanMode, auto, fan_mode_named, firmware_auto_mode, firmware_auto_preset, manual, turbo,
}
use acer_nitro_sense_linux.Prelude.{
  All, Bool, Bytes, List, Option-cases, arith, codes, false, if_cases, if_elim, inl, inr, not,
  str_eq, true, ◌≡◌,
}

module _ (M : Machine) (cfg : AnsConfig) (v : IsValidProfile cfg) where
  open M use {World}

  abbrev ModeOutcome : DaemonState × Answer × World → Type 0
  ModeOutcome r = IsConsistent cfg r.0

  entered :
      (mode : FanMode) (d : DaemonState) (w : World)
      → IsConsistent cfg d
      → cfg.fan_modes.available ≡ true
      → IsConsistent cfg (enter_fan_mode M cfg mode d w).0
  unfolding enter_fan_mode fan_command_set_control_mode
  entered auto d w h a = record {
    fans_sound = h.fans_sound;
    coolboost_available = λ e. cc e;
    preset_fits = mode_fits d false firmware_auto_preset;
  }
  entered manual d w h a = record {
    fans_sound = current-IsSound M cfg v d.states w h.fans_sound;
    coolboost_available = λ e. cc e;
    preset_fits = mode_fits d false (codes "manual");
  }
  entered turbo d w h a = record {
    fans_sound = h.fans_sound;
    coolboost_available = λ _. a;
    preset_fits = h.preset_fits;
  }

  fan_mode-IsConsistent :
      (action : Bytes) (mode : FanMode) (d : DaemonState) (w : World)
      → IsConsistent cfg d
      → ModeOutcome (fan_mode_command M cfg action mode d w)
  unfolding fan_mode_command
  fan_mode-IsConsistent action mode d w h =
      if_cases ModeOutcome (not cfg.fan_modes.available) (λ _. h)
        (λ e. if_elim ModeOutcome _ h (entered mode d _ h (ground arith)))

  coolboost-IsConsistent :
      (enabled : Bool) (d : DaemonState) (w : World)
      → IsConsistent cfg d
      → ModeOutcome (coolboost_command M cfg enabled d w)
  unfolding coolboost_command switch_coolboost
  coolboost-IsConsistent enabled d w h =
      let Q : Bool × List FanState × World → Type 0 = λ r. All (IsSound cfg.safety) r.1 in
      let k = if_elim Q enabled (coolboost-IsSound M cfg v d.states true w h.fans_sound) (
        if_elim Q (firmware_auto_mode d.auto_mode d.preset) h.fans_sound
          (coolboost-IsSound M cfg v d.states false w h.fans_sound)) in
      if_cases ModeOutcome (not cfg.fan_modes.available) (λ _. h)
        (λ e.
          if_elim ModeOutcome _
            (record {
              fans_sound = k;
              coolboost_available = h.coolboost_available;
              preset_fits = h.preset_fits;
            })
            (record {
              fans_sound = k;
              coolboost_available = λ _. ground arith;
              preset_fits = h.preset_fits;
            }))

  -- For a valid profile, the fan-mode and coolboost commands keep the daemon's state consistent,
  -- whatever their text and whatever the EC answers.
  pub mode_commands-IsConsistent :
      (cmd : Bytes) (d : DaemonState) (w : World)
      → IsConsistent cfg d
      → IsConsistent cfg (handle_fan_mode_command M cfg cmd d w).0
        × IsConsistent cfg (handle_coolboost_command M cfg cmd d w).0
  unfolding handle_fan_mode_command handle_coolboost_command
  mode_commands-IsConsistent cmd d w h = (
    elim (Option-cases (parse_fan_mode_command cmd 16)) [
      | inl bad ↦ rw (bad, handle_fan_mode_command) h
      | inr (action, read) ↦
          rw (read, handle_fan_mode_command)
            (elim (Option-cases (fan_mode_named action)) [
              | inl bad ↦ rw bad h
              | inr (mode, named) ↦ rw named (fan_mode-IsConsistent action mode d w h)
            ])
    ],
    elim (Option-cases (parse_coolboost_command cmd 16)) [
      | inl bad ↦ rw (bad, handle_coolboost_command) h
      | inr (action, read) ↦
          rw (read, handle_coolboost_command)
            (if_elim ModeOutcome (str_eq action (codes "on")) (coolboost-IsConsistent true d w h) (
              if_elim ModeOutcome (str_eq action (codes "off")) (coolboost-IsConsistent false d w h)
                h))
    ],
  )
