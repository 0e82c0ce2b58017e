-- ===== src/Daemon/Modes.antt =====
-- commands/daemon/fan_mode.c and coolboost.c.
use acer_nitro_sense_linux.Command.Parser.{parse_coolboost_command, parse_fan_mode_command}
use acer_nitro_sense_linux.Config.Types.{AnsConfig}
use acer_nitro_sense_linux.Daemon.Types.{
  Answer, DaemonState, accepted, bad_usage, changed_coolboost, changed_fan_mode,
  fan_command_set_control_mode, refused, unavailable, write_failed,
}
use acer_nitro_sense_linux.Fan.Requests.{apply_coolboost, apply_current_control_state}
use acer_nitro_sense_linux.Fan.State.{FanState}
use acer_nitro_sense_linux.Machine.{Machine}
use acer_nitro_sense_linux.Platform.FanMode.{
  FanMode, apply_fan_mode, apply_firmware_auto_fan_mode, auto, fan_mode_named, firmware_auto_mode,
  firmware_auto_preset, manual, turbo,
}
use acer_nitro_sense_linux.Prelude.{
  Bool, Bytes, List, codes, false, if◌then◌else◌, none, not, some, str_eq, true,
}

module _ (M : Machine) where
  open M use {World}

  -- `*coolboost_enabled`, and the control mode and preset that the actions `auto` and `manual`
  -- set; `manual` writes the control state again.
  unfoldable pub enter_fan_mode : AnsConfig → FanMode → DaemonState → World → DaemonState × World
  enter_fan_mode cfg auto d w = (
    record (fan_command_set_control_mode d false firmware_auto_preset) {
      coolboost_enabled = false;
    },
    w,
  )
  enter_fan_mode cfg manual d w =
      let d1 = fan_command_set_control_mode d false (codes "manual") in
      let (states, w1) = apply_current_control_state M cfg d.states w in
      (record d1 { coolboost_enabled = false; states = states }, w1)
  enter_fan_mode cfg turbo d w = (record d { coolboost_enabled = true }, w)

  unfoldable pub fan_mode_command :
      AnsConfig → Bytes → FanMode → DaemonState → World → DaemonState × Answer × World
  fan_mode_command cfg action mode d w =
      let (applied, w1) = apply_fan_mode M cfg (some mode) w in
      let (d1, w2) = enter_fan_mode cfg mode d w1 in
      if not cfg.fan_modes.available
      then (d, refused unavailable, w)
      else if not applied
      then (d, refused write_failed, w1)
      else (d1, accepted (changed_fan_mode action), w2)

  unfoldable pub handle_fan_mode_command :
      AnsConfig → Bytes → DaemonState → World → DaemonState × Answer × World
  handle_fan_mode_command cfg cmd d w = elim (parse_fan_mode_command cmd 16) [
    | none ↦ (d, refused bad_usage, w)
    | some action ↦ elim (fan_mode_named action) [
      | none ↦ (d, refused bad_usage, w)
      | some mode ↦ fan_mode_command cfg action mode d w
    ]
  ]

  -- `applied`, with the states that `apply_coolboost` leaves.
  unfoldable pub switch_coolboost :
      AnsConfig → Bool → DaemonState → World → Bool × List FanState × World
  switch_coolboost cfg enabled d w =
      let (firmware, w1) = apply_firmware_auto_fan_mode M cfg w in
      if enabled
      then apply_coolboost M cfg d.states true w
      else if firmware_auto_mode d.auto_mode d.preset
      then (firmware, d.states, w1)
      else apply_coolboost M cfg d.states false w

  unfoldable pub coolboost_command :
      AnsConfig → Bool → DaemonState → World → DaemonState × Answer × World
  coolboost_command cfg enabled d w =
      let (applied, states, w1) = switch_coolboost cfg enabled d w in
      let d1 = record d { states = states } in
      if not cfg.fan_modes.available
      then (d, refused unavailable, w)
      else if not applied
      then (d1, refused write_failed, w1)
      else (record d1 { coolboost_enabled = enabled }, accepted (changed_coolboost enabled), w1)

  unfoldable pub handle_coolboost_command :
      AnsConfig → Bytes → DaemonState → World → DaemonState × Answer × World
  handle_coolboost_command cfg cmd d w = elim (parse_coolboost_command cmd 16) [
    | none ↦ (d, refused bad_usage, w)
    | some action ↦
        if str_eq action (codes "on")
        then coolboost_command cfg true d w
        else if str_eq action (codes "off")
        then coolboost_command cfg false d w
        else (d, refused bad_usage, w)
  ]
