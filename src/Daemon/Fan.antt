-- ===== src/Daemon/Fan.antt =====
-- commands/daemon/fan.c and fan_context.c: `set`, `preset`, `auto` and `firmware-auto`.
use acer_nitro_sense_linux.Command.Parser.{
  command_is_exact, parse_preset_command, parse_set_command,
}
use acer_nitro_sense_linux.Command.Tokens.{command_first_token}
use acer_nitro_sense_linux.Config.Find.{config_find_preset}
use acer_nitro_sense_linux.Config.Types.{AnsConfig, FanConfig, PresetConfig}
use acer_nitro_sense_linux.Daemon.Types.{
  Answer, DaemonState, accepted, bad_usage, changed_auto, changed_firmware_auto, changed_manual,
  changed_preset, fan_command_set_control_mode, refused, unavailable, unknown_command,
  unknown_fan_reply, unknown_preset, write_failed,
}
use acer_nitro_sense_linux.Fan.Requests.{apply_coolboost, apply_preset, set_one}
use acer_nitro_sense_linux.Fan.Safety.{global_safety_reason, set_fan_percent}
use acer_nitro_sense_linux.Fan.State.{FanState}
use acer_nitro_sense_linux.Machine.{Machine}
use acer_nitro_sense_linux.Platform.FanMode.{
  apply_daemon_control_fan_mode, apply_firmware_auto_fan_mode, firmware_auto_preset,
}
use acer_nitro_sense_linux.Prelude.{
  Bool, Bytes, List, [], codes, false, if◌then◌else◌, none, not, some, str_eq, true, ℤ, ◌++◌, ◌==◌,
  ◌∷◌,
}

module _ (M : Machine) where
  open M use {World}

  unfoldable pub disable_coolboost_if_needed : AnsConfig → DaemonState → World → DaemonState × World
  disable_coolboost_if_needed cfg d w =
      let (_, states, w1) = apply_coolboost M cfg d.states false w in
      if d.coolboost_enabled
      then (record d { states = states; coolboost_enabled = false }, w1)
      else (d, w)

  unfoldable pub fan_command_prepare_daemon_control :
      AnsConfig → DaemonState → World → Bool × DaemonState × World
  fan_command_prepare_daemon_control cfg d w =
      let (d1, w1) = disable_coolboost_if_needed cfg d w in
      let (switched, w2) = apply_daemon_control_fan_mode M cfg w1 in (switched, d1, w2)

  unfoldable pub set_command :
      AnsConfig → Bytes → ℤ → DaemonState → World → DaemonState × Answer × World
  set_command cfg fan percent d w =
      let (switched, d1, w1) = fan_command_prepare_daemon_control cfg d w in
      let d2 = fan_command_set_control_mode d1 false (codes "manual") in
      let (states, changed, w2) = set_one M cfg d2.states fan percent w1 in
      let d3 = record d2 { states = states } in
      if not switched
      then (d1, refused write_failed, w1)
      else if changed == 0
      then (d3, refused unknown_fan_reply, w2)
      else (d3, accepted (changed_manual fan percent), w2)

  unfoldable pub handle_set_command :
      AnsConfig → Bytes → DaemonState → World → DaemonState × Answer × World
  handle_set_command cfg cmd d w = elim (parse_set_command cmd 32) [
    | none ↦ (d, refused bad_usage, w)
    | some (fan, percent) ↦ set_command cfg fan percent d w
  ]

  -- `apply_preset` finds the preset again, by its id.
  unfoldable pub preset_command :
      AnsConfig → PresetConfig → DaemonState → World → DaemonState × Answer × World
  preset_command cfg p d w =
      let (switched, d1, w1) = fan_command_prepare_daemon_control cfg d w in
      let d2 = fan_command_set_control_mode d1 false p.id in
      if not switched
      then (d1, refused write_failed, w1)
      else (elim (apply_preset M cfg d2.states p.id w1) [
        | none ↦ (d2, accepted (changed_preset p.id p.cpu p.gpu), w1)
        | some (states, w2) ↦
            (record d2 { states = states }, accepted (changed_preset p.id p.cpu p.gpu), w2)
      ])

  unfoldable pub handle_preset_command :
      AnsConfig → Bytes → DaemonState → World → DaemonState × Answer × World
  handle_preset_command cfg cmd d w = elim (parse_preset_command cmd 32) [
    | none ↦ (d, refused bad_usage, w)
    | some name ↦ elim (config_find_preset cfg name) [
      | none ↦ (d, refused unknown_preset, w)
      | some p ↦ preset_command cfg p d w
    ]
  ]

  -- The loop of `auto`: the reason is that of all fans, the ones before this one (`done`) with
  -- their new states.
  unfoldable pub reset_speeds :
      AnsConfig → List FanConfig → List FanState → List FanState → World → List FanState × World
  reset_speeds cfg [] done states w = (done ++ states, w)
  reset_speeds cfg (fan ∷ fans) done [] w = (done, w)
  reset_speeds cfg (fan ∷ fans) done (s ∷ states) w =
      let forced = global_safety_reason cfg (done ++ (s ∷ states)) in
      let (s', _, w1) = set_fan_percent M cfg fan s fan.reset_speed forced w in
      reset_speeds cfg fans (done ++ (s' ∷ [])) states w1

  unfoldable pub auto_command : AnsConfig → DaemonState → World → DaemonState × Answer × World
  auto_command cfg d w =
      let (switched, d1, w1) = fan_command_prepare_daemon_control cfg d w in
      let d2 = fan_command_set_control_mode d1 true (codes "auto") in
      let (states, w2) = reset_speeds cfg cfg.fans [] d2.states w1 in
      if not switched
      then (d1, refused write_failed, w1)
      else (record d2 { states = states }, accepted changed_auto, w2)

  unfoldable pub handle_auto_command :
      AnsConfig → Bytes → DaemonState → World → DaemonState × Answer × World
  handle_auto_command cfg cmd d w =
      if not (command_is_exact cmd (codes "auto"))
      then (d, refused bad_usage, w)
      else auto_command cfg d w

  unfoldable pub handle_firmware_auto_command :
      AnsConfig → Bytes → DaemonState → World → DaemonState × Answer × World
  handle_firmware_auto_command cfg cmd d w =
      let (set_by_firmware, w1) = apply_firmware_auto_fan_mode M cfg w in
      let d1 = fan_command_set_control_mode d false firmware_auto_preset in
      if not (command_is_exact cmd (codes "firmware-auto"))
      then (d, refused bad_usage, w)
      else if not cfg.fan_modes.available
      then (d, refused unavailable, w)
      else if not set_by_firmware
      then (d, refused write_failed, w1)
      else (record d1 { coolboost_enabled = false }, accepted changed_firmware_auto, w1)

  unfoldable pub handle_named_command :
      AnsConfig → Bytes → Bytes → DaemonState → World → DaemonState × Answer × World
  handle_named_command cfg name cmd d w =
      if str_eq name (codes "set")
      then handle_set_command cfg cmd d w
      else if str_eq name (codes "preset")
      then handle_preset_command cfg cmd d w
      else if str_eq name (codes "auto")
      then handle_auto_command cfg cmd d w
      else if str_eq name (codes "firmware-auto")
      then handle_firmware_auto_command cfg cmd d w
      else (d, refused unknown_command, w)

  unfoldable pub handle_fan_control_command :
      AnsConfig → Bytes → DaemonState → World → DaemonState × Answer × World
  handle_fan_control_command cfg cmd d w = elim (command_first_token cmd 32) [
    | none ↦ (d, refused unknown_command, w)
    | some name ↦ handle_named_command cfg name cmd d w
  ]
