-- ===== src/Daemon/Control.antt =====
-- commands/daemon/control.c and ec.c: `resume`, `stop`, `ec-read` and `ec-dump`.
use acer_nitro_sense_linux.Command.Parser.{
  command_is_exact, parse_ec_dump_command, parse_ec_read_command,
}
use acer_nitro_sense_linux.Command.Tokens.{command_first_token}
use acer_nitro_sense_linux.Config.Types.{AnsConfig}
use acer_nitro_sense_linux.Daemon.Types.{
  Answer, DaemonState, Service, bad_usage, refused, reported, resumed, shows_ec_byte, shows_ec_rows,
  stopped, unknown_command,
}
use acer_nitro_sense_linux.Fan.Lifecycle.{apply_init_writes}
use acer_nitro_sense_linux.Fan.Requests.{apply_current_control_state}
use acer_nitro_sense_linux.Machine.{Machine}
use acer_nitro_sense_linux.Platform.FanMode.{
  apply_firmware_auto_fan_mode, control_mode, firmware_auto_mode,
}
use acer_nitro_sense_linux.Platform.Host.{Host}
use acer_nitro_sense_linux.Platform.SensorPower.{apply_sensor_power_control}
use acer_nitro_sense_linux.Prelude.{Bytes, codes, false, if◌then◌else◌, none, not, some, str_eq}
use acer_nitro_sense_linux.Status.Reply.{reply_ec_dump, reply_ec_read}

module _ (M : Machine) where
  open M use {World}

  unfoldable pub handle_ec_read_command : Bytes → World → Answer × World
  handle_ec_read_command cmd w = elim (parse_ec_read_command cmd) [
    | none ↦ (refused bad_usage, w)
    | some reg ↦ let (value, w1) = reply_ec_read M reg w in (reported (shows_ec_byte reg value), w1)
  ]

  unfoldable pub handle_ec_dump_command : Bytes → World → Answer × World
  handle_ec_dump_command cmd w = elim (parse_ec_dump_command cmd) [
    | none ↦ (refused bad_usage, w)
    | some (first, last) ↦
        let (rows, w1) = reply_ec_dump M first last w in (reported (shows_ec_rows rows), w1)
  ]

  unfoldable pub handle_ec_command : Bytes → World → Answer × World
  handle_ec_command cmd w = elim (command_first_token cmd 32) [
    | none ↦ (refused unknown_command, w)
    | some name ↦
        if str_eq name (codes "ec-read")
        then handle_ec_read_command cmd w
        else if str_eq name (codes "ec-dump")
        then handle_ec_dump_command cmd w
        else (refused unknown_command, w)
  ]

module _ (M : Machine) (H : Host M) where
  open M use {World}

  -- The EC after a resume: the init writes, the sensors, and the control mode.
  unfoldable pub reapply_after_resume : AnsConfig → DaemonState → World → DaemonState × World
  reapply_after_resume cfg d w =
      let w1 = apply_init_writes M cfg w in
      let w2 = apply_sensor_power_control M H cfg (codes "on") w1 in
      let (_, by_firmware) = apply_firmware_auto_fan_mode M cfg w2 in
      let (states, by_daemon) = apply_current_control_state M cfg d.states w2 in
      if firmware_auto_mode d.auto_mode d.preset
      then (d, by_firmware)
      else (record d { states = states }, by_daemon)

  unfoldable pub handle_resume_command :
      AnsConfig → Bytes → Service → World → Service × Answer × World
  handle_resume_command cfg cmd s w =
      let (d, w1) = reapply_after_resume cfg s.daemon w in
      let mode = control_mode s.daemon.auto_mode s.daemon.preset in
      if not (command_is_exact cmd (codes "resume"))
      then (s, refused bad_usage, w)
      else (record s { daemon = d }, reported (resumed mode s.daemon.preset), w1)

  unfoldable pub handle_stop_command : Bytes → Service → Service × Answer
  handle_stop_command cmd s =
      if not (command_is_exact cmd (codes "stop"))
      then (s, refused bad_usage)
      else (record s { running = false }, reported stopped)

  unfoldable pub handle_daemon_control_command :
      AnsConfig → Bytes → Service → World → Service × Answer × World
  handle_daemon_control_command cfg cmd s w =
      let (halted, answer) = handle_stop_command cmd s in
      elim (command_first_token cmd 32) [
        | none ↦ (s, refused unknown_command, w)
        | some name ↦
            if str_eq name (codes "resume")
            then handle_resume_command cfg cmd s w
            else if str_eq name (codes "stop")
            then (halted, answer, w)
            else (s, refused unknown_command, w)
      ]
