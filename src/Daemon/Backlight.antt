-- ===== src/Daemon/Backlight.antt =====
-- commands/daemon/keyboard_backlight.c.
use acer_nitro_sense_linux.Command.Parser.{
  parse_keyboard_backlight_set_command, parse_keyboard_backlight_timeout_command,
}
use acer_nitro_sense_linux.Command.Tokens.{command_int_in, command_second_token}
use acer_nitro_sense_linux.Config.Types.{AnsConfig}
use acer_nitro_sense_linux.Daemon.Types.{
  Answer, Service, accepted, bad_usage, changed_backlight, changed_timeout, refused, reported,
  unavailable, write_failed,
}
use acer_nitro_sense_linux.Keyboard.Backlight.{BacklightStatus, keyboard_backlight_set_percent}
use acer_nitro_sense_linux.Keyboard.Timeout.{
  TimeoutState, keyboard_backlight_timeout_note_manual_set,
}
use acer_nitro_sense_linux.Machine.{Machine}
use acer_nitro_sense_linux.Prelude.{
  Bool, Bytes, List, Option, [], codes, false, if◌then◌else◌, none, not, pos, some, str_eq, true, ℤ,
  ◌∷◌,
}

unfoldable pub find_keyboard_backlight_timeout_value : Bytes → Option Bool
find_keyboard_backlight_timeout_value name =
    if str_eq name (codes "on")
    then some true
    else if str_eq name (codes "off")
    then some false
    else none

unfoldable pub set_timeout_enabled : TimeoutState → Bool → TimeoutState
set_timeout_enabled runtime on = record runtime {
  enabled = on;
  timed_off = if not on then false else runtime.timed_off;
}

unfoldable pub brightness_steps : List ℤ
brightness_steps = pos 0 ∷ pos 25 ∷ pos 50 ∷ pos 75 ∷ pos 100 ∷ []

unfoldable pub handle_keyboard_backlight_timeout_command :
    AnsConfig → Bytes → Service → Service × Answer
handle_keyboard_backlight_timeout_command cfg cmd s =
    elim (parse_keyboard_backlight_timeout_command cmd 16) [
      | none ↦ (s, refused bad_usage)
      | some action ↦
          if not cfg.keyboard_backlight.timeout_supported
          then (s, refused unavailable)
          else (elim (find_keyboard_backlight_timeout_value action) [
            | none ↦ (s, refused bad_usage)
            | some on ↦ (
              record s { timeout = set_timeout_enabled s.timeout on },
              accepted (changed_timeout on cfg.keyboard_backlight.timeout_seconds),
            )
          ])
    ]

module _ (M : Machine) where
  open M use {World}

  -- The step after the percentage is accepted. Where the write succeeds there is a status.
  unfoldable pub backlight_command : AnsConfig → ℤ → Service → World → Service × Answer × World
  backlight_command cfg percent s w =
      let (done, result, w1) = keyboard_backlight_set_percent M cfg percent w in
      let noted = λ (status : BacklightStatus). record s {
        timeout = keyboard_backlight_timeout_note_manual_set s.timeout status.percent;
      } in
      if not done then (s, refused write_failed, w1) else (elim result [
        | none ↦ (s, refused write_failed, w1)
        | some status ↦ (noted status, reported (changed_backlight status), w1)
      ])

  unfoldable pub handle_keyboard_backlight_set_command :
      AnsConfig → Bytes → Service → World → Service × Answer × World
  handle_keyboard_backlight_set_command cfg cmd s w =
      elim (parse_keyboard_backlight_set_command cmd) [
        | none ↦ (s, refused bad_usage, w)
        | some percent ↦
            if not (command_int_in percent brightness_steps)
            then (s, refused bad_usage, w)
            else if not cfg.keyboard_backlight.available
            then (s, refused unavailable, w)
            else backlight_command cfg percent s w
      ]

  unfoldable pub handle_keyboard_backlight_command :
      AnsConfig → Bytes → Service → World → Service × Answer × World
  handle_keyboard_backlight_command cfg cmd s w =
      let (toggled, answer) = handle_keyboard_backlight_timeout_command cfg cmd s in
      elim (command_second_token cmd 16) [
        | none ↦ (s, refused bad_usage, w)
        | some action ↦
            if str_eq action (codes "set")
            then handle_keyboard_backlight_set_command cfg cmd s w
            else if str_eq action (codes "timeout")
            then (toggled, answer, w)
            else (s, refused bad_usage, w)
      ]
