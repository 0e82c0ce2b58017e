-- ===== src/Keyboard/Timeout.antt =====
-- keyboard/backlight_timeout.c: the idle timeout as a state machine. `read_sysfs` is what reading
-- the LED under sysfs answers.
pub mod Laws
use acer_nitro_sense_linux.Config.Types.{AnsConfig}
use acer_nitro_sense_linux.Keyboard.Backlight.{
  BacklightStatus, keyboard_backlight_read_any, keyboard_backlight_set_percent,
}
use acer_nitro_sense_linux.Machine.{Machine}
use acer_nitro_sense_linux.Prelude.{
  Bool, false, if◌then◌else◌, leb_ℤ, ltb_ℤ, not, pos, true, ℤ, ◌&&◌, ◌*ℤ◌, ◌-ℤ◌,
}

-- The fields of daemon_runtime_state that the timeout works on.
pub record TimeoutState : Type 0 where
  pub enabled : Bool
  pub timed_off : Bool
  pub seconds : ℤ
  pub restore_percent : ℤ

unfoldable pub keyboard_backlight_timeout_can_run : AnsConfig → TimeoutState → Bool
keyboard_backlight_timeout_can_run cfg runtime =
    cfg.keyboard_backlight.available
    && cfg.keyboard_backlight.timeout_supported
    && runtime.enabled
    && ltb_ℤ (pos 0) runtime.seconds

unfoldable pub keyboard_backlight_should_turn_off : TimeoutState → ℤ → ℤ → Bool
keyboard_backlight_should_turn_off runtime idle_ms timeout_ms =
    leb_ℤ timeout_ms idle_ms && not runtime.timed_off

unfoldable pub keyboard_backlight_should_restore : TimeoutState → ℤ → ℤ → Bool
keyboard_backlight_should_restore runtime idle_ms timeout_ms =
    ltb_ℤ idle_ms timeout_ms && runtime.timed_off && ltb_ℤ (pos 0) runtime.restore_percent

unfoldable pub keyboard_backlight_timeout_init : AnsConfig → TimeoutState
keyboard_backlight_timeout_init cfg = record {
  enabled =
      cfg.keyboard_backlight.timeout_supported && cfg.keyboard_backlight.timeout_default_enabled;
  timed_off = false;
  seconds = cfg.keyboard_backlight.timeout_seconds;
  restore_percent = pos 100;
}

unfoldable pub keyboard_backlight_timeout_note_manual_set : TimeoutState → ℤ → TimeoutState
keyboard_backlight_timeout_note_manual_set runtime percent = record runtime {
  timed_off = false;
  restore_percent = if ltb_ℤ (pos 0) percent then percent else pos 0;
}

module _ (M : Machine) (read_sysfs : M.World → Bool × BacklightStatus) where
  open M use {World}

  unfoldable pub keyboard_backlight_update_restore_percent :
      AnsConfig → TimeoutState → World → TimeoutState × World
  keyboard_backlight_update_restore_percent cfg runtime w =
      let (found, status, w1) = keyboard_backlight_read_any M read_sysfs cfg w in
      if runtime.timed_off
      then (runtime, w)
      else if found && ltb_ℤ (pos 0) status.percent
      then (record runtime { restore_percent = status.percent }, w1)
      else (runtime, w1)

  -- The step after the restore target is up to date.
  unfoldable pub switch_backlight : AnsConfig → TimeoutState → ℤ → ℤ → World → TimeoutState × World
  switch_backlight cfg runtime idle_ms timeout_ms w =
      let (off, _, w1) = keyboard_backlight_set_percent M cfg (pos 0) w in
      let (restored, _, w2) = keyboard_backlight_set_percent M cfg runtime.restore_percent w in
      if keyboard_backlight_should_turn_off runtime idle_ms timeout_ms
      then ((if off then record runtime { timed_off = true } else runtime), w1)
      else if keyboard_backlight_should_restore runtime idle_ms timeout_ms
      then ((if restored then record runtime { timed_off = false } else runtime), w2)
      else (runtime, w)

  unfoldable pub keyboard_backlight_timeout_tick :
      AnsConfig → TimeoutState → ℤ → ℤ → World → TimeoutState × World
  keyboard_backlight_timeout_tick cfg runtime now_ms last_activity_ms w =
      let (runtime1, w1) = keyboard_backlight_update_restore_percent cfg runtime w in
      if keyboard_backlight_timeout_can_run cfg runtime
      then switch_backlight cfg runtime1 (now_ms -ℤ last_activity_ms) (runtime.seconds *ℤ pos 1000)
          w1
      else (runtime, w)
