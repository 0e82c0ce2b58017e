-- ===== src/Tests/Daemon.antt =====
-- Commands on the daemon's state, and the backlight timeout, on the machine of the tests.
use acer_nitro_sense_linux.Command.Parser.{parse_set_command}
use acer_nitro_sense_linux.Command.Tokens.{
  command_has_only_trailing_space, command_parse_percent_token, command_read_token, expect_token,
  word,
}
use acer_nitro_sense_linux.Config.Types.{AnsConfig}
use acer_nitro_sense_linux.Daemon.Errors.{unknown_fan_changes_mode}
use acer_nitro_sense_linux.Daemon.Fan.{
  disable_coolboost_if_needed, fan_command_prepare_daemon_control, handle_fan_control_command,
  handle_set_command,
}
use acer_nitro_sense_linux.Daemon.Invariant.{IsConsistent}
use acer_nitro_sense_linux.Daemon.Types.{DaemonState, refused, unknown_fan_reply}
use acer_nitro_sense_linux.Fan.Permitted.{IsKept, Permitted}
use acer_nitro_sense_linux.Fan.Permitted.Commands.{command_keeps}
use acer_nitro_sense_linux.Keyboard.Backlight.{
  BacklightStatus, keyboard_backlight_init_status, keyboard_backlight_percent_from_range,
  keyboard_backlight_value_from_percent,
}
use acer_nitro_sense_linux.Keyboard.Backlight.Laws.{backlight_round_trip}
use acer_nitro_sense_linux.Keyboard.Timeout.{
  TimeoutState, keyboard_backlight_timeout_can_run, keyboard_backlight_timeout_tick,
}
use acer_nitro_sense_linux.Keyboard.Timeout.Laws.{IsBacklight, tick_restores}
use acer_nitro_sense_linux.Platform.FanMode.{apply_daemon_control_fan_mode}
use acer_nitro_sense_linux.Prelude.{
  All, Bool, [], arith, codes, false, pos, refl, some, str_eq, true, ◌*ℤ◌, ◌+ℤ◌, ◌-ℤ◌, ◌/ℤ◌, ◌∷◌,
  ◌≡◌,
}
use acer_nitro_sense_linux.Tests.{
  Log, bench, bench_fan-IsValid, bench_profile, bench_state, bench_state-IsSound, last_written,
}
use acer_nitro_sense_linux.Util.Strtol.{
  digit_value, parse_int_range, read_digits, skip_c_space, strip_prefix, strtol,
}
use acer_nitro_sense_linux.Util.Text.{skip_space}

abbrev idle_daemon : DaemonState
idle_daemon = record {
  states = bench_state ∷ [];
  auto_mode = true;
  preset = codes "auto";
  coolboost_enabled = false;
}

idle_daemon-IsConsistent : IsConsistent bench_profile idle_daemon
idle_daemon-IsConsistent = record {
  fans_sound = (bench_state-IsSound, tt);
  coolboost_available = λ e. cc e;
  preset_fits = omega arith;
}

abbrev lit_profile : AnsConfig
lit_profile = record bench_profile {
  keyboard_backlight = record {
    available = true;
    reg = pos 80;
    min_value = pos 0;
    max_value = pos 9;
    timeout_supported = true;
    timeout_default_enabled = true;
    timeout_seconds = pos 30;
  };
}

abbrev running : TimeoutState
running = record { enabled = true; timed_off = false; seconds = pos 30; restore_percent = pos 100 }

lit_profile-IsBacklight : IsBacklight bench lit_profile 0 9
unfolding last_written
lit_profile-IsBacklight = record {
  available = refl;
  at_lo = refl;
  at_hi = refl;
  range = omega arith;
  read_keeps = λ w. refl;
  write_taken = λ v w low high. refl;
  write_stays = λ v w low high. refl;
}

abbrev no_led : Log → Bool × BacklightStatus
no_led w = (false, keyboard_backlight_init_status)

tick_restores_example :
    let (s1, w1) =
      keyboard_backlight_timeout_tick bench no_led lit_profile running (pos 40000) (pos 0) [] in
    let (s2, w2) =
      keyboard_backlight_timeout_tick bench no_led lit_profile s1 (pos 50000) (pos 49000) w1 in
    (last_written (pos 80) w1 ≡ pos 0)
    × (s1.timed_off ≡ true)
    × (last_written (pos 80) w2 ≡ pos 7)
    × (s2.timed_off ≡ false)
unfolding keyboard_backlight_timeout_can_run last_written ◌*ℤ◌ ◌-ℤ◌
tick_restores_example =
    tick_restores bench no_led lit_profile running 0 9 7 (pos 40000) (pos 0) (pos 50000) (pos 49000)
      [] lit_profile-IsBacklight (omega arith) refl refl refl refl (omega arith) (omega arith)
      (omega arith) (omega arith)

backlight_round_trip_example :
    keyboard_backlight_value_from_percent lit_profile.keyboard_backlight
      (keyboard_backlight_percent_from_range (pos 7) (pos 0) (pos 9))
    ≡ pos 7
backlight_round_trip_example =
    backlight_round_trip lit_profile.keyboard_backlight 0 9 7 refl refl (omega arith) (omega arith)
      (omega arith) (omega arith)

seven_of_nine : keyboard_backlight_percent_from_range (pos 7) (pos 0) (pos 9) ≡ pos 78
unfolding keyboard_backlight_percent_from_range ◌*ℤ◌ ◌-ℤ◌ ◌+ℤ◌ ◌/ℤ◌
seven_of_nine = refl

abbrev AllPermitted : Log → Type 0
AllPermitted w = All (λ x. Permitted bench_profile x.0 x.1) w

logged-IsKept : IsKept bench bench_profile AllPermitted
logged-IsKept = record {
  read_keeps = λ reg w h. h;
  sensor_keeps = λ group w h. h;
  write_keeps = λ reg value w p h. (p, h);
}

command_keeps_example :
    AllPermitted
      (handle_fan_control_command bench bench_profile (codes "set cpu 50") idle_daemon []).2
command_keeps_example =
    command_keeps bench bench_profile AllPermitted logged-IsKept (codes "set cpu 50") idle_daemon []
      (bench_fan-IsValid, tt) tt

gpu_command : parse_set_command (codes "set gpu 50") 32 ≡ some (codes "gpu", pos 50)
unfolding parse_set_command expect_token command_read_token command_parse_percent_token
    command_has_only_trailing_space word skip_space str_eq parse_int_range strtol skip_c_space
    strip_prefix read_digits digit_value ◌-ℤ◌ ◌+ℤ◌ ◌*ℤ◌
gpu_command = refl

unknown_fan_changes_mode_example :
    let (d', answer, w') =
      handle_set_command bench bench_profile (codes "set gpu 50") idle_daemon [] in
    (answer ≡ refused unknown_fan_reply) × (d'.auto_mode ≡ false) × (d'.preset ≡ codes "manual")
unfolding str_eq fan_command_prepare_daemon_control disable_coolboost_if_needed
    apply_daemon_control_fan_mode
unknown_fan_changes_mode_example =
    unknown_fan_changes_mode bench bench_profile (codes "set gpu 50") (codes "gpu") (pos 50)
      idle_daemon [] gpu_command refl (refl, tt) refl
