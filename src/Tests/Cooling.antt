-- ===== src/Tests/Cooling.antt =====
-- Readings, the filter, the policy and the ramp, on concrete values.
use acer_nitro_sense_linux.Fan.Control.{curve_speed, hold_speed, select_speed}
use acer_nitro_sense_linux.Fan.Control.Laws.{IsSpeed, curve-IsSpeed, curve-mono, curve_hysteresis}
use acer_nitro_sense_linux.Fan.Filter.{confirm_jump, fan_filtered_sensor_temp}
use acer_nitro_sense_linux.Fan.Filter.Laws.{IsClose, held_then_accepted, jump_confirmed}
use acer_nitro_sense_linux.Fan.Observation.{Track, track_temp, unknown_temp}
use acer_nitro_sense_linux.Fan.Observation.Laws.{
  Sample, count_rounds, count_rounds_lem, hot_rounds, track_jump_confirmed,
}
use acer_nitro_sense_linux.Fan.Policy.{fan_safety_adjust_percent}
use acer_nitro_sense_linux.Fan.Policy.Laws.{
  IsNormal, IsWritable, adjust-IsWritable, adjust-mono, adjust_ok,
}
use acer_nitro_sense_linux.Fan.Safety.{global_safety_reason}
use acer_nitro_sense_linux.Fan.Safety.Laws.{IsHealthy, global_safety_reason_ok}
use acer_nitro_sense_linux.Fan.State.{ok}
use acer_nitro_sense_linux.Prelude.{
  All, List, [], abs, arith, false, inl, inr, pos, refl, true, ◌+ℤ◌, ◌+◌, ◌-ℤ◌, ◌↔◌, ◌∷◌, ◌≡◌, ◌≤ℤ◌,
}
use acer_nitro_sense_linux.Tests.{
  bench_fan, bench_fan-IsValid, bench_profile, bench_safety, bench_state,
}
use acer_nitro_sense_linux.Util.Number.{clamp_int}
use Prim.Native.Nat.{min}

jump_confirmed_example : IsClose (pos 88) (pos 90)
unfolding fan_filtered_sensor_temp confirm_jump abs ◌-ℤ◌ ◌+ℤ◌
jump_confirmed_example =
    jump_confirmed (pos 50) (pos 0) (pos 88) (pos 50) (pos 90) (pos 90) true true
      (inr (omega arith, omega arith)) (omega arith) (omega arith) refl

held_then_accepted_example :
    (fan_filtered_sensor_temp
      (pos 50)
      (fan_filtered_sensor_temp (pos 50) (pos 0) (pos 88) true (pos 90)).pending
      (pos 90)
      true
      (pos 90)).result
    ≡ pos 90
unfolding fan_filtered_sensor_temp confirm_jump abs ◌-ℤ◌ ◌+ℤ◌
held_then_accepted_example =
    held_then_accepted (pos 50) (pos 0) (pos 88) (pos 50) (pos 90) (pos 90) true true (omega arith)
      (λ e. cc e) (omega arith, omega arith)

abbrev warm_track : Track
warm_track = record { temp = pos 50; pending = pos 0; available = true; seeded = true }

track_jump_confirmed_example :
    let t1 = track_temp (pos 90) (pos 88) warm_track in
    ((track_temp (pos 90) (pos 90) t1).temp ≡ pos 90) × IsClose (pos 88) (pos 90)
unfolding track_temp unknown_temp fan_filtered_sensor_temp confirm_jump abs ◌-ℤ◌ ◌+ℤ◌
track_jump_confirmed_example =
    track_jump_confirmed (pos 90) (pos 88) (pos 90) warm_track (omega arith) (omega arith)
      (omega arith) (omega arith)

abbrev samples : List Sample
samples = (true, pos 91) ∷ (false, pos 91) ∷ (true, pos 88) ∷ (true, pos 95) ∷ []

count_rounds_lem_example :
    (count_rounds bench_profile bench_state samples).critical_temp_samples
    ≡ pos (min 2 (0 + hot_rounds bench_profile samples))
count_rounds_lem_example =
    count_rounds_lem bench_profile bench_state samples 2 0 refl refl (omega arith)
      (inr (omega arith), (inl refl, (inr (omega arith), (inr (omega arith), tt))))

adjust-IsWritable_example :
    IsWritable bench_fan
      (fan_safety_adjust_percent bench_profile bench_fan bench_state (pos 90) ok).percent
adjust-IsWritable_example =
    adjust-IsWritable bench_profile bench_fan bench_state (pos 90) ok bench_fan-IsValid (inl refl)

adjust-mono_example :
    (fan_safety_adjust_percent bench_profile bench_fan bench_state (pos 20) ok).percent
    ≤ℤ (fan_safety_adjust_percent bench_profile bench_fan bench_state (pos 40) ok).percent
adjust-mono_example =
    adjust-mono bench_profile bench_fan bench_state (pos 20) (pos 40) ok bench_fan-IsValid
      (omega arith)

adjust_ok_example :
    ((fan_safety_adjust_percent bench_profile bench_fan bench_state (pos 50) ok).reason ≡ ok)
    ↔ IsNormal bench_profile bench_fan bench_state (clamp_int (pos 50) (pos 1) (pos 100)) ok
adjust_ok_example = adjust_ok bench_profile bench_fan bench_state (pos 50) ok

global_safety_reason_ok_example :
    (global_safety_reason bench_profile (bench_state ∷ []) ≡ ok)
    ↔ All (IsHealthy bench_safety) (bench_state ∷ [])
global_safety_reason_ok_example = global_safety_reason_ok bench_profile (bench_state ∷ [])

curve-IsSpeed_example : IsSpeed (curve_speed bench_fan (pos 65) (pos 60))
curve-IsSpeed_example = curve-IsSpeed bench_fan (pos 65) (pos 60) bench_fan-IsValid

curve_hysteresis_example : pos 60 ≤ℤ curve_speed bench_fan (pos 65) (pos 60)
curve_hysteresis_example =
    curve_hysteresis bench_fan (pos 65) (pos 60) (inr (inl (refl, omega arith)))

curve-mono_example :
    curve_speed bench_fan (pos 45) (pos 60) ≤ℤ curve_speed bench_fan (pos 65) (pos 60)
curve-mono_example =
    curve-mono bench_fan (pos 45) (pos 65) (pos 60) (omega arith, (omega arith, tt)) (omega arith)

curve_steps :
    (curve_speed bench_fan (pos 45) (pos 60) ≡ pos 30)
    × (curve_speed bench_fan (pos 65) (pos 60) ≡ pos 60)
    × (curve_speed bench_fan (pos 65) (pos 30) ≡ pos 30)
    × (curve_speed bench_fan (pos 75) (pos 30) ≡ pos 60)
unfolding curve_speed select_speed hold_speed
curve_steps = (refl, refl, refl, refl)
