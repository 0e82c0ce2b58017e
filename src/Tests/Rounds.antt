-- ===== src/Tests/Rounds.antt =====
-- Whole rounds of the daemon, on the machine that logs its writes.
use acer_nitro_sense_linux.Config.Find.{config_find_preset, find_by_id}
use acer_nitro_sense_linux.Config.Types.{FanConfig}
use acer_nitro_sense_linux.Config.Valid.{IsValidFan}
use acer_nitro_sense_linux.Fan.Control.{drive_fan, drive_fans, select_speed, update_fan_states}
use acer_nitro_sense_linux.Fan.Forced.{
  IsDrivenTo, WritesWork, drive_fan_forced, forced_speed, unknown_temperature_records_more,
}
use acer_nitro_sense_linux.Fan.Invariant.{
  IsSound, observe_fan-IsSound, set_fan_percent-IsSound, update_fan_states-IsSound,
}
use acer_nitro_sense_linux.Fan.Invariant.Requests.{apply_preset-IsSound}
use acer_nitro_sense_linux.Fan.Observation.{observe_fan}
use acer_nitro_sense_linux.Fan.Permitted.{IsKept, Permitted}
use acer_nitro_sense_linux.Fan.Permitted.Rounds.{update_keeps}
use acer_nitro_sense_linux.Fan.Policy.{fan_safety_adjust_percent, missing_temperature_percent}
use acer_nitro_sense_linux.Fan.Quiet.{AllNormal, firmware_left_alone_iff}
use acer_nitro_sense_linux.Fan.Ramp.{drive_rounds, ramp_rounds_arrive, selected_speed}
use acer_nitro_sense_linux.Fan.Requests.{apply_preset, set_matching, set_one, set_preset}
use acer_nitro_sense_linux.Fan.Safety.{
  fan_update_safety_state, fan_write_percent_raw, global_safety_reason, global_safety_reason_from,
  set_fan_percent,
}
use acer_nitro_sense_linux.Fan.State.{FanState, critical_temperature, kept_percent, ok}
use acer_nitro_sense_linux.Prelude.{
  All, List, [], arith, codes, false, inl, int_laws, minus_one, pos, refl, some, str_eq, true, ◌↔◌,
  ◌∷◌, ◌≡◌,
}
use acer_nitro_sense_linux.Tests.{
  bench, bench_fan, bench_fan-IsValid, bench_profile, bench_profile-IsValid, bench_safety,
  bench_safety-IsValid, bench_state, bench_state-IsSound,
}
use acer_nitro_sense_linux.Util.Number.{clamp_int}

abbrev states : List FanState
states = bench_state ∷ []

-- A fan that has been too hot for two samples.
abbrev hot_state : FanState
hot_state = record bench_state { control_temp_c = pos 95; critical_temp_samples = pos 2 }

abbrev blind_state : FanState
blind_state = record bench_state { control_temp_available = false }

abbrev slow_fan : FanConfig
slow_fan = record bench_fan { write_max = pos 50 }

slow_fan-IsValid : IsValidFan slow_fan
slow_fan-IsValid = record {
  read_register_in = bench_fan-IsValid.read_register_in;
  write_register_in = bench_fan-IsValid.write_register_in;
  temperature_register_in = bench_fan-IsValid.temperature_register_in;
  control_register_in = bench_fan-IsValid.control_register_in;
  read_min_in = bench_fan-IsValid.read_min_in;
  read_range = bench_fan-IsValid.read_range;
  write_min_in = omega arith;
  write_max_in = omega arith;
  write_range = omega arith;
  reset_in = omega arith;
  missing_in = omega arith;
  curve_in = bench_fan-IsValid.curve_in;
}

bench-WritesWork : WritesWork bench
bench-WritesWork reg value w = omega arith

bench-IsKept : IsKept bench bench_profile (λ w. All (λ x. Permitted bench_profile x.0 x.1) w)
bench-IsKept = record {
  read_keeps = λ reg w h. h;
  sensor_keeps = λ group w h. h;
  write_keeps = λ reg value w p h. (p, h);
}

update_keeps_example :
    All
      (λ x. Permitted bench_profile x.0 x.1)
      (update_fan_states bench bench_profile states true (codes "auto") []).1
update_keeps_example =
    update_keeps bench bench_profile (λ w. All (λ x. Permitted bench_profile x.0 x.1) w)
      bench-IsKept states true (codes "auto") [] (bench_fan-IsValid, tt) tt

update_fan_states-IsSound_example :
    All
      (IsSound bench_safety)
      (update_fan_states bench bench_profile states true (codes "auto") []).0
update_fan_states-IsSound_example =
    update_fan_states-IsSound bench bench_profile states true (codes "auto") []
      bench_profile-IsValid (bench_state-IsSound, tt)

observe_fan-IsSound_example : IsSound bench_safety (
    observe_fan bench_profile
      (record {
        raw = minus_one;
        write_value = pos 30;
        sensor_temp = pos 95;
        control_sensor_temp = pos 95;
      })
      bench_state)
observe_fan-IsSound_example =
    observe_fan-IsSound bench_profile
      (record {
        raw = minus_one;
        write_value = pos 30;
        sensor_temp = pos 95;
        control_sensor_temp = pos 95;
      })
      bench_state bench_safety-IsValid bench_state-IsSound

set_fan_percent-IsSound_example :
    IsSound bench_safety
      (set_fan_percent bench bench_profile bench_fan bench_state (pos 80) ok []).0
set_fan_percent-IsSound_example =
    set_fan_percent-IsSound bench bench_profile bench_fan bench_state (pos 80) ok []
      bench_safety-IsValid bench_fan-IsValid bench_state-IsSound

cool_preset :
    apply_preset bench bench_profile states (codes "cool") []
    ≡ some (
      record bench_state { percent = pos 60; requested_percent = pos 60; write_value = pos 60 }
          ∷ [],
      (pos 55, pos 60) ∷ [],
    )
unfolding apply_preset set_preset set_one set_matching set_fan_percent fan_write_percent_raw
    fan_safety_adjust_percent fan_update_safety_state global_safety_reason global_safety_reason_from
    config_find_preset find_by_id str_eq clamp_int
cool_preset = refl

apply_preset-IsSound_example :
    All (IsSound bench_safety) (
      record bench_state { percent = pos 60; requested_percent = pos 60; write_value = pos 60 }
      ∷ [])
apply_preset-IsSound_example =
    apply_preset-IsSound bench bench_profile states (codes "cool") [] bench_profile-IsValid
      (bench_state-IsSound, tt) cool_preset

abbrev warm_state : FanState
warm_state = record bench_state { control_temp_c = pos 75 }

drive_fan_forced_example :
    IsDrivenTo bench bench_fan (forced_speed bench bench_profile bench_fan) true hot_state [] (
      drive_fan bench bench_profile bench_fan true critical_temperature
        (pos 30)
        (record { ready = false; active = false })
        hot_state
        [])
drive_fan_forced_example =
    drive_fan_forced bench bench_profile bench_fan true critical_temperature (pos 30)
      (record { ready = false; active = false }) hot_state [] bench-WritesWork bench_fan-IsValid
      (λ e. cc e) (inl refl)

firmware_left_alone_iff_example :
    let (_, o, w) =
      drive_fans bench bench_profile
        (bench_fan ∷ [])
        true
        false
        ok
        (record { ready = false; active = false })
        states
        [] in
    ((o.active ≡ false) × (o ≡ record { ready = false; active = false }) × (w ≡ []))
    ↔ AllNormal bench_profile ok (bench_fan ∷ []) states
firmware_left_alone_iff_example =
    firmware_left_alone_iff bench bench_profile (bench_fan ∷ []) ok
      (record { ready = false; active = false }) states [] refl

ramp_rounds_arrive_example :
    kept_percent
      (drive_rounds bench bench_profile bench_fan
        (record { ready = false; active = false })
        4
        warm_state
        []).0
    ≡ selected_speed bench_fan (pos 75)
unfolding selected_speed select_speed
ramp_rounds_arrive_example =
    ramp_rounds_arrive bench bench_profile bench_fan (record { ready = false; active = false }) 8 4
      warm_state [] bench-WritesWork refl (omega arith) (omega arith) (omega arith) (omega arith)
      (omega arith) (omega int_laws)

unknown_temperature_records_more_example :
    let (s', effective, w') =
      set_fan_percent bench bench_profile slow_fan blind_state (pos 30) ok [] in
    (s'.percent ≡ missing_temperature_percent bench_profile slow_fan) × (w' ≡ (pos 55, pos 50) ∷ [])
unfolding missing_temperature_percent clamp_int
unknown_temperature_records_more_example =
    unknown_temperature_records_more bench bench_profile slow_fan blind_state (pos 30) []
      bench-WritesWork slow_fan-IsValid (omega arith) refl (omega arith) (omega arith)
