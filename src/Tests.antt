-- ===== src/Tests.antt =====
-- The profile, the states and the machine that the tests run on.
pub mod Profile
pub mod Cooling
pub mod Rounds
pub mod Daemon
pub mod Device
pub mod Service
pub mod Commands
pub mod Client
use acer_nitro_sense_linux.Config.Platform.{
  no_keyboard_backlight, no_platform_profiles, no_power_source_profiles,
}
use acer_nitro_sense_linux.Config.Sections.{no_fan_modes}
use acer_nitro_sense_linux.Config.Types.{AnsConfig, FanConfig, SafetyConfig, Threshold}
use acer_nitro_sense_linux.Config.Valid.{
  IsOptionalRegister, IsRelease, IsValidFan, IsValidProfile, IsValidSafety,
}
use acer_nitro_sense_linux.Fan.Invariant.{IsSound}
use acer_nitro_sense_linux.Fan.State.{FanState, ok}
use acer_nitro_sense_linux.Machine.{Machine}
use acer_nitro_sense_linux.Prelude.{
  Bytes, List, [], arith, codes, eqb_ℤ, false, if◌then◌else◌, inl, minus_one, pos, refl, true, ℤ,
  ◌+ℤ◌, ◌∷◌,
}

abbrev pub bench_safety : SafetyConfig
bench_safety = record {
  min_speed_percent = pos 30;
  min_speed_temperature_c = pos 60;
  critical_speed_percent = pos 100;
  critical_full_speed = true;
  critical_step_percent = pos 20;
  critical_consecutive_samples = pos 2;
  critical_release_temperature_c = pos 85;
  auto_ramp_up_percent = pos 8;
  auto_ramp_bypass_temperature_c = pos 0;
  missing_temperature_speed_percent = pos 60;
  max_ec_read_failures = pos 3;
  max_ec_write_failures = pos 3;
}

abbrev pub bench_curve : List Threshold
bench_curve =
    record { up = pos 50; down = pos 40; speed = pos 30 }
    ∷ record { up = pos 70; down = pos 60; speed = pos 60 }
    ∷ []

abbrev pub bench_fan : FanConfig
bench_fan = record {
  id = codes "cpu";
  name = codes "CPU";
  sensor_group = codes "cpu";
  control_sensor_group = codes "cpu";
  sensor_power_control = [];
  keep_awake = false;
  read_register = pos 19;
  write_register = pos 55;
  temperature_register = minus_one;
  control_temperature_register = minus_one;
  read_min = pos 0;
  read_max = pos 6000;
  write_min = pos 0;
  write_max = pos 60;
  reset_speed = pos 50;
  missing_temperature_speed_percent = pos 0;
  curve = bench_curve;
}

abbrev pub bench_profile : AnsConfig
bench_profile = record {
  model = codes "M";
  default_preset = codes "auto";
  ec_path = codes "/sys/kernel/debug/ec/ec0/io";
  allowed_dmi = [];
  poll_interval_ms = pos 3000;
  critical_temperature_c = pos 90;
  read_words = true;
  safety = bench_safety;
  coolboost_default_enabled = false;
  fan_modes = no_fan_modes;
  platform_profiles = no_platform_profiles;
  power_source_profiles = no_power_source_profiles;
  keyboard_backlight = no_keyboard_backlight;
  init_writes = [];
  fans = bench_fan ∷ [];
  presets = record { id = codes "cool"; cpu = pos 60; gpu = pos 60 } ∷ [];
}

abbrev pub bench_text : Bytes
bench_text =
    codes
      "{\"model\":\"M\",\"default_preset\":\"auto\",\"safety\":{\"auto_ramp_up_percent\":8,\"critical_consecutive_samples\":2},\"fans\":[{\"id\":\"cpu\",\"name\":\"CPU\",\"sensor_group\":\"cpu\",\"read_register\":19,\"write_register\":55,\"write_max\":60,\"curve\":[{\"up\":50,\"down\":40,\"speed\":30},{\"up\":70,\"down\":60,\"speed\":60}]}],\"presets\":[{\"id\":\"cool\",\"cpu\":60,\"gpu\":60}]}"

abbrev pub bench_state : FanState
bench_state = record {
  rpm = pos 2000;
  temp_c = pos 50;
  sensor_temp_c = pos 50;
  control_temp_c = pos 50;
  control_sensor_temp_c = pos 50;
  pending_spike_temp_c = pos 0;
  pending_control_spike_temp_c = pos 0;
  write_value = pos 30;
  temp_available = true;
  control_temp_available = true;
  temp_seeded = true;
  control_temp_seeded = true;
  percent = pos 30;
  requested_percent = pos 30;
  critical_temp_samples = pos 0;
  ec_read_failures = pos 0;
  ec_write_failures = pos 0;
  safety_active = false;
  safety_reason = ok;
}

-- A machine that keeps the writes, the last one first; a register that was not written reads 7,
-- and every sensor 50.
abbrev pub Log : Type 0
Log = List (ℤ × ℤ)

unfoldable pub last_written : ℤ → Log → ℤ
last_written reg [] = pos 7
last_written reg ((r, v) ∷ w) =
    let earlier = last_written reg w in if eqb_ℤ r reg then v else earlier

abbrev pub bench : Machine
bench = record {
  World = Log;
  ec_read_byte = λ reg w. (last_written reg w, w);
  ec_write_byte = λ reg value w. (pos 0, (reg, value) ∷ w);
  sensor_read_group_max_c = λ group w. (pos 50, w);
}

bench-IsOptionalRegister : IsOptionalRegister minus_one
unfolding IsOptionalRegister
bench-IsOptionalRegister = inl refl

bench-IsRelease : IsRelease (pos 90) (pos 85)
unfolding IsRelease
bench-IsRelease = inl (omega arith)

pub bench_fan-IsValid : IsValidFan bench_fan
bench_fan-IsValid = record {
  read_register_in = omega arith;
  write_register_in = omega arith;
  temperature_register_in = bench-IsOptionalRegister;
  control_register_in = bench-IsOptionalRegister;
  read_min_in = omega arith;
  read_range = omega arith;
  write_min_in = omega arith;
  write_max_in = omega arith;
  write_range = omega arith;
  reset_in = omega arith;
  missing_in = omega arith;
  curve_in = (
    record {
      down_le_up = omega arith;
      down_in = omega arith;
      up_in = omega arith;
      speed_in = omega arith;
    },
    (
      record {
        down_le_up = omega arith;
        down_in = omega arith;
        up_in = omega arith;
        speed_in = omega arith;
      },
      tt,
    ),
  );
}

pub bench_safety-IsValid : IsValidSafety (pos 90) bench_safety
bench_safety-IsValid = record {
  critical_in = omega arith;
  min_speed_temperature_in = omega arith;
  bypass_in = omega arith;
  release_least = bench-IsRelease;
  min_speed_in = omega arith;
  critical_speed_in = omega arith;
  critical_step_in = omega arith;
  critical_samples_in = omega arith;
  release_in = omega arith;
  ramp_in = omega arith;
  missing_in = omega arith;
  read_failures_in = omega arith;
  write_failures_in = omega arith;
}

pub bench_state-IsSound : IsSound bench_safety bench_state
unfolding ◌+ℤ◌
bench_state-IsSound = record {
  samples_in = omega arith;
  read_failures_in = omega arith;
  write_failures_in = omega arith;
  percent_in = omega arith;
  requested_in = omega arith;
  reason_agrees = refl;
}

pub bench_profile-IsValid : IsValidProfile bench_profile
bench_profile-IsValid = (bench_safety-IsValid, (bench_fan-IsValid, tt))
