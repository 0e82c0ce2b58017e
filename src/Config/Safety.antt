-- ===== src/Config/Safety.antt =====
-- config/safety.c: the safety section.
use acer_nitro_sense_linux.Config.Parse.{config_optional_bool_key, config_optional_clamped_int_key}
use acer_nitro_sense_linux.Config.Types.{SafetyConfig}
use acer_nitro_sense_linux.Prelude.{Bytes, Option, codes, none, pos, some, true, ℤ, ◌-ℤ◌, ◌>>=◌}
use acer_nitro_sense_linux.Util.Json.{json_find_key}

unfoldable pub parse_safety_policy : Bytes → ℤ → SafetyConfig → Option SafetyConfig
parse_safety_policy json critical_c d = do
  min_speed ←
      config_optional_clamped_int_key json (codes "min_speed_percent") d.min_speed_percent (pos 1)
        (pos 100)
  min_temp ←
      config_optional_clamped_int_key json (codes "min_speed_temperature_c")
        d.min_speed_temperature_c (pos 1) (pos 130)
  critical_speed ←
      config_optional_clamped_int_key json (codes "critical_speed_percent") d.critical_speed_percent
        (pos 1) (pos 100)
  full_speed ← config_optional_bool_key json (codes "critical_full_speed") d.critical_full_speed
  critical_step ←
      config_optional_clamped_int_key json (codes "critical_step_percent") d.critical_step_percent
        (pos 1) (pos 100)
  critical_samples ←
      config_optional_clamped_int_key json (codes "critical_consecutive_samples")
        d.critical_consecutive_samples (pos 1) (pos 10)
  release ←
      config_optional_clamped_int_key json (codes "critical_release_temperature_c")
        d.critical_release_temperature_c (pos 1) critical_c
  ramp ←
      config_optional_clamped_int_key json (codes "auto_ramp_up_percent") d.auto_ramp_up_percent
        (pos 0) (pos 100)
  bypass ←
      config_optional_clamped_int_key json (codes "auto_ramp_bypass_temperature_c")
        d.auto_ramp_bypass_temperature_c (pos 0) critical_c
  missing ←
      config_optional_clamped_int_key json (codes "missing_temperature_speed_percent")
        d.missing_temperature_speed_percent (pos 1) (pos 100)
  max_read ←
      config_optional_clamped_int_key json (codes "max_ec_read_failures") d.max_ec_read_failures
        (pos 1) (pos 100)
  max_write ←
      config_optional_clamped_int_key json (codes "max_ec_write_failures") d.max_ec_write_failures
        (pos 1) (pos 100)
  some (record {
    min_speed_percent = min_speed;
    min_speed_temperature_c = min_temp;
    critical_speed_percent = critical_speed;
    critical_full_speed = full_speed;
    critical_step_percent = critical_step;
    critical_consecutive_samples = critical_samples;
    critical_release_temperature_c = release;
    auto_ramp_up_percent = ramp;
    auto_ramp_bypass_temperature_c = bypass;
    missing_temperature_speed_percent = missing;
    max_ec_read_failures = max_read;
    max_ec_write_failures = max_write;
  })

unfoldable pub default_safety : ℤ → SafetyConfig
default_safety critical_c = record {
  min_speed_percent = pos 30;
  min_speed_temperature_c = pos 60;
  critical_speed_percent = pos 100;
  critical_full_speed = true;
  critical_step_percent = pos 20;
  critical_consecutive_samples = pos 1;
  critical_release_temperature_c = critical_c -ℤ pos 5;
  auto_ramp_up_percent = pos 0;
  auto_ramp_bypass_temperature_c = pos 0;
  missing_temperature_speed_percent = pos 60;
  max_ec_read_failures = pos 3;
  max_ec_write_failures = pos 3;
}

unfoldable pub config_parse_safety : Bytes → ℤ → Option SafetyConfig
config_parse_safety json critical_c = elim (json_find_key json (codes "safety")) [
  | none ↦ some (default_safety critical_c)
  | some safety ↦ parse_safety_policy safety critical_c (default_safety critical_c)
]
