-- ===== src/Fan/Policy.antt =====
-- fan/safety_policy.c: the effective speed of a fan under the safety policy.
pub mod Laws
use acer_nitro_sense_linux.Config.Types.{AnsConfig, FanConfig}
use acer_nitro_sense_linux.Fan.State.{
  FanState, Reason, critical_temperature, ec_write_failure, is_critical_temperature,
  minimum_safe_speed, ok, reason_has_value, temperature_unknown,
}
use acer_nitro_sense_linux.Prelude.{if◌then◌else◌, leb_ℤ, ltb_ℤ, not, pos, ℤ, ◌&&◌, ◌+ℤ◌}
use acer_nitro_sense_linux.Util.Number.{clamp_int}

unfoldable pub critical_safety_percent : AnsConfig → FanConfig → ℤ → Reason → ℤ
critical_safety_percent cfg fan percent reason =
    if is_critical_temperature reason && not cfg.safety.critical_full_speed
    then clamp_int (percent +ℤ cfg.safety.critical_step_percent) fan.write_min fan.write_max
    else clamp_int cfg.safety.critical_speed_percent fan.write_min fan.write_max

unfoldable pub missing_temperature_percent : AnsConfig → FanConfig → ℤ
missing_temperature_percent cfg fan =
    if ltb_ℤ (pos 0) fan.missing_temperature_speed_percent
    then fan.missing_temperature_speed_percent
    else cfg.safety.missing_temperature_speed_percent

-- The returned percentage, and what the call leaves in `*reason`.
pub record Adjusted : Type 0 where
  pub percent : ℤ
  pub reason : Reason

abbrev adjusted : ℤ → Reason → Adjusted
adjusted p r = record { percent = p; reason = r }

unfoldable pub fan_safety_adjust_percent : AnsConfig → FanConfig → FanState → ℤ → Reason → Adjusted
unfolding missing_temperature_percent
fan_safety_adjust_percent cfg fan state requested_percent forced_reason =
    let percent = clamp_int requested_percent (pos 1) (pos 100) in
    let fallback_percent = missing_temperature_percent cfg fan in
    if reason_has_value forced_reason
    then adjusted (critical_safety_percent cfg fan percent forced_reason) forced_reason
    else if leb_ℤ cfg.safety.max_ec_write_failures state.ec_write_failures
    then adjusted (critical_safety_percent cfg fan percent ec_write_failure) ec_write_failure
    else if not state.control_temp_available
    then (if ltb_ℤ percent fallback_percent
        then adjusted fallback_percent temperature_unknown
        else adjusted percent ok)
    else if leb_ℤ cfg.safety.critical_consecutive_samples state.critical_temp_samples
    then adjusted (critical_safety_percent cfg fan percent critical_temperature)
        critical_temperature
    else if leb_ℤ cfg.safety.min_speed_temperature_c state.control_temp_c
        && ltb_ℤ percent cfg.safety.min_speed_percent
    then adjusted (clamp_int cfg.safety.min_speed_percent fan.write_min fan.write_max)
        minimum_safe_speed
    else adjusted (clamp_int percent fan.write_min fan.write_max) ok
