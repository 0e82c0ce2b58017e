-- ===== src/Fan/Safety.antt =====
-- fan/safety.c and fan/safety_log.c: writing a speed under the safety policy. The lines that only
-- log are left out. `safety_reason` is 64 bytes, so `string_copy` cuts no reason short:
-- the longest has 20 bytes.
pub mod Laws
use acer_nitro_sense_linux.Config.Types.{AnsConfig, FanConfig, SafetyConfig}
use acer_nitro_sense_linux.Fan.Policy.{fan_safety_adjust_percent}
use acer_nitro_sense_linux.Fan.State.{
  FanState, Reason, critical_temperature, ec_read_failure, ec_write_failure, kept_percent, ok,
  reason_has_value,
}
use acer_nitro_sense_linux.Machine.{Machine}
use acer_nitro_sense_linux.Prelude.{
  Bool, List, [], if◌then◌else◌, leb_ℤ, ltb_ℤ, minus_one, pos, ℤ, ◌&&◌, ◌+ℤ◌, ◌||◌, ◌∷◌,
}
use acer_nitro_sense_linux.Util.Number.{clamp_int}

unfoldable pub fan_update_safety_state : FanState → Reason → FanState
fan_update_safety_state state reason =
    let active = reason_has_value reason in
    record state { safety_active = active; safety_reason = if active then reason else ok }

unfoldable pub auto_ramp_bypass_temperature_reached : AnsConfig → FanState → Bool
auto_ramp_bypass_temperature_reached cfg state =
    ltb_ℤ (pos 0) cfg.safety.auto_ramp_bypass_temperature_c
    && state.control_temp_available
    && leb_ℤ cfg.safety.auto_ramp_bypass_temperature_c state.control_temp_c

-- The loop of `global_safety_reason`, with the reason found so far.
unfoldable pub global_safety_reason_from :
    SafetyConfig → Reason → List FanConfig → List FanState → Reason
global_safety_reason_from safety reason [] states = reason
global_safety_reason_from safety reason (fan ∷ fans) [] = reason
global_safety_reason_from safety reason (fan ∷ fans) (s ∷ states) =
    let later =
      global_safety_reason_from safety
        (if leb_ℤ safety.critical_consecutive_samples s.critical_temp_samples
          then critical_temperature
          else reason)
        fans states in
    if leb_ℤ safety.max_ec_read_failures s.ec_read_failures
    then ec_read_failure
    else if leb_ℤ safety.max_ec_write_failures s.ec_write_failures
    then ec_write_failure
    else later

unfoldable pub global_safety_reason : AnsConfig → List FanState → Reason
unfolding global_safety_reason_from
global_safety_reason cfg states = global_safety_reason_from cfg.safety ok cfg.fans states

unfoldable pub auto_ramped_percent : AnsConfig → FanState → ℤ → Reason → ℤ
unfolding auto_ramp_bypass_temperature_reached ◌+ℤ◌
auto_ramped_percent cfg state target_percent forced_reason =
    let step = cfg.safety.auto_ramp_up_percent in
    let current_percent = kept_percent state in
    if leb_ℤ step (pos 0) || leb_ℤ target_percent current_percent
    then target_percent
    else if reason_has_value forced_reason
    then target_percent
    else if auto_ramp_bypass_temperature_reached cfg state
    then target_percent
    else clamp_int (current_percent +ℤ step) (pos 1) target_percent

module _ (M : Machine) where
  open M use {World, ec_write_byte}

  unfoldable pub fan_write_percent_raw : FanConfig → ℤ → World → ℤ × World
  fan_write_percent_raw fan percent w =
      ec_write_byte fan.write_register (clamp_int percent fan.write_min fan.write_max) w

  -- The new state of the fan, the result, and the world.
  unfoldable pub set_fan_percent :
      AnsConfig → FanConfig → FanState → ℤ → Reason → World → FanState × ℤ × World
  unfolding ◌+ℤ◌ fan_update_safety_state
  set_fan_percent cfg fan state requested_percent forced_reason w =
      let adj = fan_safety_adjust_percent cfg fan state requested_percent forced_reason in
      let (written, w1) = fan_write_percent_raw fan adj.percent w in
      if ltb_ℤ written (pos 0)
      then (
        fan_update_safety_state
            (record state {
              ec_write_failures =
                  if ltb_ℤ state.ec_write_failures (cfg.safety.max_ec_write_failures +ℤ pos 1)
                  then state.ec_write_failures +ℤ pos 1
                  else state.ec_write_failures;
            })
            ec_write_failure,
        minus_one,
        w1,
      )
      else (
        fan_update_safety_state
            (record state {
              ec_write_failures = pos 0;
              requested_percent = clamp_int requested_percent (pos 1) (pos 100);
              percent = adj.percent;
              write_value = adj.percent;
            })
            adj.reason,
        adj.percent,
        w1,
      )
