-- ===== src/Fan/State.antt =====
-- daemon/types.h: the runtime state of a fan, and the safety reasons.
use acer_nitro_sense_linux.Prelude.{
  Bool, Bytes, [], codes, false, if◌then◌else◌, ltb_ℤ, pos, true, ℤ,
}

-- The texts that the `reason` variables of fan/ point to; `ok` is the empty text.
pub data Reason : Type 0 where
  ok ec_read_failure ec_write_failure critical_temperature temperature_unknown minimum_safe_speed :
      Reason

unfoldable pub reason_text : Reason → Bytes
reason_text ok = []
reason_text ec_read_failure = codes "ec-read-failure"
reason_text ec_write_failure = codes "ec-write-failure"
reason_text critical_temperature = codes "critical-temperature"
reason_text temperature_unknown = codes "temperature-unknown"
reason_text minimum_safe_speed = codes "minimum-safe-speed"

-- `strcmp(reason, "critical-temperature") == 0`.
abbrev pub is_critical_temperature : Reason → Bool
is_critical_temperature critical_temperature = true
is_critical_temperature _ = false

-- `reason && reason[0] != '\0'`: the function of that name in safety.c, safety_policy.c and
-- safety_log.c.
abbrev pub reason_has_value : Reason → Bool
reason_has_value ok = false
reason_has_value _ = true

-- fan_state
pub record FanState : Type 0 where
  pub rpm : ℤ
  pub temp_c : ℤ
  pub sensor_temp_c : ℤ
  pub control_temp_c : ℤ
  pub control_sensor_temp_c : ℤ
  pub pending_spike_temp_c : ℤ
  pub pending_control_spike_temp_c : ℤ
  pub write_value : ℤ
  pub temp_available : Bool
  pub control_temp_available : Bool
  pub temp_seeded : Bool
  pub control_temp_seeded : Bool
  pub percent : ℤ
  pub requested_percent : ℤ
  pub critical_temp_samples : ℤ
  pub ec_read_failures : ℤ
  pub ec_write_failures : ℤ
  pub safety_active : Bool
  pub safety_reason : Reason

-- `requested_percent > 0 ? requested_percent : percent`, the target that a fan keeps.
abbrev pub kept_percent : FanState → ℤ
kept_percent s = if ltb_ℤ (pos 0) s.requested_percent then s.requested_percent else s.percent
