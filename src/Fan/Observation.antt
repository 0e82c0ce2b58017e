-- ===== src/Fan/Observation.antt =====
-- fan/observation.c: one sample of every sensor of a fan. The texts that name a sensor in the log
-- are left out.
pub mod Laws
use acer_nitro_sense_linux.Config.Types.{AnsConfig, FanConfig}
use acer_nitro_sense_linux.Ec.Word.{ec_read_word}
use acer_nitro_sense_linux.Fan.Filter.{fan_filtered_sensor_temp}
use acer_nitro_sense_linux.Fan.State.{
  FanState, Reason, critical_temperature, ec_read_failure, ok, reason_has_value,
}
use acer_nitro_sense_linux.Machine.{Machine}
use acer_nitro_sense_linux.Prelude.{
  Bool, Bytes, List, [], false, if◌then◌else◌, leb_ℤ, ltb_ℤ, minus_one, not, pos, str_eq,
  text_has_value, true, ℤ, ◌&&◌, ◌+ℤ◌, ◌||◌, ◌∷◌,
}

-- What one reading of a temperature leaves in the state: of `temp_c` and its companions, and of
-- `control_temp_c` and its companions, by the same text of the source.
pub record Track : Type 0 where
  pub temp : ℤ
  pub pending : ℤ
  pub available : Bool
  pub seeded : Bool

unfoldable pub unknown_temp : ℤ → ℤ
unknown_temp temp = if leb_ℤ temp (pos 0) then minus_one else temp

unfoldable pub track_temp : ℤ → ℤ → Track → Track
unfolding unknown_temp
track_temp critical_temperature_c sensor_temp t =
    let f = fan_filtered_sensor_temp t.temp t.pending sensor_temp t.seeded critical_temperature_c in
    if leb_ℤ (pos 0) sensor_temp
    then (if leb_ℤ (pos 0) f.result
        then record { temp = f.result; pending = f.pending; available = true; seeded = true }
        else record {
          temp = unknown_temp t.temp;
          pending = f.pending;
          available = false;
          seeded = t.seeded;
        })
    else record t { temp = unknown_temp t.temp; available = false }

-- The fields that a component reading and a control reading work on.
abbrev pub component_track : FanState → Track
component_track s = record {
  temp = s.temp_c;
  pending = s.pending_spike_temp_c;
  available = s.temp_available;
  seeded = s.temp_seeded;
}

abbrev pub control_track : FanState → Track
control_track s = record {
  temp = s.control_temp_c;
  pending = s.pending_control_spike_temp_c;
  available = s.control_temp_available;
  seeded = s.control_temp_seeded;
}

unfoldable pub observe_temp : AnsConfig → ℤ → FanState → FanState
observe_temp cfg sensor_temp s =
    let t = track_temp cfg.critical_temperature_c sensor_temp (component_track s) in
    record s {
      sensor_temp_c = sensor_temp;
      temp_c = t.temp;
      pending_spike_temp_c = t.pending;
      temp_available = t.available;
      temp_seeded = t.seeded;
    }

unfoldable pub observe_control_temp : AnsConfig → ℤ → FanState → FanState
observe_control_temp cfg sensor_temp s =
    let t = track_temp cfg.critical_temperature_c sensor_temp (control_track s) in
    record s {
      control_sensor_temp_c = sensor_temp;
      control_temp_c = t.temp;
      pending_control_spike_temp_c = t.pending;
      control_temp_available = t.available;
      control_temp_seeded = t.seeded;
    }

unfoldable pub observe_rpm : AnsConfig → ℤ → FanState → FanState
unfolding ◌+ℤ◌
observe_rpm cfg raw s =
    if ltb_ℤ raw (pos 0)
    then record s {
      rpm = minus_one;
      ec_read_failures =
          if ltb_ℤ s.ec_read_failures (cfg.safety.max_ec_read_failures +ℤ pos 1)
          then s.ec_read_failures +ℤ pos 1
          else s.ec_read_failures;
    }
    else record s { rpm = raw; ec_read_failures = pos 0 }

unfoldable pub count_critical : AnsConfig → FanState → FanState
unfolding ◌+ℤ◌
count_critical cfg s =
    if s.control_temp_available && leb_ℤ cfg.critical_temperature_c s.control_temp_c
    then (if ltb_ℤ s.critical_temp_samples cfg.safety.critical_consecutive_samples
        then record s { critical_temp_samples = s.critical_temp_samples +ℤ pos 1 }
        else s)
    else if s.control_temp_available
        && leb_ℤ s.control_temp_c cfg.safety.critical_release_temperature_c
    then record s { critical_temp_samples = pos 0 }
    else s

-- `forced_reason` after a fan, from the one before it.
unfoldable pub forced_by : AnsConfig → FanState → Reason → Reason
forced_by cfg s forced =
    if leb_ℤ cfg.safety.max_ec_read_failures s.ec_read_failures
    then ec_read_failure
    else if leb_ℤ cfg.safety.critical_consecutive_samples s.critical_temp_samples
        && not (reason_has_value forced)
    then critical_temperature
    else forced

-- The five readings that one round of the loop makes of a fan.
pub record Reading : Type 0 where
  pub raw : ℤ
  pub write_value : ℤ
  pub sensor_temp : ℤ
  pub control_sensor_temp : ℤ

-- What a round makes of its readings.
unfoldable pub observe_fan : AnsConfig → Reading → FanState → FanState
observe_fan cfg r s =
    let s1 = observe_rpm cfg r.raw s in
    let s2 = record s1 { write_value = r.write_value } in
    let s3 = observe_temp cfg r.sensor_temp s2 in
    let s4 = observe_control_temp cfg r.control_sensor_temp s3 in count_critical cfg s4

unfoldable pub uses_control_group : FanConfig → Bool
uses_control_group fan =
    text_has_value fan.control_sensor_group
    && not (str_eq fan.control_sensor_group fan.sensor_group)

module _ (M : Machine) where
  open M use {World, ec_read_byte, sensor_read_group_max_c}

  unfoldable pub read_ec_temperature_c : ℤ → World → ℤ × World
  read_ec_temperature_c reg w =
      let (temp, w1) = if leb_ℤ (pos 0) reg then ec_read_byte reg w else (minus_one, w) in
      if leb_ℤ temp (pos 0) || ltb_ℤ (pos 130) temp then (minus_one, w1) else (temp, w1)

  -- The EC temperature if there is one, and the sensors of the group otherwise.
  unfoldable pub fallback_to_group : ℤ → Bytes → World → ℤ × World
  fallback_to_group ec_temp group w =
      if leb_ℤ (pos 0) ec_temp then (ec_temp, w) else sensor_read_group_max_c group w

  unfoldable pub read_raw : AnsConfig → FanConfig → World → ℤ × World
  read_raw cfg fan w =
      if cfg.read_words
      then ec_read_word M fan.read_register w
      else ec_read_byte fan.read_register w

  -- `control_sensor_temp`, from its EC temperature and `sensor_temp`.
  unfoldable pub read_control_temp : FanConfig → ℤ → ℤ → World → ℤ × World
  read_control_temp fan ec_temp sensor_temp w =
      if leb_ℤ (pos 0) ec_temp
      then (ec_temp, w)
      else if uses_control_group fan
      then sensor_read_group_max_c fan.control_sensor_group w
      else (sensor_temp, w)

  unfoldable pub read_fan : AnsConfig → FanConfig → World → Reading × World
  read_fan cfg fan w =
      let (raw, w1) = read_raw cfg fan w in
      let (write_value, w2) = ec_read_byte fan.write_register w1 in
      let (ec_temp, w3) = read_ec_temperature_c fan.temperature_register w2 in
      let (sensor_temp, w4) = fallback_to_group ec_temp fan.sensor_group w3 in
      let (ec_control, w5) = read_ec_temperature_c fan.control_temperature_register w4 in
      let (control_temp, w6) = read_control_temp fan ec_control sensor_temp w5 in
      (
        record {
          raw = raw;
          write_value = write_value;
          sensor_temp = sensor_temp;
          control_sensor_temp = control_temp;
        },
        w6,
      )

  -- The loop, with `forced_reason` so far. C has a state for every fan; the model stops where
  -- one is missing.
  unfoldable pub refresh_fans :
      AnsConfig → List FanConfig → List FanState → Reason → World → List FanState × Reason × World
  refresh_fans cfg [] states forced w = (states, forced, w)
  refresh_fans cfg (fan ∷ fans) [] forced w = ([], forced, w)
  refresh_fans cfg (fan ∷ fans) (s ∷ states) forced w =
      let (r, w1) = read_fan cfg fan w in
      let s' = observe_fan cfg r s in
      let (states', forced', w') = refresh_fans cfg fans states (forced_by cfg s' forced) w1 in
      (s' ∷ states', forced', w')

  unfoldable pub refresh_fan_observations :
      AnsConfig → List FanState → World → List FanState × Reason × World
  refresh_fan_observations cfg states w = refresh_fans cfg cfg.fans states ok w
