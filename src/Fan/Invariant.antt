-- ===== src/Fan/Invariant.antt =====
-- The invariant of a fan's state, on its counters, its speeds and its safety flag, and the rounds
-- of src/fan/control.c.
pub mod Requests
use acer_nitro_sense_linux.Config.Types.{AnsConfig, FanConfig, SafetyConfig}
use acer_nitro_sense_linux.Config.Valid.{IsValidFan, IsValidProfile, IsValidSafety, IsWithin}
use acer_nitro_sense_linux.Fan.Control.{
  Override, drive_fan, drive_fans, fan_target_percent, make_ready, report_percent,
  update_fan_states,
}
use acer_nitro_sense_linux.Fan.Observation.{
  Reading, count_critical, forced_by, observe_control_temp, observe_fan, observe_rpm, observe_temp,
  read_fan, refresh_fan_observations, refresh_fans,
}
use acer_nitro_sense_linux.Fan.Policy.{fan_safety_adjust_percent}
use acer_nitro_sense_linux.Fan.Policy.Laws.{adjust_percent}
use acer_nitro_sense_linux.Fan.Safety.{fan_update_safety_state, set_fan_percent}
use acer_nitro_sense_linux.Fan.State.{FanState, Reason, ok, reason_has_value}
use acer_nitro_sense_linux.Machine.{Machine}
use acer_nitro_sense_linux.Prelude.{All, Bool, Bytes, List, [], arith, pos, ℤ, ◌+ℤ◌, ◌∷◌, ◌≡◌}
use acer_nitro_sense_linux.Util.Number.{clamp_int_bounds}

pub record IsSound (safety : SafetyConfig) (s : FanState) : Type 0 where
  pub samples_in : IsWithin (pos 0) safety.critical_consecutive_samples s.critical_temp_samples
  pub read_failures_in : IsWithin (pos 0) (safety.max_ec_read_failures +ℤ pos 1) s.ec_read_failures
  pub write_failures_in :
      IsWithin (pos 0) (safety.max_ec_write_failures +ℤ pos 1) s.ec_write_failures
  pub percent_in : IsWithin (pos 0) (pos 100) s.percent
  pub requested_in : IsWithin (pos 0) (pos 100) s.requested_percent
  pub reason_agrees : s.safety_active ≡ reason_has_value s.safety_reason

observe_rpm-IsSound :
    (cfg : AnsConfig) (raw : ℤ) (s : FanState)
    → IsValidSafety cfg.critical_temperature_c cfg.safety
    → IsSound cfg.safety s
    → IsSound cfg.safety (observe_rpm cfg raw s)
unfolding observe_rpm
observe_rpm-IsSound cfg raw s v h = ground arith

count_critical-IsSound :
    (cfg : AnsConfig) (s : FanState)
    → IsValidSafety cfg.critical_temperature_c cfg.safety
    → IsSound cfg.safety s
    → IsSound cfg.safety (count_critical cfg s)
unfolding count_critical
count_critical-IsSound cfg s v h = ground arith

-- For valid safety settings, one round of readings keeps the invariant of the fan's state,
-- whatever the readings are.
pub observe_fan-IsSound :
    (cfg : AnsConfig) (r : Reading) (s : FanState)
    → IsValidSafety cfg.critical_temperature_c cfg.safety
    → IsSound cfg.safety s
    → IsSound cfg.safety (observe_fan cfg r s)
unfolding observe_fan observe_control_temp observe_temp
observe_fan-IsSound cfg r s v h =
    let seen = observe_rpm-IsSound cfg r.raw s v h in
    count_critical-IsSound cfg _ v (record {
      samples_in = seen.samples_in;
      read_failures_in = seen.read_failures_in;
      write_failures_in = seen.write_failures_in;
      percent_in = seen.percent_in;
      requested_in = seen.requested_in;
      reason_agrees = seen.reason_agrees;
    })

update-IsSound :
    (safety : SafetyConfig) (s : FanState) (r : Reason)
    → IsSound safety s
    → IsSound safety (fan_update_safety_state s r)
unfolding fan_update_safety_state
update-IsSound safety s r h = ground arith

module _ (M : Machine) where
  open M use {World}

  -- For a valid fan and valid safety settings, `set_fan_percent` keeps the invariant of the fan's
  -- state, whether the EC takes the write or not.
  pub set_fan_percent-IsSound :
      (cfg : AnsConfig) (fan : FanConfig) (s : FanState) (p : ℤ) (forced : Reason) (w : World)
      → IsValidSafety cfg.critical_temperature_c cfg.safety
      → IsValidFan fan
      → IsSound cfg.safety s
      → IsSound cfg.safety (set_fan_percent M cfg fan s p forced w).0
  unfolding set_fan_percent
  set_fan_percent-IsSound cfg fan s p forced w v vf h =
      ground (arith, adjust_percent cfg fan s p forced vf v, clamp_int_bounds p (pos 1) (pos 100))

  report_percent-IsSound :
      (safety : SafetyConfig) (s : FanState) (p : ℤ)
      → IsSound safety s
      → IsSound safety (report_percent s p)
  unfolding report_percent
  report_percent-IsSound safety s p h = ground (arith, clamp_int_bounds p (pos 1) (pos 100))

  drive_fan-IsSound :
      (cfg : AnsConfig) (fan : FanConfig) (firmware_auto : Bool) (forced : Reason) (p : ℤ)
      (o : Override) (s : FanState) (w : World)
      → IsValidSafety cfg.critical_temperature_c cfg.safety
      → IsValidFan fan
      → IsSound cfg.safety s
      → IsSound cfg.safety (drive_fan M cfg fan firmware_auto forced p o s w).0
  unfolding drive_fan
  drive_fan-IsSound cfg fan firmware_auto forced p o s w v vf h =
      let w1 = (make_ready M cfg o.ready w).1 in
      ground (
        arith,
        set_fan_percent-IsSound cfg fan s p forced w v vf h,
        set_fan_percent-IsSound cfg fan s p forced w1 v vf h,
        report_percent-IsSound cfg.safety s p h,
        update-IsSound cfg.safety s (fan_safety_adjust_percent cfg fan s p forced).reason h,
      )

  refresh_fans-IsSound :
      (cfg : AnsConfig) (fans : List FanConfig) (states : List FanState) (forced : Reason)
      (w : World)
      → IsValidSafety cfg.critical_temperature_c cfg.safety
      → All (IsSound cfg.safety) states
      → All (IsSound cfg.safety) (refresh_fans M cfg fans states forced w).0
  unfolding refresh_fans
  refresh_fans-IsSound cfg [] states forced w v h = h
  refresh_fans-IsSound cfg (fan ∷ fans) [] forced w v h = h
  refresh_fans-IsSound cfg (fan ∷ fans) (s ∷ states) forced w v (h, hs) =
      let (r, w1) = read_fan M cfg fan w in
      let s' = observe_fan cfg r s in
      (
        observe_fan-IsSound cfg r s v h,
        refresh_fans-IsSound cfg fans states (forced_by cfg s' forced) w1 v hs,
      )

  drive_fans-IsSound :
      (cfg : AnsConfig) (fans : List FanConfig) (firmware_auto auto_mode : Bool) (forced : Reason)
      (o : Override) (states : List FanState) (w : World)
      → IsValidSafety cfg.critical_temperature_c cfg.safety
      → All IsValidFan fans
      → All (IsSound cfg.safety) states
      → All (IsSound cfg.safety) (drive_fans M cfg fans firmware_auto auto_mode forced o states w).0
  unfolding drive_fans
  drive_fans-IsSound cfg [] firmware_auto auto_mode forced o states w v vf h = h
  drive_fans-IsSound cfg (fan ∷ fans) firmware_auto auto_mode forced o [] w v vf h = h
  drive_fans-IsSound cfg (fan ∷ fans) fa am forced o (s ∷ states) w v (vf, vfs) (h, hs) =
      let p = fan_target_percent cfg fan s am forced in
      let (s', o', w') = drive_fan M cfg fan fa forced p o s w in
      (
        drive_fan-IsSound cfg fan fa forced p o s w v vf h,
        drive_fans-IsSound cfg fans fa am forced o' states w' v vfs hs,
      )

  -- A round of the daemon keeps the invariant of every fan, for a valid profile, in every control
  -- mode, whatever the sensors and the EC answer.
  pub update_fan_states-IsSound :
      (cfg : AnsConfig) (states : List FanState) (auto_mode : Bool) (preset : Bytes) (w : World)
      → IsValidProfile cfg
      → All (IsSound cfg.safety) states
      → All (IsSound cfg.safety) (update_fan_states M cfg states auto_mode preset w).0
  unfolding update_fan_states refresh_fan_observations
  update_fan_states-IsSound cfg states auto_mode preset w v h =
      drive_fans-IsSound cfg cfg.fans _ auto_mode _ _ _ _ v.0 v.1
        (refresh_fans-IsSound cfg cfg.fans states ok w v.0 h)
