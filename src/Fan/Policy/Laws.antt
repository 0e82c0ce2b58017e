-- ===== src/Fan/Policy/Laws.antt =====
-- The bounds, the direction and the priorities of the safety policy.
use acer_nitro_sense_linux.Config.Types.{AnsConfig, FanConfig}
use acer_nitro_sense_linux.Config.Valid.{IsValidFan, IsValidSafety, IsWithin}
use acer_nitro_sense_linux.Fan.Policy.{
  critical_safety_percent, fan_safety_adjust_percent, missing_temperature_percent,
}
use acer_nitro_sense_linux.Fan.State.{FanState, Reason, critical_temperature, ec_write_failure, ok}
use acer_nitro_sense_linux.Prelude.{
  +ℤ_parts, arith, false, pos, true, ℤ, ◌+ℤ◌, ◌<ℤ◌, ◌↔◌, ◌≡◌, ◌≢◌, ◌≤ℤ◌, ◌⊎◌,
}
use acer_nitro_sense_linux.Util.Number.{clamp_int, clamp_int_bounds, clamp_int_mono}

abbrev pub IsWritable : FanConfig → ℤ → Type 0
IsWritable fan p = IsWithin fan.write_min fan.write_max p

critical-IsWritable :
    (cfg : AnsConfig) (fan : FanConfig) (p : ℤ) (r : Reason)
    → IsValidFan fan
    → IsWritable fan (critical_safety_percent cfg fan p r)
unfolding critical_safety_percent
critical-IsWritable cfg fan p r v = ground (
  arith,
  clamp_int_bounds (p +ℤ cfg.safety.critical_step_percent) fan.write_min fan.write_max,
  clamp_int_bounds cfg.safety.critical_speed_percent fan.write_min fan.write_max,
)

critical-mono :
    (cfg : AnsConfig) (fan : FanConfig) (p q : ℤ) (r : Reason)
    → IsValidFan fan
    → p ≤ℤ q
    → critical_safety_percent cfg fan p r ≤ℤ critical_safety_percent cfg fan q r
unfolding critical_safety_percent
critical-mono cfg fan p q r v h = ground (
  arith,
  +ℤ_parts p cfg.safety.critical_step_percent,
  +ℤ_parts q cfg.safety.critical_step_percent,
  clamp_int_mono (p +ℤ cfg.safety.critical_step_percent) (q +ℤ cfg.safety.critical_step_percent)
      fan.write_min fan.write_max,
)

-- For a valid fan with a control temperature at hand, or with a reason to force the speed, the
-- policy answers a speed in the write range of the fan.
pub adjust-IsWritable :
    (cfg : AnsConfig) (fan : FanConfig) (s : FanState) (p : ℤ) (forced : Reason)
    → IsValidFan fan
    → (s.control_temp_available ≡ true) ⊎ (forced ≢ ok)
    → IsWritable fan (fan_safety_adjust_percent cfg fan s p forced).percent
unfolding fan_safety_adjust_percent
adjust-IsWritable cfg fan s p forced v h =
    let q = clamp_int p (pos 1) (pos 100) in
    ground (
      arith,
      critical-IsWritable cfg fan q forced v,
      critical-IsWritable cfg fan q ec_write_failure v,
      critical-IsWritable cfg fan q critical_temperature v,
      clamp_int_bounds q fan.write_min fan.write_max,
      clamp_int_bounds cfg.safety.min_speed_percent fan.write_min fan.write_max,
    )

-- For a valid fan and valid safety settings, the speed that the policy answers lies between 0 and
-- 100 in every case.
pub adjust_percent :
    (cfg : AnsConfig) (fan : FanConfig) (s : FanState) (p : ℤ) (forced : Reason)
    → IsValidFan fan
    → IsValidSafety cfg.critical_temperature_c cfg.safety
    → IsWithin (pos 0) (pos 100) (fan_safety_adjust_percent cfg fan s p forced).percent
unfolding fan_safety_adjust_percent
adjust_percent cfg fan s p forced v safe =
    let q = clamp_int p (pos 1) (pos 100) in
    ground (
      arith,
      critical-IsWritable cfg fan q forced v,
      critical-IsWritable cfg fan q ec_write_failure v,
      critical-IsWritable cfg fan q critical_temperature v,
      clamp_int_bounds p (pos 1) (pos 100),
      clamp_int_bounds q fan.write_min fan.write_max,
      clamp_int_bounds cfg.safety.min_speed_percent fan.write_min fan.write_max,
    )

-- For a valid fan, a higher request never gets a lower speed from the policy, in the same state
-- and under the same forced reason.
pub adjust-mono :
    (cfg : AnsConfig) (fan : FanConfig) (s : FanState) (a b : ℤ) (forced : Reason)
    → IsValidFan fan
    → a ≤ℤ b
    → (fan_safety_adjust_percent cfg fan s a forced).percent
      ≤ℤ (fan_safety_adjust_percent cfg fan s b forced).percent
unfolding fan_safety_adjust_percent
adjust-mono cfg fan s a b forced v h =
    let p = clamp_int a (pos 1) (pos 100) in
    let q = clamp_int b (pos 1) (pos 100) in
    ground (
      arith,
      clamp_int_mono a b (pos 1) (pos 100),
      critical-mono cfg fan p q forced v,
      critical-mono cfg fan p q ec_write_failure v,
      critical-mono cfg fan p q critical_temperature v,
      clamp_int_mono p q fan.write_min fan.write_max,
      clamp_int_mono cfg.safety.min_speed_percent q fan.write_min fan.write_max,
    )

-- The conditions under which the policy lets a request `p` through.
pub record IsNormal (cfg : AnsConfig) (fan : FanConfig) (s : FanState) (p : ℤ) (forced : Reason)
    : Type 0 where
  pub not_forced : forced ≡ ok
  pub writes_work : s.ec_write_failures <ℤ cfg.safety.max_ec_write_failures
  pub not_critical :
      s.control_temp_available ≡ true
      → s.critical_temp_samples <ℤ cfg.safety.critical_consecutive_samples
  pub not_slow :
      s.control_temp_available ≡ true
      → cfg.safety.min_speed_temperature_c ≤ℤ s.control_temp_c
      → cfg.safety.min_speed_percent ≤ℤ p
  pub not_blind : s.control_temp_available ≡ false → missing_temperature_percent cfg fan ≤ℤ p

-- The policy gives no reason exactly when no reason is forced, the write failures are below their
-- limit, and the request, clamped to 1 to 100, is high enough: with a control temperature, the
-- critical samples are below their limit and the request is not below the minimum speed where
-- that applies; without one, it is not below the fallback speed.
pub adjust_ok :
    (cfg : AnsConfig) (fan : FanConfig) (s : FanState) (p : ℤ) (forced : Reason)
    → ((fan_safety_adjust_percent cfg fan s p forced).reason ≡ ok)
      ↔ IsNormal cfg fan s (clamp_int p (pos 1) (pos 100)) forced
unfolding fan_safety_adjust_percent
adjust_ok cfg fan s p forced = ground arith
