-- ===== src/Fan/Safety/Laws.antt =====
-- The ramp of automatic control, and the reason that all fans share.
use acer_nitro_sense_linux.Config.Types.{AnsConfig, FanConfig, SafetyConfig}
use acer_nitro_sense_linux.Config.Valid.{IsWithin}
use acer_nitro_sense_linux.Fan.Safety.{
  auto_ramp_bypass_temperature_reached, auto_ramped_percent, global_safety_reason,
  global_safety_reason_from,
}
use acer_nitro_sense_linux.Fan.State.{FanState, Reason, critical_temperature, kept_percent, ok}
use acer_nitro_sense_linux.Prelude.{
  All, List, [], arith, false, pos, refl, ℤ, ◌+ℤ◌, ◌<ℤ◌, ◌↔◌, ◌∷◌, ◌≡◌, ◌≤ℤ◌, ◌⊎◌,
}
use acer_nitro_sense_linux.Util.Number.{clamp_int}

-- From a speed that is not negative and not above the target, a ramp step ends between that speed
-- and the target, under any reason.
pub auto_ramped_bounds :
    (cfg : AnsConfig) (s : FanState) (target : ℤ) (forced : Reason)
    → pos 0 ≤ℤ kept_percent s
    → kept_percent s ≤ℤ target
    → IsWithin (kept_percent s) target (auto_ramped_percent cfg s target forced)
unfolding auto_ramped_percent clamp_int
auto_ramped_bounds cfg s target forced h k = ground arith

-- With a positive ramp step, no forced reason and no temperature that bypasses the ramp, one step
-- rises by at most the ramp step above a speed that is not negative.
pub auto_ramped_step :
    (cfg : AnsConfig) (s : FanState) (target : ℤ)
    → pos 0 ≤ℤ kept_percent s
    → pos 0 <ℤ cfg.safety.auto_ramp_up_percent
    → auto_ramp_bypass_temperature_reached cfg s ≡ false
    → auto_ramped_percent cfg s target ok ≤ℤ kept_percent s +ℤ cfg.safety.auto_ramp_up_percent
unfolding auto_ramped_percent clamp_int
auto_ramped_step cfg s target h k b = ground arith

-- With a positive ramp step and no forced reason, from a positive speed not above the target one
-- step stays in between and arrives or rises by the whole step, or more where a temperature
-- bypasses the ramp.
pub ramp_one :
    (cfg : AnsConfig) (s : FanState) (target : ℤ)
    → pos 0 <ℤ cfg.safety.auto_ramp_up_percent
    → pos 0 <ℤ kept_percent s
    → kept_percent s ≤ℤ target
    → let q = auto_ramped_percent cfg s target ok in
      (pos 0 <ℤ q)
      × (q ≤ℤ target)
      × ((q ≡ target) ⊎ (q ≡ kept_percent s +ℤ cfg.safety.auto_ramp_up_percent))
unfolding auto_ramped_percent clamp_int
ramp_one cfg s target k h le = ground arith

-- A fan that gives no reason to interfere with the others.
abbrev pub IsHealthy : SafetyConfig → FanState → Type 0
IsHealthy c s =
    (s.ec_read_failures <ℤ c.max_ec_read_failures)
    × (s.ec_write_failures <ℤ c.max_ec_write_failures)
    × (s.critical_temp_samples <ℤ c.critical_consecutive_samples)

-- The states of the fans that the profile has.
abbrev pub fan_states : List FanConfig → List FanState → List FanState
fan_states [] states = []
fan_states (fan ∷ fans) [] = []
fan_states (fan ∷ fans) (s ∷ states) = s ∷ fan_states fans states

global-ok-from :
    (c : SafetyConfig) (r : Reason) (fans : List FanConfig) (states : List FanState)
    → (global_safety_reason_from c r fans states ≡ ok)
      ↔ (r ≡ ok) × All (IsHealthy c) (fan_states fans states)
unfolding global_safety_reason_from
global-ok-from c r [] states = (λ e. (e, tt), λ h. h.0)
global-ok-from c r (fan ∷ fans) [] = (λ e. (e, tt), λ h. h.0)
global-ok-from c r (fan ∷ fans) (s ∷ states) =
    ground
      (arith, global-ok-from c critical_temperature fans states, global-ok-from c r fans states)

-- There is no global safety reason exactly when every fan of the profile is below its limits of
-- read failures, write failures and critical samples.
pub global_safety_reason_ok :
    (cfg : AnsConfig) (states : List FanState)
    → (global_safety_reason cfg states ≡ ok)
      ↔ All (IsHealthy cfg.safety) (fan_states cfg.fans states)
unfolding global_safety_reason
global_safety_reason_ok cfg states =
    let both = global-ok-from cfg.safety ok cfg.fans states in
    (λ e. (both.0 e).1, λ h. both.1 (refl, h))
