-- ===== src/Config/Valid.antt =====
-- The ranges that the parsers of src/config/safety.c and src/config/fans.c check.
use acer_nitro_sense_linux.Config.Types.{AnsConfig, FanConfig, SafetyConfig, Threshold}
use acer_nitro_sense_linux.Prelude.{All, minus_one, pos, ℤ, ◌-ℤ◌, ◌<ℤ◌, ◌≡◌, ◌≤ℤ◌, ◌⊎◌}

abbrev pub IsWithin : ℤ → ℤ → ℤ → Type 0
IsWithin lo hi v = (lo ≤ℤ v) × (v ≤ℤ hi)

-- Without a safety section the release temperature is 5 degrees below the critical one, however
-- low that is.
unfoldable pub IsRelease : ℤ → ℤ → Type 0
IsRelease critical_temperature_c release =
    (pos 1 ≤ℤ release) ⊎ (release ≡ critical_temperature_c -ℤ pos 5)

-- The range of the critical temperature, and the clamps of `parse_safety_policy`.
pub record IsValidSafety (critical_temperature_c : ℤ) (s : SafetyConfig) : Type 0 where
  pub critical_in : IsWithin (pos 1) (pos 130) critical_temperature_c
  pub min_speed_temperature_in : IsWithin (pos 1) (pos 130) s.min_speed_temperature_c
  pub bypass_in : IsWithin (pos 0) critical_temperature_c s.auto_ramp_bypass_temperature_c
  pub release_least : IsRelease critical_temperature_c s.critical_release_temperature_c
  pub min_speed_in : IsWithin (pos 1) (pos 100) s.min_speed_percent
  pub critical_speed_in : IsWithin (pos 1) (pos 100) s.critical_speed_percent
  pub critical_step_in : IsWithin (pos 1) (pos 100) s.critical_step_percent
  pub critical_samples_in : IsWithin (pos 1) (pos 10) s.critical_consecutive_samples
  pub release_in : s.critical_release_temperature_c ≤ℤ critical_temperature_c
  pub ramp_in : IsWithin (pos 0) (pos 100) s.auto_ramp_up_percent
  pub missing_in : IsWithin (pos 1) (pos 100) s.missing_temperature_speed_percent
  pub read_failures_in : IsWithin (pos 1) (pos 100) s.max_ec_read_failures
  pub write_failures_in : IsWithin (pos 1) (pos 100) s.max_ec_write_failures

pub record IsValidThreshold (t : Threshold) : Type 0 where
  pub down_le_up : t.down ≤ℤ t.up
  pub down_in : IsWithin (pos 0) (pos 130) t.down
  pub up_in : IsWithin (pos 0) (pos 130) t.up
  pub speed_in : IsWithin (pos 0) (pos 100) t.speed

-- A register that the profile names is a byte.
abbrev pub IsRegister : ℤ → Type 0
IsRegister = IsWithin (pos 0) (pos 255)

-- A register that the profile may leave out.
unfoldable pub IsOptionalRegister : ℤ → Type 0
IsOptionalRegister reg = (reg ≡ minus_one) ⊎ IsRegister reg

pub record IsValidFan (f : FanConfig) : Type 0 where
  pub read_register_in : IsRegister f.read_register
  pub write_register_in : IsRegister f.write_register
  pub temperature_register_in : IsOptionalRegister f.temperature_register
  pub control_register_in : IsOptionalRegister f.control_temperature_register
  pub read_min_in : pos 0 ≤ℤ f.read_min
  pub read_range : f.read_min <ℤ f.read_max
  pub write_min_in : pos 0 ≤ℤ f.write_min
  pub write_max_in : f.write_max ≤ℤ pos 100
  pub write_range : f.write_min <ℤ f.write_max
  pub reset_in : IsWithin f.write_min f.write_max f.reset_speed
  pub missing_in : IsWithin (pos 0) (pos 100) f.missing_temperature_speed_percent
  pub curve_in : All IsValidThreshold f.curve

abbrev pub IsValidProfile : AnsConfig → Type 0
IsValidProfile cfg = IsValidSafety cfg.critical_temperature_c cfg.safety × All IsValidFan cfg.fans
