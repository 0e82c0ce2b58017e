-- ===== src/Util/Number.antt =====
-- util/number.c: range clamping.
use acer_nitro_sense_linux.Prelude.{arith, if◌then◌else◌, ltb_ℤ, ℤ, ◌<ℤ◌, ◌≡◌, ◌≤ℤ◌}

unfoldable pub clamp_int : ℤ → ℤ → ℤ → ℤ
clamp_int value lo hi = if ltb_ℤ value lo then lo else if ltb_ℤ hi value then hi else value

-- What the callers use of a clamp into a range that is not empty.
pub clamp_int_bounds :
    (value lo hi : ℤ) → lo ≤ℤ hi → (lo ≤ℤ clamp_int value lo hi) × (clamp_int value lo hi ≤ℤ hi)
unfolding clamp_int
clamp_int_bounds value lo hi h = ground arith

pub clamp_int_mono : (a b lo hi : ℤ) → lo ≤ℤ hi → a ≤ℤ b → clamp_int a lo hi ≤ℤ clamp_int b lo hi
unfolding clamp_int
clamp_int_mono a b lo hi h k = ground arith

pub clamp_int_id : (value lo hi : ℤ) → lo ≤ℤ value → value ≤ℤ hi → clamp_int value lo hi ≡ value
unfolding clamp_int
clamp_int_id value lo hi h k = ground arith

pub clamp_int_above : (value lo hi : ℤ) → lo ≤ℤ hi → hi <ℤ value → clamp_int value lo hi ≡ hi
unfolding clamp_int
clamp_int_above value lo hi h k = ground arith
