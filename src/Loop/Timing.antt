-- ===== src/Loop/Timing.antt =====
-- The deadline of `select`.
use acer_nitro_sense_linux.Loop.Step.{timeout_from_ms}
use acer_nitro_sense_linux.Prelude.{
  arith, if◌then◌else◌, ltb_ℤ, pos, pos_part, ℕ, ℤ, ◌%◌, ◌*◌, ◌+◌, ◌/◌, ◌<◌, ◌≡◌,
}

time_left : (ms : ℤ) → (if ltb_ℤ ms (pos 0) then 0 else pos_part ms) ≡ pos_part ms
time_left ms = ground arith

split_thousands :
    (n : ℕ) → (n / 1000 * 1000000 + n % 1000 * 1000 ≡ n * 1000) × (n % 1000 * 1000 < 1000000)
split_thousands n = omega arith

-- The timeout of `select` is the time that is left in milliseconds, or zero if the deadline is
-- past, and its microseconds are less than a second.
pub timeout_exact :
    (ms : ℤ)
    → let (seconds, micros) = timeout_from_ms ms in
      (seconds * 1000000 + micros ≡ pos_part ms * 1000) × (micros < 1000000)
unfolding timeout_from_ms
timeout_exact ms = rw (time_left ms) (split_thousands (pos_part ms))
