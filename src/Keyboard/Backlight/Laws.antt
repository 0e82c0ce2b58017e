-- ===== src/Keyboard/Backlight/Laws.antt =====
-- Percentages and register values of the backlight.
use acer_nitro_sense_linux.Config.Types.{KeyboardBacklightConfig}
use acer_nitro_sense_linux.Config.Valid.{IsWithin}
use acer_nitro_sense_linux.Keyboard.Backlight.{
  keyboard_backlight_percent_from_range, keyboard_backlight_value_from_percent,
}
use acer_nitro_sense_linux.Prelude.{
  Bool-cases, ap, arith, inl, inr, pos, refl, ℕ, ◌*ℤ◌, ◌*◌, ◌+ℤ◌, ◌+◌, ◌-ℤ◌, ◌-◌, ◌/ℤ◌, ◌<◌, ◌==◌,
  ◌∙◌, ◌≡◌, ◌≤◌,
}
use Prim.Native.Nat.{◌/◌}
use native.Mathlib.Nat.{mul-le-mul_right}

rounds_back_below : (r k : ℕ) → 0 < r → r < 100 → k ≤ r → ((k * 100 + r / 2) / r * r + 50) / 100 ≡ k
rounds_back_below r k p le h = omega arith

rounds_back_100 : (k : ℕ) → ((k * 100 + 100 / 2) / 100 * 100 + 50) / 100 ≡ k
rounds_back_100 k = omega arith

rounds_back : (r k : ℕ) → 0 < r → r ≤ 100 → k ≤ r → ((k * 100 + r / 2) / r * r + 50) / 100 ≡ k
rounds_back r k p le h = elim (Bool-cases (r == 100)) [
  | inl e ↦ let same : r ≡ 100 = ground arith in rw same (rounds_back_100 k)
  | inr e ↦ rounds_back_below r k p (ground arith) h
]

sub_pos : (a b : ℕ) → b ≤ a → pos a -ℤ pos b ≡ pos (a - b)
unfolding ◌-ℤ◌
sub_pos a b h = ground arith

add_pos : (a b : ℕ) → pos a +ℤ pos b ≡ pos (a + b)
unfolding ◌+ℤ◌
add_pos a b = ground arith

mul_pos : (a b : ℕ) → pos a *ℤ pos b ≡ pos (a * b)
unfolding ◌*ℤ◌
mul_pos a b = ground arith

div_pos : (a b : ℕ) → pos a /ℤ pos b ≡ pos (a / b)
unfolding ◌/ℤ◌
div_pos a b = ground arith

pub percent_of_value :
    (lo hi v : ℕ)
    → lo < hi
    → lo ≤ v
    → keyboard_backlight_percent_from_range (pos v) (pos lo) (pos hi)
      ≡ pos (((v - lo) * 100 + (hi - lo) / 2) / (hi - lo))
unfolding keyboard_backlight_percent_from_range
percent_of_value lo hi v h low =
    rw
      (
        sub_pos hi lo (omega arith),
        sub_pos v lo low,
        mul_pos (v - lo) 100,
        div_pos (hi - lo) 2,
        add_pos ((v - lo) * 100) ((hi - lo) / 2),
        div_pos ((v - lo) * 100 + (hi - lo) / 2) (hi - lo),
      )
      (ground arith)

pub value_of_percent :
    (cfg : KeyboardBacklightConfig) (lo hi p : ℕ)
    → cfg.min_value ≡ pos lo
    → cfg.max_value ≡ pos hi
    → lo < hi
    → keyboard_backlight_value_from_percent cfg (pos p) ≡ pos (lo + (p * (hi - lo) + 50) / 100)
unfolding keyboard_backlight_value_from_percent
value_of_percent cfg lo hi p at_lo at_hi h =
    rw
      (
        at_lo,
        at_hi,
        sub_pos hi lo (omega arith),
        mul_pos p (hi - lo),
        add_pos (p * (hi - lo)) 50,
        div_pos (p * (hi - lo) + 50) 100,
        add_pos lo ((p * (hi - lo) + 50) / 100),
      )
      refl

pub value_back :
    (cfg : KeyboardBacklightConfig) (lo hi v : ℕ)
    → cfg.min_value ≡ pos lo
    → cfg.max_value ≡ pos hi
    → lo < hi
    → hi ≤ lo + 100
    → lo ≤ v
    → v ≤ hi
    → keyboard_backlight_value_from_percent cfg (pos (((v - lo) * 100 + (hi - lo) / 2) / (hi - lo)))
      ≡ pos v
value_back cfg lo hi v at_lo at_hi h range low high =
    let p = ((v - lo) * 100 + (hi - lo) / 2) / (hi - lo) in
    let back = rounds_back (hi - lo) (v - lo) (omega arith) (omega arith) (omega arith) in
    value_of_percent cfg lo hi p at_lo at_hi h ∙ ap (λ n. pos n) (omega (arith, back))

-- In a register range of 1 to 100 steps, the percentage of a value in the range gives the value
-- back.
pub backlight_round_trip :
    (cfg : KeyboardBacklightConfig) (lo hi v : ℕ)
    → cfg.min_value ≡ pos lo
    → cfg.max_value ≡ pos hi
    → lo < hi
    → hi ≤ lo + 100
    → lo ≤ v
    → v ≤ hi
    → keyboard_backlight_value_from_percent cfg
        (keyboard_backlight_percent_from_range (pos v) cfg.min_value cfg.max_value)
      ≡ pos v
backlight_round_trip cfg lo hi v at_lo at_hi h range low high =
    let p = ((v - lo) * 100 + (hi - lo) / 2) / (hi - lo) in
    let percent : keyboard_backlight_percent_from_range (pos v) cfg.min_value cfg.max_value
        ≡ pos p =
      rw (at_lo, at_hi) (percent_of_value lo hi v h low) in
    rw percent (value_back cfg lo hi v at_lo at_hi h range low high)

-- A percentage of at most 100 gives a value in the register range, where its least value is below
-- its greatest.
pub value_of_percent_in :
    (cfg : KeyboardBacklightConfig) (lo hi p : ℕ)
    → cfg.min_value ≡ pos lo
    → cfg.max_value ≡ pos hi
    → lo < hi
    → p ≤ 100
    → IsWithin cfg.min_value cfg.max_value (keyboard_backlight_value_from_percent cfg (pos p))
value_of_percent_in cfg lo hi p at_lo at_hi h le =
    rw (value_of_percent cfg lo hi p at_lo at_hi h, at_lo, at_hi)
      (omega (arith, mul-le-mul_right (hi - lo) le))
