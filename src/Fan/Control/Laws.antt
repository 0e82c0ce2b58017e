-- ===== src/Fan/Control/Laws.antt =====
-- The fan curve: bounds, hysteresis, and monotonicity in the temperature.
use acer_nitro_sense_linux.Config.Types.{FanConfig, Threshold}
use acer_nitro_sense_linux.Config.Valid.{IsValidFan, IsValidThreshold, IsWithin}
use acer_nitro_sense_linux.Fan.Control.{curve_speed, first_speed, hold_speed, larger, select_speed}
use acer_nitro_sense_linux.Prelude.{
  All, Bool, List, [], arith, eq_of_parts, eqb_ℤ, false, if◌then◌else◌, leb_ℤ, pos, refl, true, ℤ,
  ◌&&◌, ◌∷◌, ◌≡◌, ◌≤ℤ◌, ◌⊎◌,
}

abbrev pub IsSpeed : ℤ → Type 0
IsSpeed p = IsWithin (pos 0) (pos 100) p

select-IsSpeed :
    (sel : ℤ) (curve : List Threshold) (temp : ℤ)
    → IsSpeed sel
    → All IsValidThreshold curve
    → IsSpeed (select_speed sel curve temp)
unfolding select_speed
select-IsSpeed sel [] temp h v = h
select-IsSpeed sel (t ∷ curve) temp h (v, vs) =
    select-IsSpeed (if leb_ℤ t.up temp then t.speed else sel) curve temp (ground arith) vs

hold-IsSpeed :
    (cur sel : ℤ) (curve : List Threshold) (temp : ℤ)
    → IsSpeed sel
    → All IsValidThreshold curve
    → IsSpeed (hold_speed cur sel curve temp)
unfolding hold_speed
hold-IsSpeed cur sel [] temp h v = h
hold-IsSpeed cur sel (t ∷ curve) temp h (v, vs) =
    ground (arith, hold-IsSpeed cur sel curve temp h vs, eq_of_parts t.speed cur)

first-IsSpeed : (curve : List Threshold) → All IsValidThreshold curve → IsSpeed (first_speed curve)
first-IsSpeed [] v = omega arith
first-IsSpeed (t ∷ curve) v = v.0.speed_in

-- The curve of a valid fan gives a speed from 0 to 100 at every temperature and every current
-- speed.
pub curve-IsSpeed :
    (fan : FanConfig) (temp cur : ℤ) → IsValidFan fan → IsSpeed (curve_speed fan temp cur)
unfolding curve_speed
curve-IsSpeed fan temp cur v =
    hold-IsSpeed cur _ fan.curve temp
      (select-IsSpeed _ fan.curve temp (first-IsSpeed fan.curve v.curve_in) v.curve_in) v.curve_in

-- A threshold that holds the current speed at this temperature.
abbrev pub Holds : ℤ → ℤ → List Threshold → Type 0
Holds cur temp [] = ⊥
Holds cur temp (t ∷ curve) = ((t.speed ≡ cur) × (t.down ≤ℤ temp)) ⊎ Holds cur temp curve

hold-ge : (cur sel : ℤ) (curve : List Threshold) (temp : ℤ) → sel ≤ℤ hold_speed cur sel curve temp
unfolding hold_speed
hold-ge cur sel [] temp = omega arith
hold-ge cur sel (t ∷ curve) temp = ground (arith, hold-ge cur sel curve temp)

-- Hysteresis: a fan that runs at the speed of a threshold does not slow down before the
-- temperature falls below the `down` of that threshold.
hold_current :
    (cur sel : ℤ) (curve : List Threshold) (temp : ℤ)
    → Holds cur temp curve
    → cur ≤ℤ hold_speed cur sel curve temp
unfolding hold_speed
hold_current cur sel [] temp h = absurd h
hold_current cur sel (t ∷ curve) temp h = ground (arith, hold_current cur sel curve temp)

-- A fan whose current speed is that of a threshold of its curve is not slowed down while the
-- temperature is at or above the `down` of that threshold.
pub curve_hysteresis :
    (fan : FanConfig) (temp cur : ℤ) → Holds cur temp fan.curve → cur ≤ℤ curve_speed fan temp cur
unfolding curve_speed
curve_hysteresis fan temp cur h = hold_current cur _ fan.curve temp h

-- The speeds rise along the curve, from `sel` on.
abbrev pub IsRising : ℤ → List Threshold → Type 0
IsRising sel [] = Unit
IsRising sel (t ∷ curve) = (sel ≤ℤ t.speed) × IsRising t.speed curve

IsRising-weaken : (x y : ℤ) (curve : List Threshold) → x ≤ℤ y → IsRising y curve → IsRising x curve
IsRising-weaken x y [] le h = tt
IsRising-weaken x y (t ∷ curve) le (h, r) = (omega arith, r)

select-mono :
    (x y : ℤ) (curve : List Threshold) (a b : ℤ)
    → x ≤ℤ y
    → IsRising y curve
    → a ≤ℤ b
    → select_speed x curve a ≤ℤ select_speed y curve b
unfolding select_speed
select-mono x y [] a b le h ab = le
select-mono x y (t ∷ curve) a b le (h, r) ab = ground (
  arith,
  select-mono x y curve a b le (IsRising-weaken y t.speed curve h r) ab,
  select-mono x t.speed curve a b (omega arith) r ab,
  select-mono t.speed t.speed curve a b (omega arith) r ab,
)

hold-le :
    (cur sel : ℤ) (curve : List Threshold) (temp : ℤ)
    → (hold_speed cur sel curve temp ≤ℤ cur) ⊎ (hold_speed cur sel curve temp ≤ℤ sel)
unfolding hold_speed
hold-le cur sel [] temp = omega arith
hold-le cur sel (t ∷ curve) temp = ground (arith, hold-le cur sel curve temp)

-- One threshold at two temperatures: if it holds at the first, it holds at the second.
held :
    (p q : Bool) (cur x y later_a later_b : ℤ)
    → (p ≡ true → q ≡ true)
    → x ≤ℤ y
    → (later_a ≤ℤ cur) ⊎ (later_a ≤ℤ x)
    → later_a ≤ℤ later_b
    → (if p then larger cur x else later_a) ≤ℤ (if q then larger cur y else later_b)
held true true cur x y la lb i h l le = ground arith
held true false cur x y la lb i h l le = cc (i refl)
held false true cur x y la lb i h l le = ground arith
held false false cur x y la lb i h l le = le

hold-mono :
    (cur x y : ℤ) (curve : List Threshold) (a b : ℤ)
    → x ≤ℤ y
    → a ≤ℤ b
    → hold_speed cur x curve a ≤ℤ hold_speed cur y curve b
unfolding hold_speed
hold-mono cur x y [] a b h le = h
hold-mono cur x y (t ∷ curve) a b h le =
    held (eqb_ℤ t.speed cur && leb_ℤ t.down a) (eqb_ℤ t.speed cur && leb_ℤ t.down b) cur x y _ _
      (λ e. ground arith) h (hold-le cur x curve a) (hold-mono cur x y curve a b h le)

-- On a curve whose speeds rise, a higher temperature never gives a lower speed, for the same
-- current speed.
pub curve-mono :
    (fan : FanConfig) (a b cur : ℤ)
    → IsRising (first_speed fan.curve) fan.curve
    → a ≤ℤ b
    → curve_speed fan a cur ≤ℤ curve_speed fan b cur
unfolding curve_speed
curve-mono fan a b cur h le =
    hold-mono cur _ _ fan.curve a b (select-mono _ _ fan.curve a b (omega arith) h le) le
