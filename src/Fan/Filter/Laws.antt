-- ===== src/Fan/Filter/Laws.antt =====
-- What the spike filter lets through, over one sample and over two.
use acer_nitro_sense_linux.Fan.Filter.{confirm_jump, fan_filtered_sensor_temp}
use acer_nitro_sense_linux.Prelude.{
  +ℤ_parts, Bool, abs, arith, false, inl, inr, minus_one, pos, ℤ, ◌+ℤ◌, ◌-ℤ◌, ◌<ℤ◌, ◌↔◌, ◌≡◌, ◌≢◌,
  ◌≤ℤ◌, ◌⊎◌, -ℤ_parts,
}

-- A sample that the filter treats as a jump over the baseline.
abbrev pub IsJump : ℤ → Bool → ℤ → ℤ → Type 0
IsJump current trusted critical sensor =
    ((trusted ≡ false) × (critical ≤ℤ sensor)) ⊎ (pos 0 <ℤ current) × (current +ℤ pos 15 ≤ℤ sensor)

abbrev pub IsClose : ℤ → ℤ → Type 0
IsClose a b = (a ≤ℤ b +ℤ pos 3) × (b ≤ℤ a +ℤ pos 3)

confirm_jump-pending :
    (pending sensor fallback : ℤ)
    → let p = (confirm_jump pending sensor fallback).pending in (p ≡ pos 0) ⊎ (p ≡ sensor)
unfolding confirm_jump
confirm_jump-pending pending sensor fallback = ground arith

confirm_jump-result :
    (pending sensor fallback : ℤ)
    → fallback <ℤ sensor
    → ((confirm_jump pending sensor fallback).result ≡ sensor)
      ↔ (pos 0 <ℤ pending) × IsClose pending sensor
unfolding confirm_jump abs ◌-ℤ◌ ◌+ℤ◌
confirm_jump-result pending sensor fallback h = ground arith

filter-pending :
    (cur pend s critical : ℤ) (t : Bool)
    → let p = (fan_filtered_sensor_temp cur pend s t critical).pending in (p ≡ pos 0) ⊎ (p ≡ s)
unfolding fan_filtered_sensor_temp
filter-pending cur pend s critical t =
    ground (arith, confirm_jump-pending pend s minus_one, confirm_jump-pending pend s cur)

filter_jump :
    (cur pend s critical : ℤ) (t : Bool)
    → IsJump cur t critical s
    → pos 0 ≤ℤ s
    → cur <ℤ s
    → ((fan_filtered_sensor_temp cur pend s t critical).result ≡ s)
      ↔ (pos 0 <ℤ pend) × IsClose pend s
unfolding fan_filtered_sensor_temp
filter_jump cur pend s critical t j p lt = ground (
  arith,
  -ℤ_parts s cur,
  +ℤ_parts cur (pos 15),
  confirm_jump-result pend s minus_one,
  confirm_jump-result pend s cur,
)

-- The filter never answers with more than the sample, if the sample is not negative.
pub filter-le-sample :
    (current pending sensor critical : ℤ) (trusted : Bool)
    → pos 0 ≤ℤ sensor
    → (fan_filtered_sensor_temp current pending sensor trusted critical).result ≤ℤ sensor
unfolding fan_filtered_sensor_temp confirm_jump
filter-le-sample current pending sensor critical trusted h = ground arith

-- Over two samples, the second not negative and above the baseline: if the second is a jump over
-- the baseline that the filter accepts, the first was within 3 degrees of it, whatever the
-- baseline and the pending sample were at the first.
pub jump_confirmed :
    (cur1 pend s1 cur2 s2 critical : ℤ) (t1 t2 : Bool)
    → IsJump cur2 t2 critical s2
    → pos 0 ≤ℤ s2
    → cur2 <ℤ s2
    → (fan_filtered_sensor_temp cur2
        (fan_filtered_sensor_temp cur1 pend s1 t1 critical).pending
        s2
        t2
        critical).result
      ≡ s2
    → IsClose s1 s2
jump_confirmed cur1 pend s1 cur2 s2 critical t1 t2 j p lt e =
    let q = (filter_jump cur2 _ s2 critical t2 j p lt).0 e in
    elim (filter-pending cur1 pend s1 critical t1) [
      | inl z ↦ let none_pending : pos 0 <ℤ pos 0 = rw z at q.0 in absurd (omega arith)
      | inr z ↦ rw z at q.1
    ]

-- The filter answers with the sample, with the baseline, or with -1.
pub filter-cases :
    (cur pend s critical : ℤ) (t : Bool)
    → let r = (fan_filtered_sensor_temp cur pend s t critical).result in
      (r ≡ s) ⊎ (r ≡ cur) ⊎ (r ≡ minus_one)
unfolding fan_filtered_sensor_temp confirm_jump
filter-cases cur pend s critical t = ground arith

confirm_jump-close :
    (pending sensor fallback : ℤ)
    → pos 0 <ℤ pending
    → IsClose pending sensor
    → (confirm_jump pending sensor fallback).result ≡ sensor
unfolding confirm_jump abs ◌-ℤ◌ ◌+ℤ◌
confirm_jump-close pending sensor fallback h c = ground arith

filter-close :
    (cur pend s critical : ℤ) (t : Bool)
    → pos 0 <ℤ pend
    → IsClose pend s
    → (fan_filtered_sensor_temp cur pend s t critical).result ≡ s
unfolding fan_filtered_sensor_temp
filter-close cur pend s critical t h c =
    ground (arith, confirm_jump-close pend s minus_one, confirm_jump-close pend s cur)

filter-held :
    (cur pend s critical : ℤ) (t : Bool)
    → (fan_filtered_sensor_temp cur pend s t critical).result ≢ s
    → (fan_filtered_sensor_temp cur pend s t critical).pending ≡ s
unfolding fan_filtered_sensor_temp confirm_jump
filter-held cur pend s critical t held = ground arith

-- If the filter does not answer with a positive sample, it accepts a next sample within 3 degrees
-- of that one, whatever the baseline is by then.
pub held_then_accepted :
    (cur1 pend s1 cur2 s2 critical : ℤ) (t1 t2 : Bool)
    → pos 0 <ℤ s1
    → (fan_filtered_sensor_temp cur1 pend s1 t1 critical).result ≢ s1
    → IsClose s1 s2
    → (fan_filtered_sensor_temp cur2
        (fan_filtered_sensor_temp cur1 pend s1 t1 critical).pending
        s2
        t2
        critical).result
      ≡ s2
held_then_accepted cur1 pend s1 cur2 s2 critical t1 t2 p held close =
    rw (filter-held cur1 pend s1 critical t1 held) (filter-close cur2 s1 s2 critical t2 p close)
