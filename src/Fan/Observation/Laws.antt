-- ===== src/Fan/Observation/Laws.antt =====
-- The critical counter and the tracks of the temperatures, over several rounds.
use acer_nitro_sense_linux.Config.Types.{AnsConfig}
use acer_nitro_sense_linux.Fan.Filter.{fan_filtered_sensor_temp}
use acer_nitro_sense_linux.Fan.Filter.Laws.{IsClose, filter-cases, jump_confirmed}
use acer_nitro_sense_linux.Fan.Observation.{Track, count_critical, track_temp, unknown_temp}
use acer_nitro_sense_linux.Fan.State.{FanState}
use acer_nitro_sense_linux.Prelude.{
  +ℤ_parts, All, Bool, List, [], arith, false, if◌then◌else◌, inr, leb_ℤ, pos, suc, ℕ, ℤ, ◌&&◌,
  ◌+ℤ◌, ◌+◌, ◌<ℤ◌, ◌∙◌, ◌∷◌, ◌≡◌, ◌≤ℤ◌, ◌≤◌, ◌⊎◌,
}
use Prim.Native.Nat.{min}

track-cases :
    (critical sample : ℤ) (t : Track)
    → pos 0 ≤ℤ sample
    → pos 0 <ℤ t.temp
    → let t' = track_temp critical sample t in (t'.temp ≡ sample) ⊎ (t'.temp ≡ t.temp)
unfolding track_temp unknown_temp
track-cases critical sample t h k =
    ground (arith, filter-cases t.temp t.pending sample critical t.seeded)

track-pending :
    (critical sample : ℤ) (t : Track)
    → pos 0 ≤ℤ sample
    → (track_temp critical sample t).pending
      ≡ (fan_filtered_sensor_temp t.temp t.pending sample t.seeded critical).pending
unfolding track_temp
track-pending critical sample t h = ground arith

track_rise :
    (critical sample : ℤ) (t : Track)
    → pos 0 ≤ℤ sample
    → pos 0 <ℤ t.temp
    → t.temp +ℤ pos 15 ≤ℤ (track_temp critical sample t).temp
    → ((track_temp critical sample t).temp ≡ sample)
      × ((fan_filtered_sensor_temp t.temp t.pending sample t.seeded critical).result ≡ sample)
unfolding track_temp unknown_temp
track_rise critical sample t h k rise =
    ground (arith, +ℤ_parts t.temp (pos 15), filter-cases t.temp t.pending sample critical t.seeded)

-- Over two samples that are not negative: if the tracked temperature is positive after the first
-- and at least 15 degrees higher after the second, it is the second sample, and the first was
-- within 3 degrees of it.
pub track_jump_confirmed :
    (critical s1 s2 : ℤ) (t : Track)
    → pos 0 ≤ℤ s1
    → pos 0 ≤ℤ s2
    → let t1 = track_temp critical s1 t in
      let t2 = track_temp critical s2 t1 in
      pos 0 <ℤ t1.temp → t1.temp +ℤ pos 15 ≤ℤ t2.temp → (t2.temp ≡ s2) × IsClose s1 s2
track_jump_confirmed critical s1 s2 t p1 p2 live rise =
    let t1 = track_temp critical s1 t in
    let r = track_rise critical s2 t1 p2 live rise in
    let up : t1.temp +ℤ pos 15 ≤ℤ s2 = rw r.0 at rise in
    (
      r.0,
      jump_confirmed t.temp t.pending s1 t1.temp s2 critical t.seeded t1.seeded (inr (live, up)) p2
          (omega (arith, +ℤ_parts t1.temp (pos 15))) (rw (track-pending critical s1 t p1) at r.1),
    )

-- What a round shows the counter: whether there is a control temperature, and which.
abbrev pub Sample : Type 0
Sample = Bool × ℤ

unfoldable pub count_rounds : AnsConfig → FanState → List Sample → FanState
count_rounds cfg s [] = s
count_rounds cfg s ((available, temp) ∷ samples) =
    count_rounds cfg
      (count_critical cfg (record s { control_temp_available = available; control_temp_c = temp }))
      samples

abbrev is_hot : AnsConfig → Sample → Bool
is_hot cfg (available, temp) = available && leb_ℤ cfg.critical_temperature_c temp

abbrev pub hot_rounds : AnsConfig → List Sample → ℕ
hot_rounds cfg [] = 0
hot_rounds cfg (x ∷ xs) = if is_hot cfg x then suc (hot_rounds cfg xs) else hot_rounds cfg xs

-- A sample that does not release the counter: no temperature, or one above the release level.
abbrev pub IsHolding : AnsConfig → Sample → Type 0
IsHolding cfg (available, temp) =
    (available ≡ false) ⊎ (cfg.safety.critical_release_temperature_c <ℤ temp)

count_one :
    (cfg : AnsConfig) (s : FanState) (x : Sample) (limit start : ℕ)
    → cfg.safety.critical_consecutive_samples ≡ pos limit
    → s.critical_temp_samples ≡ pos start
    → start ≤ limit
    → IsHolding cfg x
    → (count_critical cfg
        (record s { control_temp_available = x.0; control_temp_c = x.1 })).critical_temp_samples
      ≡ pos (if is_hot cfg x then min limit (suc start) else start)
unfolding count_critical ◌+ℤ◌
count_one cfg s (a, t) limit start e h le hold = ground arith

-- Over rounds none of which releases the critical counter, it ends at the smaller of its limit
-- and its start, not above the limit, plus the number of critical rounds: the rounds in between
-- neither count nor reset it.
pub count_rounds_lem :
    (cfg : AnsConfig) (s : FanState) (samples : List Sample) (limit start : ℕ)
    → cfg.safety.critical_consecutive_samples ≡ pos limit
    → s.critical_temp_samples ≡ pos start
    → start ≤ limit
    → All (IsHolding cfg) samples
    → (count_rounds cfg s samples).critical_temp_samples
      ≡ pos (min limit (start + hot_rounds cfg samples))
unfolding count_rounds
count_rounds_lem cfg s [] limit start e h le hold = ground arith
count_rounds_lem cfg s ((a, t) ∷ xs) limit start e h le (hold, holds) =
    let start' = if is_hot cfg (a, t) then min limit (suc start) else start in
    let one = count_one cfg s (a, t) limit start e h le hold in
    let s' = count_critical cfg (record s { control_temp_available = a; control_temp_c = t }) in
    count_rounds_lem cfg s' xs limit start' e one (ground arith) holds ∙ ground arith
