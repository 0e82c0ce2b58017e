-- ===== src/Fan/Ramp.antt =====
-- The ramp of automatic control over rounds of fan/control.c.
use acer_nitro_sense_linux.Config.Types.{AnsConfig, FanConfig, Threshold}
use acer_nitro_sense_linux.Fan.Control.{
  Override, curve_speed, drive_fan, fan_target_percent, first_speed, hold_speed, select_speed,
}
use acer_nitro_sense_linux.Fan.Forced.{WritesWork}
use acer_nitro_sense_linux.Fan.Policy.{fan_safety_adjust_percent}
use acer_nitro_sense_linux.Fan.Safety.{
  auto_ramped_percent, fan_update_safety_state, fan_write_percent_raw, set_fan_percent,
}
use acer_nitro_sense_linux.Fan.Safety.Laws.{ramp_one}
use acer_nitro_sense_linux.Fan.State.{FanState, Reason, kept_percent, ok}
use acer_nitro_sense_linux.Machine.{Machine}
use acer_nitro_sense_linux.Prelude.{
  +ℤ_parts, List, [], ap, arith, eq_of_parts, false, inl, inr, ltb_ℤ, pos, refl, suc, true, zero, ℕ,
  ℤ, ◌*◌, ◌+ℤ◌, ◌<ℤ◌, ◌<◌, ◌∙◌, ◌∷◌, ◌≡◌, ◌≤ℤ◌, ◌⊎◌,
}
use acer_nitro_sense_linux.Util.Number.{clamp_int, clamp_int_id}

-- The speed that a temperature selects on a curve, before any hysteresis.
unfoldable pub selected_speed : FanConfig → ℤ → ℤ
selected_speed fan temp_c = select_speed (first_speed fan.curve) fan.curve temp_c

-- A curve does not hold a speed below the one that the temperature selects.
hold_speed-below :
    (current selected : ℤ) (curve : List Threshold) (temp_c : ℤ)
    → current ≤ℤ selected
    → hold_speed current selected curve temp_c ≡ selected
unfolding hold_speed
hold_speed-below current selected [] temp_c h = refl
hold_speed-below current selected (t ∷ curve) temp_c h =
    ground (arith, hold_speed-below current selected curve temp_c h)

kept_of_request : (s : FanState) (p : ℤ) → s.requested_percent ≡ p → pos 0 <ℤ p → kept_percent s ≡ p
kept_of_request s p e h = ground arith

module _ (M : Machine) where
  open M use {World}

  -- `n` rounds of automatic control of one fan while its readings stay as they are and no reason
  -- is forced: each asks for the target of the state that the last one left, and drives the fan.
  unfoldable pub drive_rounds :
      AnsConfig → FanConfig → Override → ℕ → FanState → World → FanState × World
  drive_rounds cfg fan o zero s w = (s, w)
  drive_rounds cfg fan o (suc n) s w =
      let (s', _, w') = drive_fan M cfg fan false ok (fan_target_percent cfg fan s true ok) o s w in
      drive_rounds cfg fan o n s' w'

  pub set_records :
      (cfg : AnsConfig) (fan : FanConfig) (s : FanState) (p : ℤ) (forced : Reason) (w : World)
      → WritesWork M
      → pos 1 ≤ℤ p
      → p ≤ℤ pos 100
      → let s' = (set_fan_percent M cfg fan s p forced w).0 in
        (s'.requested_percent ≡ p) × (s'.control_temp_c ≡ s.control_temp_c)
  unfolding set_fan_percent fan_write_percent_raw fan_update_safety_state
  set_records cfg fan s p forced w works low high =
      let q =
        clamp_int (fan_safety_adjust_percent cfg fan s p forced).percent fan.write_min
          fan.write_max in
      ground (arith, works fan.write_register q w, clamp_int_id p (pos 1) (pos 100) low high)

  drive_records :
      (cfg : AnsConfig) (fan : FanConfig) (p : ℤ) (o : Override) (s : FanState) (w : World)
      → WritesWork M
      → pos 1 ≤ℤ p
      → p ≤ℤ pos 100
      → let s' = (drive_fan M cfg fan false ok p o s w).0 in
        (s'.requested_percent ≡ p) × (s'.control_temp_c ≡ s.control_temp_c)
  unfolding drive_fan fan_update_safety_state
  drive_records cfg fan p o s w works low high =
      ground (arith, set_records cfg fan s p ok w works low high, eq_of_parts p s.requested_percent)

  -- The request of a round, below the selected speed: a step of the ramp towards it.
  target_ramps :
      (cfg : AnsConfig) (fan : FanConfig) (s : FanState)
      → pos 0 <ℤ s.control_temp_c
      → kept_percent s ≤ℤ selected_speed fan s.control_temp_c
      → fan_target_percent cfg fan s true ok
        ≡ auto_ramped_percent cfg s (selected_speed fan s.control_temp_c) ok
  unfolding fan_target_percent curve_speed selected_speed
  target_ramps cfg fan s warm below =
      let known : ltb_ℤ (pos 0) s.control_temp_c ≡ true = ground arith in
      rw
        (
          known,
          hold_speed-below (kept_percent s)
              (select_speed (first_speed fan.curve) fan.curve s.control_temp_c) fan.curve
              s.control_temp_c below,
        )
        refl

  -- In automatic control, where the EC takes every write, the readings of a fan stay as they are
  -- and no reason is forced: with a ramp step of `k` percent, `k` positive, `n` rounds of the
  -- loop from a positive request not above the speed that the curve selects, which is at most
  -- 100, and at most `n * k` below it, end with that speed as the request.
  pub ramp_rounds_arrive :
      (cfg : AnsConfig) (fan : FanConfig) (o : Override) (k n : ℕ) (s : FanState) (w : World)
      → WritesWork M
      → cfg.safety.auto_ramp_up_percent ≡ pos k
      → 0 < k
      → pos 0 <ℤ s.control_temp_c
      → pos 0 <ℤ kept_percent s
      → kept_percent s ≤ℤ selected_speed fan s.control_temp_c
      → selected_speed fan s.control_temp_c ≤ℤ pos 100
      → selected_speed fan s.control_temp_c ≤ℤ kept_percent s +ℤ pos (n * k)
      → kept_percent (drive_rounds cfg fan o n s w).0 ≡ selected_speed fan s.control_temp_c
  unfolding drive_rounds
  ramp_rounds_arrive cfg fan o k zero s w works e hk warm h le top far =
      let goal = selected_speed fan s.control_temp_c in
      eq_of_parts (kept_percent s) goal (omega (arith, +ℤ_parts (kept_percent s) (pos (0 * k))))
  ramp_rounds_arrive cfg fan o k (suc n) s w works e hk warm h le top far =
      let goal = selected_speed fan s.control_temp_c in
      let p = fan_target_percent cfg fan s true ok in
      let (s', _, w') = drive_fan M cfg fan false ok p o s w in
      let step : (pos 0 <ℤ p)
          × (p ≤ℤ goal)
          × ((p ≡ goal) ⊎ (p ≡ kept_percent s +ℤ cfg.safety.auto_ramp_up_percent)) =
        rw (target_ramps cfg fan s warm le) (ramp_one cfg s goal (rw e (omega arith)) h le) in
      let (requested, same_temp) =
        drive_records cfg fan p o s w works (omega (arith, step.0)) (omega (arith, step.1, top)) in
      let kept : kept_percent s' ≡ p = kept_of_request s' p requested step.0 in
      let near : goal ≤ℤ p +ℤ pos (n * k) = elim step.2 [
        | inl there ↦ rw there (omega (arith, +ℤ_parts goal (pos (n * k))))
        | inr moved ↦
            rw (moved, e)
              (omega (
                arith,
                +ℤ_parts (kept_percent s) (pos k),
                +ℤ_parts (kept_percent s +ℤ pos k) (pos (n * k)),
                +ℤ_parts (kept_percent s) (pos (suc n * k)),
                far,
              ))
      ] in
      let rest =
        ramp_rounds_arrive cfg fan o k n s' w' works e hk (rw same_temp warm) (rw kept step.0)
          (rw (kept, same_temp) step.1) (rw same_temp top) (rw (kept, same_temp) near) in
      rest ∙ ap (selected_speed fan) same_temp
