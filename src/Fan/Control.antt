-- ===== src/Fan/Control.antt =====
-- fan/control.c: the fan curve and the reconciliation loop.
pub mod Laws
use acer_nitro_sense_linux.Config.Types.{AnsConfig, FanConfig, Threshold}
use acer_nitro_sense_linux.Fan.Observation.{refresh_fan_observations}
use acer_nitro_sense_linux.Fan.Policy.{fan_safety_adjust_percent}
use acer_nitro_sense_linux.Fan.Safety.{
  auto_ramped_percent, fan_update_safety_state, set_fan_percent,
}
use acer_nitro_sense_linux.Fan.State.{FanState, Reason, kept_percent, ok, reason_has_value}
use acer_nitro_sense_linux.Machine.{Machine}
use acer_nitro_sense_linux.Platform.FanMode.{
  apply_daemon_control_fan_mode, apply_firmware_auto_fan_mode, firmware_auto_mode,
}
use acer_nitro_sense_linux.Prelude.{
  Bool, Bytes, List, [], eqb_ℤ, false, if◌then◌else◌, leb_ℤ, ltb_ℤ, not, pos, true, ℤ, ◌&&◌, ◌||◌,
  ◌∷◌,
}
use acer_nitro_sense_linux.Util.Number.{clamp_int}

-- The first loop of `curve_speed`.
unfoldable pub select_speed : ℤ → List Threshold → ℤ → ℤ
select_speed selected [] temp_c = selected
select_speed selected (t ∷ curve) temp_c =
    select_speed (if leb_ℤ t.up temp_c then t.speed else selected) curve temp_c

abbrev pub larger : ℤ → ℤ → ℤ
larger a b = if ltb_ℤ b a then a else b

-- The second loop: a threshold of the current speed holds it above its `down` temperature.
unfoldable pub hold_speed : ℤ → ℤ → List Threshold → ℤ → ℤ
hold_speed current_percent selected [] temp_c = selected
hold_speed current_percent selected (t ∷ curve) temp_c =
    let later = hold_speed current_percent selected curve temp_c in
    if eqb_ℤ t.speed current_percent && leb_ℤ t.down temp_c
    then larger current_percent selected
    else later

abbrev pub first_speed : List Threshold → ℤ
first_speed [] = pos 50
first_speed (t ∷ curve) = t.speed

unfoldable pub curve_speed : FanConfig → ℤ → ℤ → ℤ
unfolding select_speed hold_speed
curve_speed fan temp_c current_percent =
    hold_speed current_percent (select_speed (first_speed fan.curve) fan.curve temp_c) fan.curve
      temp_c

-- The first `fan_len` states.
unfoldable pub any_safety_active : List FanConfig → List FanState → Bool
any_safety_active [] states = false
any_safety_active (fan ∷ fans) [] = false
any_safety_active (fan ∷ fans) (s ∷ states) = s.safety_active || any_safety_active fans states

unfoldable pub should_restore_firmware_auto_mode : Bool → Bool → Bool → Bool
should_restore_firmware_auto_mode firmware_auto was_active is_active =
    firmware_auto && was_active && not is_active

-- The request for a fan in this round.
unfoldable pub fan_target_percent : AnsConfig → FanConfig → FanState → Bool → Reason → ℤ
fan_target_percent cfg fan s auto_mode forced =
    let percent = kept_percent s in
    if auto_mode
    then (if ltb_ℤ (pos 0) s.control_temp_c
        then auto_ramped_percent cfg s (curve_speed fan s.control_temp_c percent) forced
        else if ltb_ℤ percent fan.reset_speed
        then fan.reset_speed
        else percent)
    else percent

-- Under firmware-auto, with no reason to interfere: the state follows and nothing is written.
unfoldable pub report_percent : FanState → ℤ → FanState
unfolding fan_update_safety_state
report_percent s percent =
    let requested = clamp_int percent (pos 1) (pos 100) in
    fan_update_safety_state
      (record s { percent = requested; write_value = requested; requested_percent = requested }) ok

-- The variables that the loop of `update_fan_states` carries from fan to fan.
pub record Override : Type 0 where
  pub ready : Bool
  pub active : Bool

module _ (M : Machine) where
  open M use {World, ec_write_byte}

  unfoldable pub restore_firmware_auto_mode_if_needed :
      AnsConfig → Bool → Bool → Bool → World → World
  unfolding should_restore_firmware_auto_mode
  restore_firmware_auto_mode_if_needed cfg firmware_auto was_active is_active w =
      if should_restore_firmware_auto_mode firmware_auto was_active is_active
      then (apply_firmware_auto_fan_mode M cfg w).1
      else w

  -- `if (!ready) ready = apply_daemon_control_fan_mode(ec, cfg)`.
  unfoldable pub make_ready : AnsConfig → Bool → World → Bool × World
  make_ready cfg ready w = if ready then (true, w) else apply_daemon_control_fan_mode M cfg w

  -- A round of the loop, with the request that `fan_target_percent` gives.
  unfoldable pub drive_fan :
      AnsConfig
      → FanConfig
      → Bool
      → Reason
      → ℤ
      → Override
      → FanState
      → World
      → FanState × Override × World
  drive_fan cfg fan firmware_auto forced percent o s w =
      let adj = fan_safety_adjust_percent cfg fan s percent forced in
      let (ready, w1) = make_ready cfg o.ready w in
      let (s1, _, w2) = set_fan_percent M cfg fan s percent forced w1 in
      let (s3, _, w3) = set_fan_percent M cfg fan s percent forced w in
      if firmware_auto
      then (if reason_has_value adj.reason
          then (s1, record { ready = ready; active = true }, w2)
          else (report_percent s percent, o, w))
      else if not (eqb_ℤ adj.percent s.percent) || not (eqb_ℤ percent s.requested_percent)
      then (s3, o, w3)
      else (fan_update_safety_state s adj.reason, o, w)

  unfoldable pub drive_fans :
      AnsConfig
      → List FanConfig
      → Bool
      → Bool
      → Reason
      → Override
      → List FanState
      → World
      → List FanState × Override × World
  drive_fans cfg [] firmware_auto auto_mode forced o states w = (states, o, w)
  drive_fans cfg (fan ∷ fans) firmware_auto auto_mode forced o [] w = ([], o, w)
  drive_fans cfg (fan ∷ fans) firmware_auto auto_mode forced o (s ∷ states) w =
      let percent = fan_target_percent cfg fan s auto_mode forced in
      let (s', o', w') = drive_fan cfg fan firmware_auto forced percent o s w in
      let (states', o'', w'') = drive_fans cfg fans firmware_auto auto_mode forced o' states w' in
      (s' ∷ states', o'', w'')

  unfoldable pub update_fan_states :
      AnsConfig → List FanState → Bool → Bytes → World → List FanState × World
  update_fan_states cfg states auto_mode preset w =
      let firmware_auto = firmware_auto_mode auto_mode preset in
      let (seen, forced, w1) = refresh_fan_observations M cfg states w in
      let was_active = firmware_auto && any_safety_active cfg.fans seen in
      let (driven, o, w2) =
        drive_fans cfg cfg.fans firmware_auto auto_mode forced
          (record { ready = false; active = false }) seen w1 in
      (driven, restore_firmware_auto_mode_if_needed cfg firmware_auto was_active o.active w2)
