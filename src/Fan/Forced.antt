-- ===== src/Fan/Forced.antt =====
-- What the loop of fan/control.c does to a fan that a safety reason forces, and what the policy
-- does to one without a control temperature.
use acer_nitro_sense_linux.Config.Types.{AnsConfig, FanConfig}
use acer_nitro_sense_linux.Config.Valid.{IsValidFan}
use acer_nitro_sense_linux.Fan.Control.{Override, drive_fan, make_ready}
use acer_nitro_sense_linux.Fan.Policy.{
  critical_safety_percent, fan_safety_adjust_percent, missing_temperature_percent,
}
use acer_nitro_sense_linux.Fan.Safety.{
  fan_update_safety_state, fan_write_percent_raw, set_fan_percent,
}
use acer_nitro_sense_linux.Fan.State.{
  FanState, Reason, is_critical_temperature, ok, reason_has_value,
}
use acer_nitro_sense_linux.Machine.{Machine}
use acer_nitro_sense_linux.Prelude.{
  Bool, ap, arith, eqb_ℤ, eqb_ℤ_iff, false, if_cases, inl, inr, not, pos, refl, sym, true, ℤ, ◌<ℤ◌,
  ◌||◌, ◌∙◌, ◌≡◌, ◌≢◌, ◌≤ℤ◌, ◌⊎◌,
}
use acer_nitro_sense_linux.Util.Number.{clamp_int, clamp_int_above, clamp_int_bounds, clamp_int_id}

-- The speed that a reason forces, where it is not the stepwise one of `critical_full_speed` off.
abbrev pub IsFullSpeed : AnsConfig → Reason → Type 0
IsFullSpeed cfg r = (cfg.safety.critical_full_speed ≡ true) ⊎ (is_critical_temperature r ≡ false)

adjust_forced :
    (cfg : AnsConfig) (fan : FanConfig) (s : FanState) (p : ℤ) (forced : Reason)
    → forced ≢ ok
    → IsFullSpeed cfg forced
    → let adj = fan_safety_adjust_percent cfg fan s p forced in
      (adj.percent ≡ clamp_int cfg.safety.critical_speed_percent fan.write_min fan.write_max)
      × (adj.reason ≡ forced)
unfolding fan_safety_adjust_percent critical_safety_percent
adjust_forced cfg fan s p forced ne full = ground arith

forced_has_value : (forced : Reason) → forced ≢ ok → reason_has_value forced ≡ true
forced_has_value forced ne = ground arith

module _ (M : Machine) where
  open M use {World, ec_write_byte}

  -- The EC takes every write.
  abbrev pub WritesWork : Type 0
  WritesWork = (reg value : ℤ) (w : World) → pos 0 ≤ℤ (ec_write_byte reg value w).0

  pub set_forced :
      (cfg : AnsConfig) (fan : FanConfig) (s : FanState) (p : ℤ) (forced : Reason) (w : World)
      → WritesWork
      → (set_fan_percent M cfg fan s p forced w).0.percent
        ≡ (fan_safety_adjust_percent cfg fan s p forced).percent
  unfolding set_fan_percent fan_write_percent_raw
  set_forced cfg fan s p forced w works =
      let q =
        clamp_int (fan_safety_adjust_percent cfg fan s p forced).percent fan.write_min
          fan.write_max in
      ground (arith, works fan.write_register q w)

  pub set_forced_world :
      (cfg : AnsConfig) (fan : FanConfig) (s : FanState) (p : ℤ) (forced : Reason) (w : World)
      → (set_fan_percent M cfg fan s p forced w).2
        ≡ (ec_write_byte fan.write_register
            (clamp_int
              (fan_safety_adjust_percent cfg fan s p forced).percent
              fan.write_min
              fan.write_max)
            w).1
  unfolding set_fan_percent fan_write_percent_raw
  set_forced_world cfg fan s p forced w = ground arith

  -- The speed that a full reason forces.
  abbrev pub forced_speed : AnsConfig → FanConfig → ℤ
  forced_speed cfg fan = clamp_int cfg.safety.critical_speed_percent fan.write_min fan.write_max

  clamped_twice :
      (cfg : AnsConfig) (fan : FanConfig)
      → IsValidFan fan
      → clamp_int (forced_speed cfg fan) fan.write_min fan.write_max ≡ forced_speed cfg fan
  clamped_twice cfg fan v =
      let inside =
        clamp_int_bounds cfg.safety.critical_speed_percent fan.write_min fan.write_max
          (omega (arith, v.write_range)) in
      clamp_int_id (forced_speed cfg fan) fan.write_min fan.write_max inside.0 inside.1

  -- A forced write records the forced speed and gives it to the EC.
  forced_write :
      (cfg : AnsConfig) (fan : FanConfig) (s : FanState) (p : ℤ) (forced : Reason) (w : World)
      → WritesWork
      → IsValidFan fan
      → forced ≢ ok
      → IsFullSpeed cfg forced
      → ((set_fan_percent M cfg fan s p forced w).0.percent ≡ forced_speed cfg fan)
        × ((set_fan_percent M cfg fan s p forced w).2
            ≡ (ec_write_byte fan.write_register (forced_speed cfg fan) w).1)
  forced_write cfg fan s p forced w works v ne full =
      let (speed, _) = adjust_forced cfg fan s p forced ne full in
      (
        set_forced cfg fan s p forced w works ∙ speed,
        set_forced_world cfg fan s p forced w
            ∙ ap (λ q. (ec_write_byte fan.write_register q w).1)
                (ap (λ q. clamp_int q fan.write_min fan.write_max) speed ∙ clamped_twice cfg fan v),
      )

  -- What `drive_fan` did to a fan that is forced to a speed: it recorded the speed, and either the
  -- last write to the EC was that speed in the register of the fan, or the daemon is in control,
  -- the fan was at that speed already and nothing was written.
  abbrev pub IsDrivenTo :
      FanConfig → ℤ → Bool → FanState → World → FanState × Override × World → Type 0
  IsDrivenTo fan speed firmware_auto s w (s', o', w') =
      (s'.percent ≡ speed)
      × ((((before : World) × (w' ≡ (ec_write_byte fan.write_register speed before).1)))
          ⊎ ((firmware_auto ≡ false) × (s.percent ≡ speed) × (w' ≡ w)))

  -- Where the EC takes every write and a reason forces a valid fan, `drive_fan` drives it, in
  -- every control mode, to the critical speed clamped to the write range of the fan: the speed is
  -- recorded, and it is the last byte written to the EC, in the fan's register, unless the daemon
  -- is in control and the fan was at that speed already. The reason is not the critical
  -- temperature, or the profile asks for full speed there.
  pub drive_fan_forced :
      (cfg : AnsConfig) (fan : FanConfig) (firmware_auto : Bool) (forced : Reason) (p : ℤ)
      (o : Override) (s : FanState) (w : World)
      → WritesWork
      → IsValidFan fan
      → forced ≢ ok
      → IsFullSpeed cfg forced
      → IsDrivenTo fan
          (forced_speed cfg fan)
          firmware_auto
          s
          w
          (drive_fan M cfg fan firmware_auto forced p o s w)
  unfolding drive_fan fan_update_safety_state
  drive_fan_forced cfg fan true forced p o s w works v ne full =
      let w1 = (make_ready M cfg o.ready w).1 in
      let (recorded, sent) = forced_write cfg fan s p forced w1 works v ne full in
      let (_, reason) = adjust_forced cfg fan s p forced ne full in
      let active : reason_has_value (fan_safety_adjust_percent cfg fan s p forced).reason ≡ true =
        rw reason (forced_has_value forced ne) in
      rw active (recorded, inl (w1, sent))
  drive_fan_forced cfg fan false forced p o s w works v ne full =
      let (recorded, sent) = forced_write cfg fan s p forced w works v ne full in
      let (speed, _) = adjust_forced cfg fan s p forced ne full in
      let adjusted = (fan_safety_adjust_percent cfg fan s p forced).percent in
      if_cases (IsDrivenTo fan (forced_speed cfg fan) false s w)
        (not (eqb_ℤ adjusted s.percent) || not (eqb_ℤ p s.requested_percent))
        (λ _. (recorded, inl (w, sent)))
        (λ same.
          let kept : s.percent ≡ forced_speed cfg fan =
            sym ((eqb_ℤ_iff adjusted s.percent).0 (ground arith)) ∙ speed in
          (kept, inr (refl, kept, refl)))

  -- Where the EC takes every write, without a control temperature, with write failures below
  -- their limit and a valid fan: if the fallback speed is above both the request, clamped to 1 to
  -- 100, and `write_max`, `set_fan_percent` gives the EC `write_max` and records the fallback
  -- speed.
  pub unknown_temperature_records_more :
      (cfg : AnsConfig) (fan : FanConfig) (s : FanState) (p : ℤ) (w : World)
      → WritesWork
      → IsValidFan fan
      → s.ec_write_failures <ℤ cfg.safety.max_ec_write_failures
      → s.control_temp_available ≡ false
      → clamp_int p (pos 1) (pos 100) <ℤ missing_temperature_percent cfg fan
      → fan.write_max <ℤ missing_temperature_percent cfg fan
      → let (s', effective, w') = set_fan_percent M cfg fan s p ok w in
        (s'.percent ≡ missing_temperature_percent cfg fan)
        × (w' ≡ (ec_write_byte fan.write_register fan.write_max w).1)
  unfolding set_fan_percent fan_write_percent_raw fan_safety_adjust_percent
  unknown_temperature_records_more cfg fan s p w works v ok_writes blind low high =
      let q = missing_temperature_percent cfg fan in
      ground (
        arith,
        works fan.write_register fan.write_max w,
        clamp_int_above q fan.write_min fan.write_max (omega arith) high,
      )
