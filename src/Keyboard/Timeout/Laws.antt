-- ===== src/Keyboard/Timeout/Laws.antt =====
-- Ticks of the timeout on a backlight register of the EC.
use acer_nitro_sense_linux.Config.Types.{AnsConfig}
use acer_nitro_sense_linux.Keyboard.Backlight.{
  BacklightStatus, keyboard_backlight_percent_from_range, keyboard_backlight_read_any,
  keyboard_backlight_read_ec, keyboard_backlight_set_percent, keyboard_backlight_value_from_percent,
  read_status,
}
use acer_nitro_sense_linux.Keyboard.Backlight.Laws.{percent_of_value, value_back, value_of_percent}
use acer_nitro_sense_linux.Keyboard.Timeout.{
  TimeoutState, keyboard_backlight_should_restore, keyboard_backlight_should_turn_off,
  keyboard_backlight_timeout_can_run, keyboard_backlight_timeout_tick,
  keyboard_backlight_update_restore_percent, switch_backlight,
}
use acer_nitro_sense_linux.Machine.{Machine}
use acer_nitro_sense_linux.Prelude.{
  Bool, ap, arith, false, pos, refl, true, ℕ, ℤ, ◌*ℤ◌, ◌*◌, ◌+◌, ◌-ℤ◌, ◌-◌, ◌<ℤ◌, ◌<◌, ◌∙◌, ◌≡◌,
  ◌≤ℤ◌, ◌≤◌, -ℤ_parts,
}
use Prim.Native.Nat.{◌/◌}
use native.Mathlib.Nat.{le-div_iff_mul-le}

-- A backlight register of the EC: it keeps what is written in the range of the profile, and
-- reading it changes nothing.
pub record IsBacklight (M : Machine) (cfg : AnsConfig) (lo hi : ℕ) : Type 0 where
  pub available : cfg.keyboard_backlight.available ≡ true
  pub at_lo : cfg.keyboard_backlight.min_value ≡ pos lo
  pub at_hi : cfg.keyboard_backlight.max_value ≡ pos hi
  pub range : lo < hi
  pub read_keeps : (w : M.World) → (M.ec_read_byte cfg.keyboard_backlight.reg w).1 ≡ w
  pub write_taken :
      (v : ℕ) (w : M.World)
      → lo ≤ v
      → v ≤ hi
      → (M.ec_write_byte cfg.keyboard_backlight.reg (pos v) w).0 ≡ pos 0
  pub write_stays :
      (v : ℕ) (w : M.World)
      → lo ≤ v
      → v ≤ hi
      → (M.ec_read_byte cfg.keyboard_backlight.reg
          (M.ec_write_byte cfg.keyboard_backlight.reg (pos v) w).1).0
        ≡ pos v

percent_positive :
    (lo hi v : ℕ)
    → lo < v
    → v ≤ hi
    → hi ≤ lo + 100
    → 0 < ((v - lo) * 100 + (hi - lo) / 2) / (hi - lo)
percent_positive lo hi v low high small = (le-div_iff_mul-le (omega arith)).1 (omega arith)

still_runs :
    (cfg : AnsConfig) (s : TimeoutState) (p : ℤ)
    → keyboard_backlight_timeout_can_run cfg s ≡ true
    → keyboard_backlight_timeout_can_run cfg (record s { timed_off = true; restore_percent = p })
      ≡ true
unfolding keyboard_backlight_timeout_can_run
still_runs cfg s p run = run

module _ (M : Machine) (read_sysfs : M.World → Bool × BacklightStatus) where
  open M use {World, ec_read_byte, ec_write_byte}

  read_ec_lem :
      (cfg : AnsConfig) (lo hi v : ℕ) (w : World)
      → IsBacklight M cfg lo hi
      → (ec_read_byte cfg.keyboard_backlight.reg w).0 ≡ pos v
      → lo ≤ v
      → v ≤ hi
      → keyboard_backlight_read_ec M cfg w ≡ (true, read_status cfg (pos v), w)
  unfolding keyboard_backlight_read_ec
  read_ec_lem cfg lo hi v w b at_v low high =
      ground (arith, b.at_lo, b.at_hi, b.available, b.read_keeps w)

  set_percent_lem :
      (cfg : AnsConfig) (lo hi p v : ℕ) (w : World)
      → IsBacklight M cfg lo hi
      → keyboard_backlight_value_from_percent cfg.keyboard_backlight (pos p) ≡ pos v
      → lo ≤ v
      → v ≤ hi
      → let (taken, status, w') = keyboard_backlight_set_percent M cfg (pos p) w in
        (taken ≡ true) × (w' ≡ (ec_write_byte cfg.keyboard_backlight.reg (pos v) w).1)
  unfolding keyboard_backlight_set_percent
  set_percent_lem cfg lo hi p v w b at_v low high =
      let w1 = (ec_write_byte cfg.keyboard_backlight.reg (pos v) w).1 in
      ground (
        arith,
        b.at_lo,
        b.at_hi,
        b.available,
        b.range,
        -ℤ_parts cfg.keyboard_backlight.max_value cfg.keyboard_backlight.min_value,
        b.write_taken v w low high,
        read_ec_lem cfg lo hi v w1 b (b.write_stays v w low high) low high,
      )

  update_on :
      (cfg : AnsConfig) (s : TimeoutState) (lo hi v : ℕ) (w : World)
      → IsBacklight M cfg lo hi
      → (read_sysfs w).0 ≡ false
      → s.timed_off ≡ false
      → (ec_read_byte cfg.keyboard_backlight.reg w).0 ≡ pos v
      → lo < v
      → v ≤ hi
      → hi ≤ lo + 100
      → keyboard_backlight_update_restore_percent M read_sysfs cfg s w ≡ (
        record s {
          restore_percent = keyboard_backlight_percent_from_range (pos v) (pos lo) (pos hi);
        },
        w,
      )
  unfolding keyboard_backlight_update_restore_percent keyboard_backlight_read_any
  update_on cfg s lo hi v w b no_led on at_v low high small = ground (
    arith,
    no_led,
    on,
    b.available,
    b.at_lo,
    b.at_hi,
    read_ec_lem cfg lo hi v w b at_v (omega arith) high,
    percent_of_value lo hi v (omega arith) (omega arith),
    percent_positive lo hi v low high small,
  )

  least_value :
      (cfg : AnsConfig) (lo hi : ℕ)
      → IsBacklight M cfg lo hi
      → keyboard_backlight_value_from_percent cfg.keyboard_backlight (pos 0) ≡ pos lo
  least_value cfg lo hi b =
      value_of_percent cfg.keyboard_backlight lo hi 0 b.at_lo b.at_hi b.range
      ∙ ap (λ n. pos n) (omega arith)

  -- An idle tick: the backlight goes to the least value, and its percentage is remembered.
  tick_off :
      (cfg : AnsConfig) (s : TimeoutState) (lo hi v : ℕ) (now last : ℤ) (w : World)
      → IsBacklight M cfg lo hi
      → (read_sysfs w).0 ≡ false
      → keyboard_backlight_timeout_can_run cfg s ≡ true
      → s.timed_off ≡ false
      → (ec_read_byte cfg.keyboard_backlight.reg w).0 ≡ pos v
      → lo < v
      → v ≤ hi
      → hi ≤ lo + 100
      → s.seconds *ℤ pos 1000 ≤ℤ now -ℤ last
      → keyboard_backlight_timeout_tick M read_sysfs cfg s now last w ≡ (
        record s {
          timed_off = true;
          restore_percent = keyboard_backlight_percent_from_range (pos v) (pos lo) (pos hi);
        },
        (ec_write_byte cfg.keyboard_backlight.reg (pos lo) w).1,
      )
  unfolding keyboard_backlight_timeout_tick switch_backlight keyboard_backlight_should_turn_off
  tick_off cfg s lo hi v now last w b no_led run on at_v low high small idle =
      let set =
        set_percent_lem cfg lo hi 0 lo w b (least_value cfg lo hi b) (omega arith) (omega arith) in
      rw (run, update_on cfg s lo hi v w b no_led on at_v low high small, on, set.0, set.1)
        (ground arith)

  tick_back :
      (cfg : AnsConfig) (s : TimeoutState) (lo hi p v : ℕ) (now last : ℤ) (w : World)
      → IsBacklight M cfg lo hi
      → keyboard_backlight_timeout_can_run cfg s ≡ true
      → s.timed_off ≡ true
      → s.restore_percent ≡ pos p
      → 0 < p
      → keyboard_backlight_value_from_percent cfg.keyboard_backlight (pos p) ≡ pos v
      → lo ≤ v
      → v ≤ hi
      → now -ℤ last <ℤ s.seconds *ℤ pos 1000
      → keyboard_backlight_timeout_tick M read_sysfs cfg s now last w
        ≡ (record s { timed_off = false }, (ec_write_byte cfg.keyboard_backlight.reg (pos v) w).1)
  unfolding keyboard_backlight_timeout_tick switch_backlight keyboard_backlight_should_turn_off
      keyboard_backlight_should_restore keyboard_backlight_update_restore_percent
  tick_back cfg s lo hi p v now last w b run off at_p positive at_v low high active =
      let set = set_percent_lem cfg lo hi p v w b at_v low high in
      rw (run, off, at_p, set.0, set.1) (ground arith)

  -- On a backlight register that keeps what is written in its range of at most 100 steps, without
  -- an LED under sysfs: from a backlight above its least value that is not timed off, with the
  -- timeout running, a tick after the timeout leaves the register at its least value, and a tick
  -- within the timeout of new activity brings it back to the value that it had. The state is
  -- timed off after the first tick and not after the second.
  pub tick_restores :
      (cfg : AnsConfig) (s : TimeoutState) (lo hi v : ℕ) (now1 last1 now2 last2 : ℤ) (w : World)
      → IsBacklight M cfg lo hi
      → hi ≤ lo + 100
      → (read_sysfs w).0 ≡ false
      → keyboard_backlight_timeout_can_run cfg s ≡ true
      → s.timed_off ≡ false
      → (ec_read_byte cfg.keyboard_backlight.reg w).0 ≡ pos v
      → lo < v
      → v ≤ hi
      → s.seconds *ℤ pos 1000 ≤ℤ now1 -ℤ last1
      → now2 -ℤ last2 <ℤ s.seconds *ℤ pos 1000
      → let (s1, w1) = keyboard_backlight_timeout_tick M read_sysfs cfg s now1 last1 w in
        let (s2, w2) = keyboard_backlight_timeout_tick M read_sysfs cfg s1 now2 last2 w1 in
        ((ec_read_byte cfg.keyboard_backlight.reg w1).0 ≡ pos lo)
        × (s1.timed_off ≡ true)
        × ((ec_read_byte cfg.keyboard_backlight.reg w2).0 ≡ pos v)
        × (s2.timed_off ≡ false)
  tick_restores cfg s lo hi v now1 last1 now2 last2 w b small no_led run on at_v low high idle act =
      let reg = cfg.keyboard_backlight.reg in
      let p = ((v - lo) * 100 + (hi - lo) / 2) / (hi - lo) in
      let pct = percent_of_value lo hi v (omega arith) (omega arith) in
      let s1 : TimeoutState = record s {
        timed_off = true;
        restore_percent = keyboard_backlight_percent_from_range (pos v) (pos lo) (pos hi);
      } in
      let w1 = (ec_write_byte reg (pos lo) w).1 in
      let back =
        value_back cfg.keyboard_backlight lo hi v b.at_lo b.at_hi b.range small (omega arith)
          high in
      let positive = percent_positive lo hi v low high small in
      rw
        (
          tick_off cfg s lo hi v now1 last1 w b no_led run on at_v low high small idle,
          tick_back cfg s1 lo hi p v now2 last2 w1 b (still_runs cfg s _ run) refl pct positive back
              (omega arith) high act,
        )
        (
          b.write_stays lo w (omega arith) (omega arith),
          refl,
          b.write_stays v w1 (omega arith) high,
          refl,
        )
