-- ===== src/Fan/Permitted/Rounds.antt =====
-- Permitted writes, and `update_fan_states` of src/fan/control.c.
use acer_nitro_sense_linux.Config.Types.{AnsConfig, FanConfig}
use acer_nitro_sense_linux.Config.Valid.{IsValidFan}
use acer_nitro_sense_linux.Ec.Word.{ec_read_word}
use acer_nitro_sense_linux.Fan.Control.{
  Override, drive_fan, drive_fans, fan_target_percent, make_ready,
  restore_firmware_auto_mode_if_needed, update_fan_states,
}
use acer_nitro_sense_linux.Fan.Observation.{
  fallback_to_group, forced_by, observe_fan, read_control_temp, read_ec_temperature_c, read_fan,
  read_raw, refresh_fan_observations, refresh_fans, uses_control_group,
}
use acer_nitro_sense_linux.Fan.Permitted.{
  BoolKept, IntKept, IsKept, daemon_mode_keeps, firmware_mode_keeps, own_members, set_keeps,
}
use acer_nitro_sense_linux.Fan.State.{FanState, Reason, ok}
use acer_nitro_sense_linux.Machine.{Machine}
use acer_nitro_sense_linux.Prelude.{
  All, Bool, Bytes, List, [], if_elim, leb_ℤ, ltb_ℤ, pos, ℤ, ◌+ℤ◌, ◌∷◌,
}
use mathlib.Core.List.{Memᴰ}

module _ (M : Machine) (cfg : AnsConfig) (P : M.World → Type 0) (k : IsKept M cfg P) where
  open M use {World}

  ready_keeps : (ready : Bool) (w : World) → P w → P (make_ready M cfg ready w).1
  unfolding make_ready
  ready_keeps ready w h = if_elim (BoolKept M cfg P k) ready h (daemon_mode_keeps M cfg P k w h)

  drive_keeps :
      (fan : FanConfig) (firmware_auto : Bool) (forced : Reason) (p : ℤ) (o : Override)
      (s : FanState) (w : World)
      → IsValidFan fan
      → Memᴰ fan cfg.fans
      → P w
      → P (drive_fan M cfg fan firmware_auto forced p o s w).2
  unfolding drive_fan
  drive_keeps fan fa forced p o s w v m h =
      let Q : FanState × Override × World → Type 0 = λ r. P r.2 in
      let (ready, w1) = make_ready M cfg o.ready w in
      if_elim Q fa
        (if_elim Q _ (set_keeps M cfg P k fan s p forced w1 v m (ready_keeps o.ready w h)) h)
        (if_elim Q _ (set_keeps M cfg P k fan s p forced w v m h) h)

  drive_all_keep :
      (fans : List FanConfig) (firmware_auto auto_mode : Bool) (forced : Reason) (o : Override)
      (states : List FanState) (w : World)
      → All IsValidFan fans
      → All (λ fan. Memᴰ fan cfg.fans) fans
      → P w
      → P (drive_fans M cfg fans firmware_auto auto_mode forced o states w).2
  unfolding drive_fans
  drive_all_keep [] fa am forced o states w v m h = h
  drive_all_keep (fan ∷ fans) fa am forced o [] w v m h = h
  drive_all_keep (fan ∷ fans) fa am forced o (s ∷ states) w (v, vs) (m, ms) h =
      let p = fan_target_percent cfg fan s am forced in
      let (s', o', w') = drive_fan M cfg fan fa forced p o s w in
      drive_all_keep fans fa am forced o' states w' vs ms (drive_keeps fan fa forced p o s w v m h)

  ec_temperature_keeps : (reg : ℤ) (w : World) → P w → P (read_ec_temperature_c M reg w).1
  unfolding read_ec_temperature_c
  ec_temperature_keeps reg w h =
      let read = if_elim (IntKept M cfg P k) (leb_ℤ (pos 0) reg) (k.read_keeps reg w h) h in
      if_elim (IntKept M cfg P k) _ read read

  group_keeps :
      (ec_temp : ℤ) (group : Bytes) (w : World) → P w → P (fallback_to_group M ec_temp group w).1
  unfolding fallback_to_group
  group_keeps t group w h = if_elim (IntKept M cfg P k) _ h (k.sensor_keeps group w h)

  word_keeps : (reg : ℤ) (w : World) → P w → P (ec_read_word M reg w).1
  unfolding ec_read_word
  word_keeps reg w h =
      let (low, w1) = M.ec_read_byte reg w in
      let (high, w2) = M.ec_read_byte (reg +ℤ pos 1) w1 in
      let low_kept = k.read_keeps reg w h in
      let high_kept = k.read_keeps (reg +ℤ pos 1) w1 low_kept in
      if_elim (IntKept M cfg P k) (ltb_ℤ low (pos 0)) low_kept
        (if_elim (IntKept M cfg P k) (ltb_ℤ high (pos 0)) high_kept high_kept)

  raw_keeps : (fan : FanConfig) (w : World) → P w → P (read_raw M cfg fan w).1
  unfolding read_raw
  raw_keeps fan w h =
      if_elim (IntKept M cfg P k) cfg.read_words (word_keeps _ w h) (k.read_keeps _ w h)

  control_keeps :
      (fan : FanConfig) (ec_temp temp : ℤ) (w : World)
      → P w
      → P (read_control_temp M fan ec_temp temp w).1
  unfolding read_control_temp
  control_keeps fan ec_temp temp w h =
      if_elim (IntKept M cfg P k) (leb_ℤ (pos 0) ec_temp) h
        (if_elim (IntKept M cfg P k) (uses_control_group fan) (k.sensor_keeps _ w h) h)

  read_fan_keeps : (fan : FanConfig) (w : World) → P w → P (read_fan M cfg fan w).1
  unfolding read_fan
  read_fan_keeps fan w h =
      let (raw, w1) = read_raw M cfg fan w in
      let (write_value, w2) = M.ec_read_byte fan.write_register w1 in
      let (ec_temp, w3) = read_ec_temperature_c M fan.temperature_register w2 in
      let (temp, w4) = fallback_to_group M ec_temp fan.sensor_group w3 in
      let (ec_control, w5) = read_ec_temperature_c M fan.control_temperature_register w4 in
      control_keeps fan ec_control temp w5 (
        ec_temperature_keeps _ w4 (
          group_keeps ec_temp _ w3
            (ec_temperature_keeps _ w2 (k.read_keeps _ w1 (raw_keeps fan w h)))))

  refresh_keeps :
      (fans : List FanConfig) (states : List FanState) (forced : Reason) (w : World)
      → P w
      → P (refresh_fans M cfg fans states forced w).2
  unfolding refresh_fans
  refresh_keeps [] states forced w h = h
  refresh_keeps (fan ∷ fans) [] forced w h = h
  refresh_keeps (fan ∷ fans) (s ∷ states) forced w h =
      let (r, w1) = read_fan M cfg fan w in
      let s' = observe_fan cfg r s in
      refresh_keeps fans states (forced_by cfg s' forced) w1 (read_fan_keeps fan w h)

  restore_keeps :
      (firmware_auto was_active is_active : Bool) (w : World)
      → P w
      → P (restore_firmware_auto_mode_if_needed M cfg firmware_auto was_active is_active w)
  unfolding restore_firmware_auto_mode_if_needed
  restore_keeps fa was is w h = if_elim P _ (firmware_mode_keeps M cfg P k w h) h

  -- A round of the daemon writes to the EC only what the profile provides for: for a valid list
  -- of fans, a predicate on the world that every read, every sensor and every permitted write
  -- keep is kept by a whole round, in every control mode.
  pub update_keeps :
      (states : List FanState) (auto_mode : Bool) (preset : Bytes) (w : World)
      → All IsValidFan cfg.fans
      → P w
      → P (update_fan_states M cfg states auto_mode preset w).1
  unfolding update_fan_states refresh_fan_observations
  update_keeps states auto_mode preset w v h = restore_keeps _ _ _ _ (
      drive_all_keep cfg.fans _ auto_mode _ _ _ _ v (own_members cfg.fans)
        (refresh_keeps cfg.fans states ok w h))
