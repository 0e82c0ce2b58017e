-- ===== src/Fan/Permitted/Requests.antt =====
-- Permitted writes, and the writes of src/fan/control.c that commands make.
use acer_nitro_sense_linux.Config.Find.{config_find_preset}
use acer_nitro_sense_linux.Config.Types.{AnsConfig, FanConfig, PresetConfig}
use acer_nitro_sense_linux.Config.Valid.{IsValidFan}
use acer_nitro_sense_linux.Daemon.Fan.{reset_speeds}
use acer_nitro_sense_linux.Fan.Permitted.{IsKept, mode_keeps, own_members, set_keeps}
use acer_nitro_sense_linux.Fan.Requests.{
  apply_coolboost, apply_current_control_state, apply_preset, reapply, set_matching, set_one,
  set_preset,
}
use acer_nitro_sense_linux.Fan.State.{FanState, Reason, kept_percent}
use acer_nitro_sense_linux.Machine.{Machine}
use acer_nitro_sense_linux.Platform.FanMode.{apply_fan_mode, manual, turbo}
use acer_nitro_sense_linux.Prelude.{
  All, Bool, Bytes, List, Option-cases, [], arith, codes, if_elim, inl, inr, not, some, str_eq, ℤ,
  ◌||◌, ◌∷◌, ◌≡◌,
}
use mathlib.Core.List.{Memᴰ}

module _ (M : Machine) (cfg : AnsConfig) (P : M.World → Type 0) (k : IsKept M cfg P) where
  open M use {World}

  match_keeps :
      (fans : List FanConfig) (states : List FanState) (id : Bytes) (p : ℤ) (forced : Reason)
      (w : World)
      → All IsValidFan fans
      → All (λ fan. Memᴰ fan cfg.fans) fans
      → P w
      → P (set_matching M cfg fans states id p forced w).2
  unfolding set_matching
  match_keeps [] states id p forced w v m h = h
  match_keeps (fan ∷ fans) [] id p forced w v m h = h
  match_keeps (fan ∷ fans) (s ∷ states) id p forced w (v, vs) (m, ms) h =
      match_keeps fans states id p forced _ vs ms (
        if_elim P (str_eq id (codes "all") || str_eq fan.id id)
          (set_keeps M cfg P k fan s p forced w v m h) h)

  pub one_keeps :
      (states : List FanState) (id : Bytes) (p : ℤ) (w : World)
      → All IsValidFan cfg.fans
      → P w
      → P (set_one M cfg states id p w).2
  unfolding set_one
  one_keeps states id p w v h = match_keeps cfg.fans states id p _ w v (own_members cfg.fans) h

  preset_keeps :
      (states : List FanState) (p : PresetConfig) (w : World)
      → All IsValidFan cfg.fans
      → P w
      → P (set_preset M cfg states p w).1
  unfolding set_preset
  preset_keeps states p w v h =
      one_keeps _ (codes "gpu") p.gpu _ v (one_keeps states (codes "cpu") p.cpu w v h)

  pub applied_keeps :
      (states : List FanState) (id : Bytes) (w : World) {states' : List FanState} {w' : World}
      → All IsValidFan cfg.fans
      → P w
      → apply_preset M cfg states id w ≡ some (states', w')
      → P w'
  unfolding apply_preset
  applied_keeps states id w {states'} {w'} v h e = elim (Option-cases (config_find_preset cfg id)) [
    | inl missing ↦ cc
    | inr (p, found) ↦
        let same : (set_preset M cfg states p w).1 ≡ w' = ground arith in
        rw same at (preset_keeps states p w v h)
  ]

  reapply_keeps :
      (fans : List FanConfig) (states : List FanState) (forced : Reason) (w : World)
      → All IsValidFan fans
      → All (λ fan. Memᴰ fan cfg.fans) fans
      → P w
      → P (reapply M cfg fans states forced w).1
  unfolding reapply
  reapply_keeps [] states forced w v m h = h
  reapply_keeps (fan ∷ fans) [] forced w v m h = h
  reapply_keeps (fan ∷ fans) (s ∷ states) forced w (v, vs) (m, ms) h =
      reapply_keeps fans states forced _ vs ms
        (set_keeps M cfg P k fan s (kept_percent s) forced w v m h)

  pub coolboost_keeps :
      (states : List FanState) (enabled : Bool) (w : World)
      → All IsValidFan cfg.fans
      → P w
      → P (apply_coolboost M cfg states enabled w).2
  unfolding apply_coolboost apply_current_control_state
  coolboost_keeps states enabled w v h =
      let Q : Bool × List FanState × World → Type 0 = λ r. P r.2 in
      let manual_kept = mode_keeps M cfg P k (some manual) w h in
      if_elim Q (not cfg.fan_modes.available) h (
        if_elim Q enabled (mode_keeps M cfg P k (some turbo) w h) (
          if_elim Q (not (apply_fan_mode M cfg (some manual) w).0) manual_kept
            (reapply_keeps cfg.fans states _ _ v (own_members cfg.fans) manual_kept)))

  pub reset_keeps :
      (fans : List FanConfig) (done states : List FanState) (w : World)
      → All IsValidFan fans
      → All (λ fan. Memᴰ fan cfg.fans) fans
      → P w
      → P (reset_speeds M cfg fans done states w).1
  unfolding reset_speeds
  reset_keeps [] done states w v m h = h
  reset_keeps (fan ∷ fans) done [] w v m h = h
  reset_keeps (fan ∷ fans) done (s ∷ states) w (v, vs) (m, ms) h =
      reset_keeps fans _ states _ vs ms (set_keeps M cfg P k fan s fan.reset_speed _ w v m h)
