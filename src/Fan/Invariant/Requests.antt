-- ===== src/Fan/Invariant/Requests.antt =====
-- The invariant of a fan, and the writes of src/fan/control.c that commands make.
use acer_nitro_sense_linux.Config.Find.{config_find_preset}
use acer_nitro_sense_linux.Config.Types.{AnsConfig, FanConfig, PresetConfig}
use acer_nitro_sense_linux.Config.Valid.{IsValidFan, IsValidProfile, IsValidSafety}
use acer_nitro_sense_linux.Fan.Invariant.{IsSound, set_fan_percent-IsSound}
use acer_nitro_sense_linux.Fan.Requests.{apply_preset, set_matching, set_one, set_preset}
use acer_nitro_sense_linux.Fan.Safety.{global_safety_reason}
use acer_nitro_sense_linux.Fan.State.{FanState, Reason}
use acer_nitro_sense_linux.Machine.{Machine}
use acer_nitro_sense_linux.Prelude.{
  All, Bytes, List, Option-cases, [], arith, codes, if_elim, inl, inr, some, ℤ, ◌∷◌, ◌≡◌,
}

module _ (M : Machine) where
  open M use {World}

  set_matching-IsSound :
      (cfg : AnsConfig) (fans : List FanConfig) (states : List FanState) (id : Bytes) (p : ℤ)
      (forced : Reason) (w : World)
      → IsValidSafety cfg.critical_temperature_c cfg.safety
      → All IsValidFan fans
      → All (IsSound cfg.safety) states
      → All (IsSound cfg.safety) (set_matching M cfg fans states id p forced w).0
  unfolding set_matching
  set_matching-IsSound cfg [] states id p forced w v vf h = h
  set_matching-IsSound cfg (fan ∷ fans) [] id p forced w v vf h = h
  set_matching-IsSound cfg (fan ∷ fans) (s ∷ states) id p forced w v (vf, vfs) (h, hs) = (
    if_elim (IsSound cfg.safety) _ (set_fan_percent-IsSound M cfg fan s p forced w v vf h) h,
    set_matching-IsSound cfg fans states id p forced _ v vfs hs,
  )

  pub set_one-IsSound :
      (cfg : AnsConfig) (states : List FanState) (id : Bytes) (p : ℤ) (w : World)
      → IsValidProfile cfg
      → All (IsSound cfg.safety) states
      → All (IsSound cfg.safety) (set_one M cfg states id p w).0
  unfolding set_one
  set_one-IsSound cfg states id p w v h =
      set_matching-IsSound cfg cfg.fans states id p (global_safety_reason cfg states) w v.0 v.1 h

  set_preset-IsSound :
      (cfg : AnsConfig) (states : List FanState) (preset : PresetConfig) (w : World)
      → IsValidProfile cfg
      → All (IsSound cfg.safety) states
      → All (IsSound cfg.safety) (set_preset M cfg states preset w).0
  unfolding set_preset
  set_preset-IsSound cfg states preset w v h =
      let (states1, _, w1) = set_one M cfg states (codes "cpu") preset.cpu w in
      set_one-IsSound cfg states1 (codes "gpu") preset.gpu w1 v
        (set_one-IsSound cfg states (codes "cpu") preset.cpu w v h)

  -- For a valid profile, a preset that it has keeps the invariant of every fan.
  pub apply_preset-IsSound :
      (cfg : AnsConfig) (states : List FanState) (id : Bytes) (w : World) {states' : List FanState}
      {w' : World}
      → IsValidProfile cfg
      → All (IsSound cfg.safety) states
      → apply_preset M cfg states id w ≡ some (states', w')
      → All (IsSound cfg.safety) states'
  unfolding apply_preset
  apply_preset-IsSound cfg states id w {states'} v h e =
      elim (Option-cases (config_find_preset cfg id)) [
        | inl missing ↦ cc
        | inr (preset, found) ↦
            let done : (set_preset M cfg states preset w).0 ≡ states' = ground arith in
            rw done at (set_preset-IsSound cfg states preset w v h)
      ]
