-- ===== src/Fan/Requests.antt =====
-- fan/control.c: the writes that commands make; `apply_coolboost` of platform/fan_mode.c, which
-- calls back into fan/control.c.
use acer_nitro_sense_linux.Config.Find.{config_find_preset}
use acer_nitro_sense_linux.Config.Types.{AnsConfig, FanConfig, PresetConfig}
use acer_nitro_sense_linux.Fan.Safety.{global_safety_reason, set_fan_percent}
use acer_nitro_sense_linux.Fan.State.{FanState, Reason, kept_percent}
use acer_nitro_sense_linux.Machine.{Machine}
use acer_nitro_sense_linux.Platform.FanMode.{apply_fan_mode, manual, turbo}
use acer_nitro_sense_linux.Prelude.{
  Bool, Bytes, List, Option, [], codes, false, if◌then◌else◌, leb_ℤ, none, not, pos, set, some,
  str_eq, true, ℕ, ℤ, ◌&&◌, ◌+◌, ◌||◌, ◌∷◌,
}

module _ (M : Machine) where
  open M use {World}

  -- The loop of `set_one`: the states, and how many fans took the speed.
  unfoldable pub set_matching :
      AnsConfig
      → List FanConfig
      → List FanState
      → Bytes
      → ℤ
      → Reason
      → World
      → List FanState × ℕ × World
  set_matching cfg [] states id percent forced w = (states, 0, w)
  set_matching cfg (fan ∷ fans) [] id percent forced w = ([], 0, w)
  set_matching cfg (fan ∷ fans) (s ∷ states) id percent forced w =
      let chosen = str_eq id (codes "all") || str_eq fan.id id in
      let (set, effective, w1) = set_fan_percent M cfg fan s percent forced w in
      let (states', changed, w') =
        set_matching cfg fans states id percent forced (if chosen then w1 else w) in
      (
        (if chosen then set else s) ∷ states',
        (if chosen && leb_ℤ (pos 0) effective then changed + 1 else changed),
        w',
      )

  unfoldable pub set_one : AnsConfig → List FanState → Bytes → ℤ → World → List FanState × ℕ × World
  set_one cfg states id percent w =
      set_matching cfg cfg.fans states id percent (global_safety_reason cfg states) w

  -- The two writes of `apply_preset`.
  unfoldable pub set_preset :
      AnsConfig → List FanState → PresetConfig → World → List FanState × World
  set_preset cfg states preset w =
      let (states1, _, w1) = set_one cfg states (codes "cpu") preset.cpu w in
      let (states2, _, w2) = set_one cfg states1 (codes "gpu") preset.gpu w1 in (states2, w2)

  -- `none` where the profile has no such preset: the code then returns false.
  unfoldable pub apply_preset :
      AnsConfig → List FanState → Bytes → World → Option (List FanState × World)
  apply_preset cfg states id w = elim (config_find_preset cfg id) [
    | none ↦ none
    | some preset ↦ some (set_preset cfg states preset w)
  ]

  unfoldable pub reapply :
      AnsConfig → List FanConfig → List FanState → Reason → World → List FanState × World
  reapply cfg [] states forced w = (states, w)
  reapply cfg (fan ∷ fans) [] forced w = ([], w)
  reapply cfg (fan ∷ fans) (s ∷ states) forced w =
      let (s', _, w1) = set_fan_percent M cfg fan s (kept_percent s) forced w in
      let (states', w') = reapply cfg fans states forced w1 in (s' ∷ states', w')

  unfoldable pub apply_current_control_state :
      AnsConfig → List FanState → World → List FanState × World
  apply_current_control_state cfg states w =
      reapply cfg cfg.fans states (global_safety_reason cfg states) w

  -- platform/fan_mode.c
  unfoldable pub apply_coolboost :
      AnsConfig → List FanState → Bool → World → Bool × List FanState × World
  apply_coolboost cfg states enabled w =
      let (turbo_set, w1) = apply_fan_mode M cfg (some turbo) w in
      let (manual_set, w2) = apply_fan_mode M cfg (some manual) w in
      let (states', w3) = apply_current_control_state cfg states w2 in
      if not cfg.fan_modes.available
      then (false, states, w)
      else if enabled
      then (turbo_set, states, w1)
      else if not manual_set
      then (false, states, w2)
      else (true, states', w3)
