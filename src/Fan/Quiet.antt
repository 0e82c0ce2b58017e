-- ===== src/Fan/Quiet.antt =====
-- When the loop of fan/control.c leaves the fans to the firmware.
use acer_nitro_sense_linux.Config.Types.{AnsConfig, FanConfig}
use acer_nitro_sense_linux.Fan.Control.{Override, drive_fan, drive_fans, fan_target_percent}
use acer_nitro_sense_linux.Fan.Policy.{fan_safety_adjust_percent}
use acer_nitro_sense_linux.Fan.Policy.Laws.{IsNormal, adjust_ok}
use acer_nitro_sense_linux.Fan.State.{FanState, Reason, kept_percent, ok, reason_has_value}
use acer_nitro_sense_linux.Machine.{Machine}
use acer_nitro_sense_linux.Prelude.{
  Bool-cases, List, [], arith, false, inl, inr, pos, refl, true, ◌↔◌, ◌∷◌, ◌≡◌, ◌⊎◌,
}
use acer_nitro_sense_linux.Util.Number.{clamp_int}

-- No fan gives the policy a reason to interfere, at the request that it keeps.
abbrev pub AllNormal : AnsConfig → Reason → List FanConfig → List FanState → Type 0
AllNormal cfg forced [] states = Unit
AllNormal cfg forced (fan ∷ fans) [] = Unit
AllNormal cfg forced (fan ∷ fans) (s ∷ states) =
    IsNormal cfg fan s (clamp_int (kept_percent s) (pos 1) (pos 100)) forced
    × AllNormal cfg forced fans states

reason_is_ok : (r : Reason) → (reason_has_value r ≡ false) ↔ (r ≡ ok)
reason_is_ok r = ground arith

module _ (M : Machine) where
  open M use {World}

  active_stays :
      (cfg : AnsConfig) (fans : List FanConfig) (forced : Reason) (o : Override)
      (states : List FanState) (w : World)
      → o.active ≡ true
      → (drive_fans M cfg fans true false forced o states w).1.active ≡ true
  unfolding drive_fans drive_fan
  active_stays cfg [] forced o states w h = h
  active_stays cfg (fan ∷ fans) forced o [] w h = h
  active_stays cfg (fan ∷ fans) forced o (s ∷ states) w h =
      let p = fan_target_percent cfg fan s false forced in
      let (_, o', w') = drive_fan M cfg fan true forced p o s w in
      let still : o'.active ≡ true = ground arith in active_stays cfg fans forced o' states w' still

  -- Under firmware-auto one fan is left alone exactly if it is normal.
  drive_one :
      (cfg : AnsConfig) (fan : FanConfig) (forced : Reason) (o : Override) (s : FanState)
      (w : World)
      → let p = clamp_int (kept_percent s) (pos 1) (pos 100) in
        let (_, o', w') =
          drive_fan M cfg fan true forced (fan_target_percent cfg fan s false forced) o s w in
        (IsNormal cfg fan s p forced × (o' ≡ o) × (w' ≡ w))
        ⊎ ((o'.active ≡ true) × (IsNormal cfg fan s p forced → ⊥))
  unfolding drive_fan fan_target_percent
  drive_one cfg fan forced o s w =
      let r = (fan_safety_adjust_percent cfg fan s (kept_percent s) forced).reason in
      let iff = adjust_ok cfg fan s (kept_percent s) forced in
      elim (Bool-cases (reason_has_value r)) [
        | inl busy ↦
            rw busy (inr (refl, λ normal. absurd (cc (busy, (reason_is_ok r).1 (iff.1 normal)))))
        | inr free ↦ rw free (inl (iff.0 ((reason_is_ok r).0 free), refl, refl))
      ]

  -- Under firmware-auto, before any fan was overridden in this round: the loop over the fans ends
  -- without an override, with its flags and the world as they were, exactly if every fan is
  -- normal at the request that it keeps: no reason is forced, its write failures are below their
  -- limit, with a control temperature its critical samples are below their limit and the request
  -- is not below the minimum speed of that temperature, and without one the request is not below
  -- the fallback speed.
  pub firmware_left_alone_iff :
      (cfg : AnsConfig) (fans : List FanConfig) (forced : Reason) (o : Override)
      (states : List FanState) (w : World)
      → o.active ≡ false
      → let (_, o', w') = drive_fans M cfg fans true false forced o states w in
        ((o'.active ≡ false) × (o' ≡ o) × (w' ≡ w)) ↔ AllNormal cfg forced fans states
  unfolding drive_fans
  firmware_left_alone_iff cfg [] forced o states w h = ((λ _. tt), λ _. (h, refl, refl))
  firmware_left_alone_iff cfg (fan ∷ fans) forced o [] w h = ((λ _. tt), λ _. (h, refl, refl))
  firmware_left_alone_iff cfg (fan ∷ fans) forced o (s ∷ states) w h =
      let p = fan_target_percent cfg fan s false forced in
      let (_, o', w') = drive_fan M cfg fan true forced p o s w in
      elim (drive_one cfg fan forced o s w) [
        | inl (normal, same_o, same_w) ↦
            let (to, from) = firmware_left_alone_iff cfg fans forced o states w h in
            rw (same_o, same_w) ((λ e. (normal, to e)), λ (_, ns). from ns)
        | inr (active, abnormal) ↦
            let stays = active_stays cfg fans forced o' states w' active in
            ((λ e. absurd (cc (stays, e.0))), λ (n, ns). absurd (abnormal n))
      ]
