-- ===== src/Daemon/Sound.antt =====
-- The invariant of a fan, and the loops of the commands over the fans.
use acer_nitro_sense_linux.Config.Types.{AnsConfig, FanConfig}
use acer_nitro_sense_linux.Config.Valid.{IsValidFan, IsValidProfile}
use acer_nitro_sense_linux.Daemon.Fan.{reset_speeds}
use acer_nitro_sense_linux.Fan.Invariant.{IsSound, set_fan_percent-IsSound}
use acer_nitro_sense_linux.Fan.Requests.{apply_coolboost, apply_current_control_state, reapply}
use acer_nitro_sense_linux.Fan.State.{FanState, Reason, kept_percent}
use acer_nitro_sense_linux.Machine.{Machine}
use acer_nitro_sense_linux.Prelude.{All, Bool, List, [], if_elim, not, ◌++◌, ◌∷◌}

pub All-append :
    {A : Type 0} (P : A → Type 0) (xs ys : List A) → All P xs → All P ys → All P (xs ++ ys)
All-append P [] ys h k = k
All-append P (x ∷ xs) ys (h, hs) k = (h, All-append P xs ys hs k)

module _ (M : Machine) (cfg : AnsConfig) (v : IsValidProfile cfg) where
  open M use {World}

  reapply-IsSound :
      (fans : List FanConfig) (states : List FanState) (forced : Reason) (w : World)
      → All IsValidFan fans
      → All (IsSound cfg.safety) states
      → All (IsSound cfg.safety) (reapply M cfg fans states forced w).0
  unfolding reapply
  reapply-IsSound [] states forced w vf h = h
  reapply-IsSound (fan ∷ fans) [] forced w vf h = h
  reapply-IsSound (fan ∷ fans) (s ∷ states) forced w (vf, vfs) (h, hs) = (
    set_fan_percent-IsSound M cfg fan s (kept_percent s) forced w v.0 vf h,
    reapply-IsSound fans states forced _ vfs hs,
  )

  pub current-IsSound :
      (states : List FanState) (w : World)
      → All (IsSound cfg.safety) states
      → All (IsSound cfg.safety) (apply_current_control_state M cfg states w).0
  unfolding apply_current_control_state
  current-IsSound states w h = reapply-IsSound cfg.fans states _ w v.1 h

  pub coolboost-IsSound :
      (states : List FanState) (enabled : Bool) (w : World)
      → All (IsSound cfg.safety) states
      → All (IsSound cfg.safety) (apply_coolboost M cfg states enabled w).1
  unfolding apply_coolboost
  coolboost-IsSound states enabled w h =
      let Q : Bool × List FanState × World → Type 0 = λ r. All (IsSound cfg.safety) r.1 in
      if_elim Q (not cfg.fan_modes.available) h
        (if_elim Q enabled h (if_elim Q _ h (current-IsSound states _ h)))

  pub reset-IsSound :
      (fans : List FanConfig) (done states : List FanState) (w : World)
      → All IsValidFan fans
      → All (IsSound cfg.safety) done
      → All (IsSound cfg.safety) states
      → All (IsSound cfg.safety) (reset_speeds M cfg fans done states w).0
  unfolding reset_speeds
  reset-IsSound [] done states w vf k h = All-append (IsSound cfg.safety) done states k h
  reset-IsSound (fan ∷ fans) done [] w vf k h = k
  reset-IsSound (fan ∷ fans) done (s ∷ states) w (vf, vfs) k (h, hs) =
      let s_sound = set_fan_percent-IsSound M cfg fan s fan.reset_speed _ w v.0 vf h in
      reset-IsSound fans _ states _ vfs (All-append (IsSound cfg.safety) done _ k (s_sound, tt)) hs
