-- ===== src/Daemon/Chosen.antt =====
-- What `set` of commands/daemon/fan.c does to the fans that its name chooses.
use acer_nitro_sense_linux.Config.Types.{AnsConfig, FanConfig}
use acer_nitro_sense_linux.Config.Valid.{IsWithin}
use acer_nitro_sense_linux.Daemon.Fan.{
  disable_coolboost_if_needed, fan_command_prepare_daemon_control, set_command,
}
use acer_nitro_sense_linux.Daemon.Types.{DaemonState, fan_command_set_control_mode}
use acer_nitro_sense_linux.Fan.Forced.{WritesWork, set_forced, set_forced_world}
use acer_nitro_sense_linux.Fan.Policy.{fan_safety_adjust_percent}
use acer_nitro_sense_linux.Fan.Ramp.{set_records}
use acer_nitro_sense_linux.Fan.Requests.{set_matching, set_one}
use acer_nitro_sense_linux.Fan.Safety.{global_safety_reason, set_fan_percent}
use acer_nitro_sense_linux.Fan.State.{FanState, Reason}
use acer_nitro_sense_linux.Machine.{Machine}
use acer_nitro_sense_linux.Platform.FanMode.{
  apply_daemon_control_fan_mode, apply_fan_mode, fan_mode_values, write_both,
}
use acer_nitro_sense_linux.Prelude.{
  Bool, Bool-cases, Bytes, List, [], ap, arith, codes, false, if◌then◌else◌, inl, inr, pos, refl,
  str_eq, true, ℤ, ◌==◌, ◌||◌, ◌∙◌, ◌∷◌, ◌≡◌,
}
use acer_nitro_sense_linux.Util.Number.{clamp_int}
use acer_nitro_sense_linux.Util.Text.{string_copy}

-- The fan is the one that is named, or all are.
abbrev pub is_chosen : Bytes → FanConfig → Bool
is_chosen id fan = str_eq id (codes "all") || str_eq fan.id id

-- A chosen fan keeps the percentage as its request and is at the speed that the policy makes of
-- it; another fan is as it was.
abbrev pub IsSetAs : AnsConfig → Bytes → ℤ → Reason → FanConfig → FanState → FanState → Type 0
IsSetAs cfg id percent forced fan s s' =
    (is_chosen id fan ≡ true
      → (s'.requested_percent ≡ percent)
        × (s'.percent ≡ (fan_safety_adjust_percent cfg fan s percent forced).percent))
    × (is_chosen id fan ≡ false → s' ≡ s)

abbrev pub AllSetAs :
    AnsConfig → Bytes → ℤ → Reason → List FanConfig → List FanState → List FanState → Type 0
AllSetAs cfg id percent forced [] states states' = states' ≡ states
AllSetAs cfg id percent forced (fan ∷ fans) [] states' = states' ≡ []
AllSetAs cfg id percent forced (fan ∷ fans) (s ∷ states) [] = ⊥
AllSetAs cfg id percent forced (fan ∷ fans) (s ∷ states) (s' ∷ states') =
    IsSetAs cfg id percent forced fan s s' × AllSetAs cfg id percent forced fans states states'

module _ (M : Machine) where
  open M use {World, ec_write_byte}

  -- Each chosen fan in turn gets its speed, clamped to its write range, in its register.
  unfoldable pub speeds_written :
      AnsConfig → Bytes → ℤ → Reason → List FanConfig → List FanState → World → World
  speeds_written cfg id percent forced [] states w = w
  speeds_written cfg id percent forced (fan ∷ fans) [] w = w
  speeds_written cfg id percent forced (fan ∷ fans) (s ∷ states) w =
      let speed = (fan_safety_adjust_percent cfg fan s percent forced).percent in
      let w1 =
        (ec_write_byte fan.write_register (clamp_int speed fan.write_min fan.write_max) w).1 in
      speeds_written cfg id percent forced fans states (if is_chosen id fan then w1 else w)

  -- The EC answers 0 to every write.
  abbrev pub WritesSucceed : Type 0
  WritesSucceed = (reg value : ℤ) (w : World) → (ec_write_byte reg value w).0 ≡ pos 0

  succeed-WritesWork : WritesSucceed → WritesWork M
  succeed-WritesWork works reg value w = rw (works reg value w) (omega arith)

  one_set :
      (cfg : AnsConfig) (id : Bytes) (percent : ℤ) (forced : Reason) (fan : FanConfig)
      (s : FanState) (w : World)
      → WritesSucceed
      → IsWithin (pos 1) (pos 100) percent
      → let (s', _, w1) = set_fan_percent M cfg fan s percent forced w in
        IsSetAs cfg id percent forced fan s (if is_chosen id fan then s' else s)
        × ((if is_chosen id fan then w1 else w) ≡ (
            if is_chosen id fan
            then (ec_write_byte fan.write_register
                (clamp_int
                  (fan_safety_adjust_percent cfg fan s percent forced).percent
                  fan.write_min
                  fan.write_max)
                w).1
            else w))
  one_set cfg id percent forced fan s w works inside =
      let work = succeed-WritesWork works in
      let (requested, _) = set_records M cfg fan s percent forced w work inside.0 inside.1 in
      let speed = set_forced M cfg fan s percent forced w work in
      elim (Bool-cases (is_chosen id fan)) [
        | inl named ↦
            rw named (
              ((λ _. (requested, speed)), λ e. cc e),
              set_forced_world M cfg fan s percent forced w,
            )
        | inr other ↦ rw other (((λ e. cc e), λ _. refl), refl)
      ]

  matching_set :
      (cfg : AnsConfig) (id : Bytes) (percent : ℤ) (forced : Reason) (fans : List FanConfig)
      (states : List FanState) (w : World)
      → WritesSucceed
      → IsWithin (pos 1) (pos 100) percent
      → let (states', _, w') = set_matching M cfg fans states id percent forced w in
        AllSetAs cfg id percent forced fans states states'
        × (w' ≡ speeds_written cfg id percent forced fans states w)
  unfolding set_matching speeds_written
  matching_set cfg id percent forced [] states w works inside = (refl, refl)
  matching_set cfg id percent forced (fan ∷ fans) [] w works inside = (refl, refl)
  matching_set cfg id percent forced (fan ∷ fans) (s ∷ states) w works inside =
      let (here, same) = one_set cfg id percent forced fan s w works inside in
      let next = if is_chosen id fan then (set_fan_percent M cfg fan s percent forced w).2 else w in
      let (rest, sent) = matching_set cfg id percent forced fans states next works inside in
      ((here, rest), sent ∙ ap (speeds_written cfg id percent forced fans states) same)

  control_taken :
      (cfg : AnsConfig) (w : World)
      → WritesSucceed
      → (apply_daemon_control_fan_mode M cfg w).0 ≡ true
  unfolding apply_daemon_control_fan_mode apply_fan_mode write_both fan_mode_values
  control_taken cfg w works =
      let (r1, w1) = ec_write_byte cfg.fan_modes.cpu_reg cfg.fan_modes.cpu_manual_value w in
      ground (
        arith,
        works cfg.fan_modes.cpu_reg cfg.fan_modes.cpu_manual_value w,
        works cfg.fan_modes.gpu_reg cfg.fan_modes.gpu_manual_value w1,
      )

  -- What `set` leaves, from a state `d` of the daemon: manual control, the chosen fans set from the
  -- states that leaving coolboost gives, and their speeds the last writes to the EC.
  abbrev pub IsManualAt : AnsConfig → Bytes → ℤ → DaemonState → World → DaemonState → World → Type 0
  IsManualAt cfg id percent d w d' w' =
      let (_, before, w1) = fan_command_prepare_daemon_control M cfg d w in
      let forced = global_safety_reason cfg before.states in
      (d'.auto_mode ≡ false)
      × (d'.preset ≡ codes "manual")
      × AllSetAs cfg id percent forced cfg.fans before.states d'.states
      × (w' ≡ speeds_written cfg id percent forced cfg.fans before.states w1)

  pub set_command-IsManualAt :
      (cfg : AnsConfig) (id : Bytes) (percent : ℤ) (d : DaemonState) (w : World)
      → WritesSucceed
      → IsWithin (pos 1) (pos 100) percent
      → let (d', _, w') = set_command M cfg id percent d w in IsManualAt cfg id percent d w d' w'
  unfolding set_command set_one fan_command_set_control_mode fan_command_prepare_daemon_control
      string_copy
  set_command-IsManualAt cfg id percent d w works inside =
      let (switched, before, w1) = fan_command_prepare_daemon_control M cfg d w in
      let taken : switched ≡ true =
        control_taken cfg (disable_coolboost_if_needed M cfg d w).1 works in
      let forced = global_safety_reason cfg before.states in
      let changed = (set_matching M cfg cfg.fans before.states id percent forced w1).1 in
      let (sets, sent) =
        matching_set cfg id percent forced cfg.fans before.states w1 works inside in
      elim (Bool-cases (changed == 0)) [
        | inl e ↦ rw (set_command, taken, e) (refl, refl, sets, sent)
        | inr e ↦ rw (set_command, taken, e) (refl, refl, sets, sent)
      ]
