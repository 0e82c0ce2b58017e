-- ===== src/State/RoundTrip/Restored.antt =====
-- The state after saving and restoring.
use acer_nitro_sense_linux.Config.Find.{config_find_preset}
use acer_nitro_sense_linux.Config.Types.{AnsConfig}
use acer_nitro_sense_linux.Daemon.Types.{DaemonState, Service, preset_len}
use acer_nitro_sense_linux.Fan.Requests.{apply_preset}
use acer_nitro_sense_linux.Machine.{Machine}
use acer_nitro_sense_linux.Platform.FanMode.{apply_firmware_auto_fan_mode, firmware_auto_preset}
use acer_nitro_sense_linux.Prelude.{
  Bool, Bytes, Option, ap, arith, codes, false, if_elim, if_false, if_true, length, none, refl,
  some, str_eq, str_eq_iff, true, ℤ, ◌&&◌, ◌<◌, ◌∙◌, ◌≡◌,
}
use acer_nitro_sense_linux.State.Restore.{
  apply_saved_fan_percentages, leave_coolboost, read_mode, restore_auto_control_state,
  restore_control_state_from_json, restore_daemon_control, restore_firmware_auto_control_state,
  restore_manual_control_state, restore_mode, restore_named_preset_control_state,
  restore_runtime_state_from_json, with_preset,
}
use acer_nitro_sense_linux.State.RoundTrip.{
  SavedMode, auto_apply_key, auto_key, preset_key, saved_auto, saved_firmware, saved_manual,
  timeout_key,
}
use acer_nitro_sense_linux.State.Saved.{saved_text}
use acer_nitro_sense_linux.State.Write.{state_head, write_control_state}
use acer_nitro_sense_linux.Util.Text.{string_copy, string_copy-fits}

pub name_copied :
    (d : DaemonState) (name : Bytes)
    → length name < preset_len
    → (string_copy d.preset preset_len (some name)).1 ≡ name
name_copied d name h = ap (λ r. r.1) (string_copy-fits d.preset preset_len name h)

module _ (M : Machine) (cfg : AnsConfig) where
  open M use {World}

  -- The control mode and the preset of a state.
  abbrev pub Controls : Bool → Bytes → DaemonState → Type 0
  Controls mode name d = (d.auto_mode ≡ mode) × (d.preset ≡ name)

  pub leave_coolboost-Controls :
      (mode : Bool) (name : Bytes) (d : DaemonState) (w : World)
      → Controls mode name d
      → Controls mode name (leave_coolboost M cfg d w).0
  unfolding leave_coolboost
  leave_coolboost-Controls mode name d w h =
      let Q : DaemonState × World → Type 0 = λ r. Controls mode name r.0 in if_elim Q _ h h

  restore_auto-Controls :
      (json : Bytes) (d : DaemonState) (w : World)
      → d.auto_mode ≡ true
      → Controls true (codes "auto") (restore_mode M cfg json d w).0
  unfolding restore_mode restore_auto_control_state restore_daemon_control
      apply_saved_fan_percentages with_preset
  restore_auto-Controls json d w h =
      rw (restore_mode, h) (refl, name_copied d (codes "auto") (omega arith))

  firmware_restores :
      (json : Bytes) (d : DaemonState) (w : World)
      → d.auto_mode ≡ false
      → str_eq d.preset firmware_auto_preset ≡ true
      → restore_mode M cfg json d w ≡ restore_firmware_auto_control_state M cfg json d w
  unfolding restore_mode
  firmware_restores json d w h by_firmware =
      if_false d.auto_mode _ h ∙ if_true (str_eq d.preset firmware_auto_preset) _ by_firmware

  restore_firmware-Controls :
      (json : Bytes) (d : DaemonState) (w : World)
      → d.auto_mode ≡ false
      → d.preset ≡ codes "firmware-auto"
      → (apply_firmware_auto_fan_mode M cfg w).0 ≡ true
      → Controls false (codes "firmware-auto") (restore_mode M cfg json d w).0
  unfolding restore_firmware_auto_control_state with_preset
  restore_firmware-Controls json d w h named by_firmware =
      rw
        (
          firmware_restores json d w h ((str_eq_iff d.preset firmware_auto_preset).1 named),
          by_firmware,
        )
        (h, name_copied d firmware_auto_preset (omega arith))

  -- Where the profile does not have the preset, the code restores manual control.
  manual_restores :
      (json : Bytes) (d : DaemonState) (w : World)
      → d.auto_mode ≡ false
      → str_eq d.preset firmware_auto_preset ≡ false
      → restore_named_preset_control_state M cfg d w ≡ none
      → restore_mode M cfg json d w ≡ restore_manual_control_state M cfg json d w
  unfolding restore_mode
  manual_restores json d w h other unknown =
      let pick : Option (DaemonState × World) → DaemonState × World =
        λ o. elim o [ none ↦ restore_manual_control_state M cfg json d w | some r ↦ r ] in
      if_false d.auto_mode _ h
      ∙ if_false (str_eq d.preset firmware_auto_preset) _ other
      ∙ ap pick unknown

  pub restore_unknown-Controls :
      (json : Bytes) (d : DaemonState) (w : World)
      → d.auto_mode ≡ false
      → str_eq d.preset firmware_auto_preset ≡ false
      → restore_named_preset_control_state M cfg d w ≡ none
      → Controls false (codes "manual") (restore_mode M cfg json d w).0
  unfolding restore_manual_control_state restore_daemon_control apply_saved_fan_percentages
      with_preset
  restore_unknown-Controls json d w h other unknown =
      rw (manual_restores json d w h other unknown)
        (h, name_copied d (codes "manual") (omega arith))

  -- What the name of a manual or an unknown preset finds.
  pub no_such_preset :
      (d : DaemonState) (w : World)
      → config_find_preset cfg d.preset ≡ none
      → restore_named_preset_control_state M cfg d w ≡ none
  unfolding restore_named_preset_control_state apply_preset
  no_such_preset d w h =
      if_elim (λ o. o ≡ none) (str_eq d.preset (codes "manual")) refl (rw (h, apply_preset) refl)

  no_manual_preset :
      (d : DaemonState) (w : World)
      → d.preset ≡ codes "manual"
      → restore_named_preset_control_state M cfg d w ≡ none
  unfolding restore_named_preset_control_state
  no_manual_preset d w h =
      if_true (str_eq d.preset (codes "manual")) _ ((str_eq_iff d.preset (codes "manual")).1 h)

  SavedMode-restored :
      {mode : Bool} {preset : Bytes} (m : SavedMode mode preset) (json : Bytes) (d : DaemonState)
      (w : World)
      → d.auto_mode ≡ mode
      → (mode ≡ false → d.preset ≡ preset)
      → (preset ≡ codes "firmware-auto" → (apply_firmware_auto_fan_mode M cfg w).0 ≡ true)
      → Controls mode preset (restore_mode M cfg json d w).0
  unfolding str_eq
  SavedMode-restored saved_auto json d w h named works = restore_auto-Controls json d w h
  SavedMode-restored saved_manual json d w h named works =
      restore_unknown-Controls json d w h (rw (named refl) refl) (no_manual_preset d w (named refl))
  SavedMode-restored saved_firmware json d w h named works =
      restore_firmware-Controls json d w h (named refl) (works refl)

  -- A control state in automatic, manual or firmware-auto control whose text was saved comes back
  -- when that text is restored into any state: the control mode, the preset, the choice by power
  -- source, and the backlight timeout where the model has one. For firmware-auto the EC must take
  -- that mode.
  pub saved_state_restored :
      (s r : Service) (now : ℤ) (json : Bytes) (w : World)
      → SavedMode s.daemon.auto_mode s.daemon.preset
      → write_control_state true true cfg s now ≡ some json
      → (s.daemon.preset ≡ codes "firmware-auto" → (apply_firmware_auto_fan_mode M cfg w).0 ≡ true)
      → let (restored, _) = restore_control_state_from_json M cfg json r w in
        (restored.daemon.auto_mode ≡ s.daemon.auto_mode)
        × (restored.daemon.preset ≡ s.daemon.preset)
        × (restored.power_source_auto_apply ≡ s.power_source_auto_apply)
        × (restored.timeout.enabled
            ≡ (cfg.keyboard_backlight.timeout_supported && s.timeout.enabled))
  unfolding restore_control_state_from_json restore_runtime_state_from_json read_mode state_head
  saved_state_restored s r now json w m written works =
      let (tail, text) = saved_text cfg s now json written in
      let on = s.timeout.enabled in
      let power = s.power_source_auto_apply in
      let auto_read = auto_key m power on now tail in
      let mode = leave_coolboost-Controls s.daemon.auto_mode s.daemon.preset _ _ (
        SavedMode-restored m json (read_mode M json r.daemon) w (rw text auto_read)
          (λ manual. rw text (preset_key m power on now tail _ manual)) works) in
      (
        mode.0,
        mode.1,
        rw text (auto_apply_key m power on now tail _),
        ap (λ b. cfg.keyboard_backlight.timeout_supported && b)
            (rw text (timeout_key m power on now tail _)),
      )
