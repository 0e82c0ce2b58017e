-- ===== src/State/Sound.antt =====
-- What restoring leaves, whatever the file holds.
use acer_nitro_sense_linux.Config.Types.{AnsConfig, FanConfig, SafetyConfig}
use acer_nitro_sense_linux.Config.Valid.{IsValidFan, IsValidProfile, IsWithin}
use acer_nitro_sense_linux.Daemon.Invariant.{IsConsistent}
use acer_nitro_sense_linux.Daemon.Sound.{All-append, coolboost-IsSound}
use acer_nitro_sense_linux.Daemon.Types.{DaemonState, Service, preset_len}
use acer_nitro_sense_linux.Fan.Invariant.{IsSound, set_fan_percent-IsSound}
use acer_nitro_sense_linux.Fan.Invariant.Requests.{apply_preset-IsSound}
use acer_nitro_sense_linux.Fan.Requests.{apply_preset}
use acer_nitro_sense_linux.Fan.State.{FanState}
use acer_nitro_sense_linux.Machine.{Machine}
use acer_nitro_sense_linux.Platform.FanMode.{
  apply_daemon_control_fan_mode, apply_firmware_auto_fan_mode, firmware_auto_preset,
}
use acer_nitro_sense_linux.Prelude.{
  All, Bool, Bytes, List, OnSome, OnSome-some, Option, Option-cases, [], arith, codes, false,
  if_cases, if_elim, if◌then◌else◌, inl, inr, just, leb, length, length-take, ltb_ℤ, none, not,
  nothing, pos, refl, some, str_eq, take, true, ℤ, ◌-◌, ◌<◌, ◌||◌, ◌∷◌, ◌≡◌,
}
use acer_nitro_sense_linux.State.Restore.{
  apply_saved_fan_percentages, apply_saved_from, json_saved_percent_for_fan, leave_coolboost,
  read_mode, restore_auto_control_state, restore_control_state_from_json, restore_daemon_control,
  restore_firmware_auto_control_state, restore_manual_control_state, restore_mode,
  restore_named_preset_control_state, restore_saved_fan_targets, saved_target, with_preset,
}
use acer_nitro_sense_linux.Util.Json.{
  json_int_key, json_string_at, json_string_key, json_string_key_checked,
}
use acer_nitro_sense_linux.Util.Json.Scan.{json_object_with_id}
use acer_nitro_sense_linux.Util.Text.{string_copy_lem}

saved_percent_in :
    (json id : Bytes) (fallback : ℤ)
    → IsWithin (pos 0) (pos 100) fallback
    → IsWithin (pos 0) (pos 100) (json_saved_percent_for_fan json id fallback)
unfolding json_saved_percent_for_fan
saved_percent_in json id fallback h = elim (Option-cases (json_object_with_id json id)) [
  | inl bad ↦ rw (bad, json_saved_percent_for_fan) h
  | inr (fan_obj, found) ↦
      let percent = json_int_key fan_obj (codes "percent") fallback in
      rw (found, json_saved_percent_for_fan)
        (if_cases (IsWithin (pos 0) (pos 100)) (ltb_ℤ percent (pos 1) || ltb_ℤ (pos 100) percent)
          (λ _. h) (λ inside. ground (arith, inside)))
]

targets-IsSound :
    (safety : SafetyConfig) (fans : List FanConfig) (states : List FanState) (json : Bytes)
    → All IsValidFan fans
    → All (IsSound safety) states
    → All (IsSound safety) (restore_saved_fan_targets fans states json)
unfolding restore_saved_fan_targets saved_target
targets-IsSound safety [] states json v h = h
targets-IsSound safety (fan ∷ fans) [] json v h = h
targets-IsSound safety (fan ∷ fans) (s ∷ states) json (v, vs) (h, hs) =
    let k =
      saved_percent_in json fan.id fan.reset_speed (ground (arith, v.reset_in, v.write_range)) in
    (
      record {
        samples_in = h.samples_in;
        read_failures_in = h.read_failures_in;
        write_failures_in = h.write_failures_in;
        percent_in = k;
        requested_in = k;
        reason_agrees = h.reason_agrees;
      },
      targets-IsSound safety fans states json vs hs,
    )

-- The text of a key, cut to the buffer, or the buffer as it was.
cut_text : Option Bytes → Bytes → Bool × Bytes
cut_text value out = elim value [
  | none ↦ (false, out)
  | some text ↦
      if leb preset_len (length text) then (false, take (preset_len - 1) text) else (true, text)
]

cut_fits :
    (value : Option Bytes) (out : Bytes)
    → length out < preset_len
    → length (cut_text value out).1 < preset_len
unfolding cut_text
cut_fits none out h = h
cut_fits (some text) out h =
    let Q : Bool × Bytes → Type 0 = λ r. length r.1 < preset_len in
    if_cases Q (leb preset_len (length text)) (λ _. ground (arith, length-take 31 text))
      (λ small. ground (arith, small))

preset_key_cut :
    (json key out : Bytes)
    → json_string_key json key out preset_len ≡ (cut_text (json_string_at json key) out).1
unfolding json_string_key json_string_key_checked cut_text
preset_key_cut json key out = refl

preset_key_fits :
    (json key out : Bytes)
    → length out < preset_len
    → length (json_string_key json key out preset_len) < preset_len
preset_key_fits json key out h =
    rw (preset_key_cut json key out) (cut_fits (json_string_at json key) out h)

pub with_preset-IsConsistent :
    (cfg : AnsConfig) (d : DaemonState) (name : Bytes)
    → IsConsistent cfg d
    → IsConsistent cfg (with_preset d name)
unfolding with_preset
with_preset-IsConsistent cfg d name h = record {
  fans_sound = h.fans_sound;
  coolboost_available = h.coolboost_available;
  preset_fits = (string_copy_lem d.preset preset_len name (omega arith)).0;
}

-- Other states of the fans that are sound.
pub with_states-IsConsistent :
    (cfg : AnsConfig) (d : DaemonState) (states : List FanState)
    → IsConsistent cfg d
    → All (IsSound cfg.safety) states
    → IsConsistent cfg (record d { states = states })
with_states-IsConsistent cfg d states h k = record {
  fans_sound = k;
  coolboost_available = h.coolboost_available;
  preset_fits = h.preset_fits;
}

module _ (M : Machine) (cfg : AnsConfig) (v : IsValidProfile cfg) where
  open M use {World}

  saved_from-IsSound :
      (json : Bytes) (fans : List FanConfig) (done states : List FanState) (w : World)
      → All IsValidFan fans
      → All (IsSound cfg.safety) done
      → All (IsSound cfg.safety) states
      → All (IsSound cfg.safety) (apply_saved_from M cfg json fans done states w).0
  unfolding apply_saved_from
  saved_from-IsSound json [] done states w vf k h = All-append (IsSound cfg.safety) done states k h
  saved_from-IsSound json (fan ∷ fans) done [] w vf k h = k
  saved_from-IsSound json (fan ∷ fans) done (s ∷ states) w (vf, vfs) k (h, hs) =
      let s_sound = set_fan_percent-IsSound M cfg fan s _ _ w v.0 vf h in
      saved_from-IsSound json fans _ states _ vfs
        (All-append (IsSound cfg.safety) done _ k (s_sound, tt)) hs

  daemon_control-IsConsistent :
      (name json : Bytes) (d : DaemonState) (w : World)
      → IsConsistent cfg d
      → IsConsistent cfg (restore_daemon_control M cfg name json d w).0
  unfolding restore_daemon_control apply_saved_fan_percentages
  daemon_control-IsConsistent name json d w h =
      let k = with_preset-IsConsistent cfg d name h in
      with_states-IsConsistent cfg _ _ k
        (saved_from-IsSound json cfg.fans [] _ _ v.1 tt k.fans_sound)

  firmware-IsConsistent :
      (json : Bytes) (d : DaemonState) (w : World)
      → IsConsistent cfg d
      → IsConsistent cfg (restore_firmware_auto_control_state M cfg json d w).0
  unfolding restore_firmware_auto_control_state
  firmware-IsConsistent json d w h =
      let k =
        with_states-IsConsistent cfg _ _ (with_preset-IsConsistent cfg d firmware_auto_preset h)
          (targets-IsSound cfg.safety cfg.fans d.states json v.1 h.fans_sound) in
      if_elim (IsConsistent cfg) (not (apply_firmware_auto_fan_mode M cfg w).0)
        (with_preset-IsConsistent cfg _ (codes "manual") k) k

  -- What restoring a named preset leaves, if it does.
  named-IsConsistent :
      (d : DaemonState) (w : World)
      → IsConsistent cfg d
      → OnSome (λ r. IsConsistent cfg r.0) (restore_named_preset_control_state M cfg d w)
  unfolding restore_named_preset_control_state
  named-IsConsistent d w h =
      let Q : Option (DaemonState × World) → Type 0 = OnSome (λ r. IsConsistent cfg r.0) in
      let (_, w1) = apply_daemon_control_fan_mode M cfg w in
      elim (Option-cases (apply_preset M cfg d.states d.preset w1)) [
        | inl bad ↦ rw bad (if_elim Q (str_eq d.preset (codes "manual")) nothing nothing)
        | inr (r, done) ↦ rw done (
            if_elim Q (str_eq d.preset (codes "manual")) nothing (
              just (
                with_states-IsConsistent cfg d r.0 h
                  (apply_preset-IsSound M cfg d.states d.preset w1 v h.fans_sound done))))
      ]

  -- The choice of restore_mode.
  abbrev restored_of : Option (DaemonState × World) → DaemonState × World → DaemonState × World
  restored_of o other = elim o [ none ↦ other | some r ↦ r ]

  restored_or :
      (o : Option (DaemonState × World)) (other : DaemonState × World)
      → OnSome (λ r. IsConsistent cfg r.0) o
      → IsConsistent cfg other.0
      → IsConsistent cfg (restored_of o other).0
  restored_or none other h k = k
  restored_or (some r) other h k = OnSome-some h refl

  mode-IsConsistent :
      (json : Bytes) (d : DaemonState) (w : World)
      → IsConsistent cfg d
      → IsConsistent cfg (restore_mode M cfg json d w).0
  unfolding restore_mode restore_auto_control_state restore_manual_control_state
  mode-IsConsistent json d w h =
      let Q : DaemonState × World → Type 0 = λ r. IsConsistent cfg r.0 in
      if_elim Q d.auto_mode (daemon_control-IsConsistent (codes "auto") json d w h) (
        if_elim Q (str_eq d.preset firmware_auto_preset) (firmware-IsConsistent json d w h) (
          restored_or (restore_named_preset_control_state M cfg d w) _ (named-IsConsistent d w h)
            (daemon_control-IsConsistent (codes "manual") json d w h)))

  leave-IsConsistent :
      (d : DaemonState) (w : World)
      → IsConsistent cfg d
      → IsConsistent cfg (leave_coolboost M cfg d w).0
  unfolding leave_coolboost
  leave-IsConsistent d w h =
      let Q : DaemonState × World → Type 0 = λ r. IsConsistent cfg r.0 in
      if_elim Q _
        (with_states-IsConsistent cfg d _ h
          (coolboost-IsSound M cfg v d.states false w h.fans_sound))
        h

  read-IsConsistent :
      (json : Bytes) (d : DaemonState) → IsConsistent cfg d → IsConsistent cfg (read_mode M json d)
  unfolding read_mode
  read-IsConsistent json d h = record {
    fans_sound = h.fans_sound;
    coolboost_available = λ e. cc e;
    preset_fits =
        preset_key_fits json (codes "preset") _
          (string_copy_lem d.preset preset_len (codes "auto") (omega arith)).0;
  }

  pub restore-IsConsistent :
      (json : Bytes) (s : Service) (w : World)
      → IsConsistent cfg s.daemon
      → IsConsistent cfg (restore_control_state_from_json M cfg json s w).0.daemon
  unfolding restore_control_state_from_json
  restore-IsConsistent json s w h =
      leave-IsConsistent _ _ (mode-IsConsistent json _ w (read-IsConsistent json s.daemon h))
