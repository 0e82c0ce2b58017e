-- ===== src/State/RoundTrip/Lost.antt =====
-- A preset of the profile that was saved: the search for its key finds the mode of the same name.
use acer_nitro_sense_linux.Config.Find.{config_find_preset}
use acer_nitro_sense_linux.Config.Types.{AnsConfig}
use acer_nitro_sense_linux.Daemon.Types.{Service, preset_len}
use acer_nitro_sense_linux.Machine.{Machine}
use acer_nitro_sense_linux.Platform.FanMode.{
  control_mode, firmware_auto_mode, is_firmware_auto, is_manual,
}
use acer_nitro_sense_linux.Prelude.{
  Bool, Bytes, arith, codes, false, none, refl, some, str_eq, true, ℤ, ◌++◌, ◌∙◌, ◌≡◌,
}
use acer_nitro_sense_linux.State.Restore.{read_mode, restore_control_state_from_json}
use acer_nitro_sense_linux.State.RoundTrip.Restored.{
  leave_coolboost-Controls, name_copied, no_such_preset, restore_unknown-Controls,
}
use acer_nitro_sense_linux.State.Saved.{saved_text}
use acer_nitro_sense_linux.State.Write.{head_text, state_head, write_control_state}
use acer_nitro_sense_linux.Status.Format.{bool_text}
use acer_nitro_sense_linux.Util.Json.{
  after_prefix, json_after_colon, json_bool, json_bool_key, json_bool_key_checked, json_find_key,
  json_string, json_string_at, json_string_key, json_string_key_checked, json_value_ended,
  plain_bytes, split_at, strstr,
}
use acer_nitro_sense_linux.Util.Text.{skip_space}

named_auto_key :
    (preset : Bytes) (auto_apply timeout_on : Bool) (now : ℤ) (tail : Bytes)
    → json_bool_key
        (head_text (codes "preset") false preset auto_apply timeout_on now ++ tail)
        (codes "auto")
        true
      ≡ false
unfolding head_text json_bool_key json_bool_key_checked json_find_key strstr after_prefix
    json_after_colon split_at skip_space json_bool json_value_ended bool_text
named_auto_key preset auto_apply timeout_on now tail = refl

named_preset_key :
    (preset : Bytes) (auto_apply timeout_on : Bool) (now : ℤ) (tail old : Bytes)
    → json_string_key
        (head_text (codes "preset") false preset auto_apply timeout_on now ++ tail)
        (codes "preset")
        old
        preset_len
      ≡ old
unfolding head_text json_string json_string_at json_string_key json_string_key_checked plain_bytes
    json_find_key strstr after_prefix json_after_colon split_at skip_space json_value_ended
    bool_text
named_preset_key preset auto_apply timeout_on now tail old = refl

named_mode :
    (mode : Bool) (preset : Bytes)
    → mode ≡ false
    → is_firmware_auto preset ≡ false
    → is_manual preset ≡ false
    → control_mode mode preset ≡ codes "preset"
unfolding control_mode firmware_auto_mode
named_mode mode preset h other named = rw (h, other, named) refl

module _ (M : Machine) (cfg : AnsConfig) where
  open M use {World}

  -- A control state under a preset of another name than `manual` or `firmware-auto` whose text
  -- was saved is restored as manual control, if the profile has no preset `auto`.
  pub saved_preset_lost :
      (s r : Service) (now : ℤ) (json : Bytes) (w : World)
      → s.daemon.auto_mode ≡ false
      → is_firmware_auto s.daemon.preset ≡ false
      → is_manual s.daemon.preset ≡ false
      → config_find_preset cfg (codes "auto") ≡ none
      → write_control_state true true cfg s now ≡ some json
      → let (restored, _) = restore_control_state_from_json M cfg json r w in
        (restored.daemon.auto_mode ≡ false) × (restored.daemon.preset ≡ codes "manual")
  unfolding restore_control_state_from_json read_mode state_head str_eq
  saved_preset_lost s r now json w h other named no_auto written =
      let p = s.daemon.preset in
      let (tail, text) = saved_text cfg s now json written in
      let mode = named_mode s.daemon.auto_mode p h other named in
      let read : json
          ≡ head_text (codes "preset") false p s.power_source_auto_apply s.timeout.enabled now
            ++ tail =
        rw (mode, h) at text in
      let d = read_mode M json r.daemon in
      let auto_copied = name_copied r.daemon (codes "auto") (omega arith) in
      let preset_read : d.preset ≡ codes "auto" =
        rw read (named_preset_key p s.power_source_auto_apply s.timeout.enabled now tail _)
        ∙ auto_copied in
      leave_coolboost-Controls M cfg false (codes "manual") _ _ (
        restore_unknown-Controls M cfg json d w
          (rw read (named_auto_key p s.power_source_auto_apply s.timeout.enabled now tail))
          (rw preset_read refl) (no_such_preset M cfg d w (rw preset_read no_auto)))
