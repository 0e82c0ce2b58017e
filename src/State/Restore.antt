-- ===== src/State/Restore.antt =====
-- daemon/state_restore.c: the control state from the text of its file.
use acer_nitro_sense_linux.Config.Types.{AnsConfig, FanConfig}
use acer_nitro_sense_linux.Daemon.Types.{DaemonState, Service, preset_len}
use acer_nitro_sense_linux.Fan.Requests.{apply_coolboost, apply_preset}
use acer_nitro_sense_linux.Fan.Safety.{global_safety_reason, set_fan_percent}
use acer_nitro_sense_linux.Fan.State.{FanState}
use acer_nitro_sense_linux.Machine.{Machine}
use acer_nitro_sense_linux.Platform.FanMode.{
  apply_daemon_control_fan_mode, apply_firmware_auto_fan_mode, firmware_auto_mode,
  firmware_auto_preset,
}
use acer_nitro_sense_linux.Prelude.{
  Bool, Bytes, List, Option, [], codes, false, if◌then◌else◌, ltb_ℤ, none, not, pos, some, str_eq,
  true, ℤ, ◌&&◌, ◌++◌, ◌||◌, ◌∷◌,
}
use acer_nitro_sense_linux.Util.Json.{json_bool_key, json_int_key, json_string_key}
use acer_nitro_sense_linux.Util.Json.Scan.{json_object_with_id}
use acer_nitro_sense_linux.Util.Text.{string_copy}

unfoldable pub json_saved_percent_for_fan : Bytes → Bytes → ℤ → ℤ
json_saved_percent_for_fan json id fallback = elim (json_object_with_id json id) [
  | none ↦ fallback
  | some fan_obj ↦
      let percent = json_int_key fan_obj (codes "percent") fallback in
      if ltb_ℤ percent (pos 1) || ltb_ℤ (pos 100) percent then fallback else percent
]

unfoldable pub restore_runtime_state_from_json : AnsConfig → Bytes → Service → Service
restore_runtime_state_from_json cfg json s =
    let on =
      json_bool_key json (codes "keyboard_backlight_timeout_enabled")
        cfg.keyboard_backlight.timeout_default_enabled in
    record s {
      power_source_auto_apply =
          json_bool_key json (codes "power_source_auto_apply") cfg.power_source_profiles.auto_apply;
      timeout = record (s.timeout) {
        enabled = cfg.keyboard_backlight.timeout_supported && on;
        seconds = cfg.keyboard_backlight.timeout_seconds;
      };
    }

unfoldable pub saved_target : FanConfig → Bytes → FanState → FanState
saved_target fan json s =
    let percent = json_saved_percent_for_fan json fan.id fan.reset_speed in
    record s { percent = percent; requested_percent = percent }

unfoldable pub restore_saved_fan_targets : List FanConfig → List FanState → Bytes → List FanState
restore_saved_fan_targets [] states json = states
restore_saved_fan_targets (fan ∷ fans) [] json = []
restore_saved_fan_targets (fan ∷ fans) (s ∷ states) json =
    saved_target fan json s ∷ restore_saved_fan_targets fans states json

-- `string_copy(preset, preset_len, name)`
unfoldable pub with_preset : DaemonState → Bytes → DaemonState
with_preset d name = record d { preset = (string_copy d.preset preset_len (some name)).1 }

module _ (M : Machine) where
  open M use {World}

  -- The reason is that of all fans, the ones before this one (`done`) with their new states.
  unfoldable pub apply_saved_from :
      AnsConfig
      → Bytes
      → List FanConfig
      → List FanState
      → List FanState
      → World
      → List FanState × World
  apply_saved_from cfg json [] done states w = (done ++ states, w)
  apply_saved_from cfg json (fan ∷ fans) done [] w = (done, w)
  apply_saved_from cfg json (fan ∷ fans) done (s ∷ states) w =
      let percent = json_saved_percent_for_fan json fan.id fan.reset_speed in
      let forced = global_safety_reason cfg (done ++ (s ∷ states)) in
      let (s', _, w1) = set_fan_percent M cfg fan s percent forced w in
      apply_saved_from cfg json fans (done ++ (s' ∷ [])) states w1

  unfoldable pub apply_saved_fan_percentages :
      AnsConfig → Bytes → DaemonState → World → DaemonState × World
  apply_saved_fan_percentages cfg json d w =
      let (states, w1) = apply_saved_from cfg json cfg.fans [] d.states w in
      (record d { states = states }, w1)

  -- The mode switch and the saved percentages, under the name of a control mode.
  unfoldable pub restore_daemon_control :
      AnsConfig → Bytes → Bytes → DaemonState → World → DaemonState × World
  restore_daemon_control cfg name json d w =
      let (_, w1) = apply_daemon_control_fan_mode M cfg w in
      apply_saved_fan_percentages cfg json (with_preset d name) w1

  unfoldable pub restore_auto_control_state :
      AnsConfig → Bytes → DaemonState → World → DaemonState × World
  restore_auto_control_state cfg json d w = restore_daemon_control cfg (codes "auto") json d w

  unfoldable pub restore_manual_control_state :
      AnsConfig → Bytes → DaemonState → World → DaemonState × World
  restore_manual_control_state cfg json d w = restore_daemon_control cfg (codes "manual") json d w

  unfoldable pub restore_firmware_auto_control_state :
      AnsConfig → Bytes → DaemonState → World → DaemonState × World
  restore_firmware_auto_control_state cfg json d w =
      let d1 = record (with_preset d firmware_auto_preset) {
        states = restore_saved_fan_targets cfg.fans d.states json;
      } in
      let (by_firmware, w1) = apply_firmware_auto_fan_mode M cfg w in
      (if not by_firmware then with_preset d1 (codes "manual") else d1, w1)

  -- `none` where the preset is not one of the profile's.
  unfoldable pub restore_named_preset_control_state :
      AnsConfig → DaemonState → World → Option (DaemonState × World)
  restore_named_preset_control_state cfg d w =
      let (_, w1) = apply_daemon_control_fan_mode M cfg w in
      if str_eq d.preset (codes "manual")
      then none
      else (elim (apply_preset M cfg d.states d.preset w1) [
        | none ↦ none
        | some (states, w2) ↦ some (record d { states = states }, w2)
      ])

  unfoldable pub restore_mode : AnsConfig → Bytes → DaemonState → World → DaemonState × World
  restore_mode cfg json d w =
      if d.auto_mode
      then restore_auto_control_state cfg json d w
      else if str_eq d.preset firmware_auto_preset
      then restore_firmware_auto_control_state cfg json d w
      else (elim (restore_named_preset_control_state cfg d w) [
        | none ↦ restore_manual_control_state cfg json d w
        | some restored ↦ restored
      ])

  -- The control mode and the preset that the text names.
  unfoldable pub read_mode : Bytes → DaemonState → DaemonState
  read_mode json d =
      let preset0 = (string_copy d.preset preset_len (some (codes "auto"))).1 in
      record d {
        auto_mode = json_bool_key json (codes "auto") true;
        coolboost_enabled = false;
        preset = json_string_key json (codes "preset") preset0 preset_len;
      }

  unfoldable pub leave_coolboost : AnsConfig → DaemonState → World → DaemonState × World
  leave_coolboost cfg d w =
      let (_, states, w1) = apply_coolboost M cfg d.states false w in
      if cfg.fan_modes.available && not (firmware_auto_mode d.auto_mode d.preset)
      then (record d { states = states }, w1)
      else (d, w)

  unfoldable pub restore_control_state_from_json :
      AnsConfig → Bytes → Service → World → Service × World
  restore_control_state_from_json cfg json s w =
      let (d1, w1) = restore_mode cfg json (read_mode json s.daemon) w in
      let (d2, w2) = leave_coolboost cfg d1 w1 in
      (record (restore_runtime_state_from_json cfg json s) { daemon = d2 }, w2)

  -- The text of the file, if it can be read; the result says whether a state was restored.
  unfoldable pub restore_control_state :
      AnsConfig → Option Bytes → Service → World → Bool × Service × World
  restore_control_state cfg none s w = (false, s, w)
  restore_control_state cfg (some json) s w =
      let (s1, w1) = restore_control_state_from_json cfg json s w in (true, s1, w1)
