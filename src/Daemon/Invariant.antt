-- ===== src/Daemon/Invariant.antt =====
-- Consistent states of the daemon, and the handlers of src/commands/daemon/fan.c.
pub mod Modes
use acer_nitro_sense_linux.Command.Parser.{
  command_is_exact, parse_preset_command, parse_set_command,
}
use acer_nitro_sense_linux.Command.Tokens.{command_first_token}
use acer_nitro_sense_linux.Config.Find.{config_find_preset}
use acer_nitro_sense_linux.Config.Types.{AnsConfig, PresetConfig}
use acer_nitro_sense_linux.Config.Valid.{IsValidProfile}
use acer_nitro_sense_linux.Daemon.Fan.{
  auto_command, disable_coolboost_if_needed, fan_command_prepare_daemon_control,
  handle_auto_command, handle_fan_control_command, handle_firmware_auto_command,
  handle_named_command, handle_preset_command, handle_set_command, preset_command, set_command,
}
use acer_nitro_sense_linux.Daemon.Sound.{coolboost-IsSound, reset-IsSound}
use acer_nitro_sense_linux.Daemon.Types.{
  Answer, DaemonState, fan_command_set_control_mode, preset_len,
}
use acer_nitro_sense_linux.Fan.Invariant.{IsSound}
use acer_nitro_sense_linux.Fan.Invariant.Requests.{apply_preset-IsSound, set_one-IsSound}
use acer_nitro_sense_linux.Fan.Requests.{apply_preset}
use acer_nitro_sense_linux.Fan.State.{FanState}
use acer_nitro_sense_linux.Machine.{Machine}
use acer_nitro_sense_linux.Platform.FanMode.{apply_firmware_auto_fan_mode, firmware_auto_preset}
use acer_nitro_sense_linux.Prelude.{
  All, Bool, Bytes, List, Option-cases, [], arith, codes, false, if_elim, inl, inr, length, not,
  str_eq, true, ℤ, ◌<◌, ◌≡◌,
}
use acer_nitro_sense_linux.Util.Text.{string_copy_lem}

pub record IsConsistent (cfg : AnsConfig) (d : DaemonState) : Type 0 where
  pub fans_sound : All (IsSound cfg.safety) d.states
  pub coolboost_available : d.coolboost_enabled ≡ true → cfg.fan_modes.available ≡ true
  pub preset_fits : length d.preset < preset_len

pub mode_fits :
    (d : DaemonState) (auto_enabled : Bool) (name : Bytes)
    → length (fan_command_set_control_mode d auto_enabled name).preset < preset_len
unfolding fan_command_set_control_mode
mode_fits d auto_enabled name = (string_copy_lem d.preset preset_len name (omega arith)).0

module _ (M : Machine) (cfg : AnsConfig) (v : IsValidProfile cfg) where
  open M use {World}

  abbrev Outcome : DaemonState × Answer × World → Type 0
  Outcome r = IsConsistent cfg r.0

  disable-IsConsistent :
      (d : DaemonState) (w : World)
      → IsConsistent cfg d
      → IsConsistent cfg (disable_coolboost_if_needed M cfg d w).0
  unfolding disable_coolboost_if_needed
  disable-IsConsistent d w h =
      let Q : DaemonState × World → Type 0 = λ r. IsConsistent cfg r.0 in
      if_elim Q d.coolboost_enabled
        (record {
          fans_sound = coolboost-IsSound M cfg v d.states false w h.fans_sound;
          coolboost_available = λ e. cc e;
          preset_fits = h.preset_fits;
        })
        h

  prepare-IsConsistent :
      (d : DaemonState) (w : World)
      → IsConsistent cfg d
      → IsConsistent cfg (fan_command_prepare_daemon_control M cfg d w).1
  unfolding fan_command_prepare_daemon_control
  prepare-IsConsistent d w h = disable-IsConsistent d w h

  -- A consistent state in another control mode, with other states that are sound.
  moved :
      (d : DaemonState) (auto_enabled : Bool) (name : Bytes) (states : List FanState)
      → IsConsistent cfg d
      → All (IsSound cfg.safety) states
      → IsConsistent cfg
          (record (fan_command_set_control_mode d auto_enabled name) { states = states })
  unfolding fan_command_set_control_mode
  moved d auto_enabled name states h k = record {
    fans_sound = k;
    coolboost_available = h.coolboost_available;
    preset_fits = mode_fits d auto_enabled name;
  }

  set-IsConsistent :
      (fan : Bytes) (percent : ℤ) (d : DaemonState) (w : World)
      → IsConsistent cfg d
      → Outcome (set_command M cfg fan percent d w)
  unfolding set_command fan_command_set_control_mode
  set-IsConsistent fan percent d w h =
      let (switched, d1, w1) = fan_command_prepare_daemon_control M cfg d w in
      let h1 = prepare-IsConsistent d w h in
      let done =
        moved d1 false (codes "manual") _ h1
          (set_one-IsSound M cfg d1.states fan percent w1 v h1.fans_sound) in
      if_elim Outcome (not switched) h1 (if_elim Outcome _ done done)

  preset-IsConsistent :
      (p : PresetConfig) (d : DaemonState) (w : World)
      → IsConsistent cfg d
      → Outcome (preset_command M cfg p d w)
  unfolding preset_command fan_command_set_control_mode
  preset-IsConsistent p d w h =
      let (switched, d1, w1) = fan_command_prepare_daemon_control M cfg d w in
      let h1 = prepare-IsConsistent d w h in
      if_elim Outcome (not switched) h1
        (elim (Option-cases (apply_preset M cfg d1.states p.id w1)) [
          | inl missing ↦ rw missing (moved d1 false p.id d1.states h1 h1.fans_sound)
          | inr (r, found) ↦ rw found (
              moved d1 false p.id r.0 h1
                (apply_preset-IsSound M cfg d1.states p.id w1 v h1.fans_sound found))
        ])

  auto-IsConsistent :
      (d : DaemonState) (w : World) → IsConsistent cfg d → Outcome (auto_command M cfg d w)
  unfolding auto_command fan_command_set_control_mode
  auto-IsConsistent d w h =
      let (switched, d1, w1) = fan_command_prepare_daemon_control M cfg d w in
      let h1 = prepare-IsConsistent d w h in
      if_elim Outcome (not switched) h1 (
        moved d1 true (codes "auto") _ h1
          (reset-IsSound M cfg v cfg.fans [] d1.states w1 v.1 tt h1.fans_sound))

  firmware-IsConsistent :
      (cmd : Bytes) (d : DaemonState) (w : World)
      → IsConsistent cfg d
      → Outcome (handle_firmware_auto_command M cfg cmd d w)
  unfolding handle_firmware_auto_command fan_command_set_control_mode
  firmware-IsConsistent cmd d w h =
      let d1 = fan_command_set_control_mode d false firmware_auto_preset in
      let done : IsConsistent cfg (record d1 { coolboost_enabled = false }) = record {
        fans_sound = h.fans_sound;
        coolboost_available = λ e. cc e;
        preset_fits = mode_fits d false firmware_auto_preset;
      } in
      if_elim Outcome (not (command_is_exact cmd (codes "firmware-auto"))) h (
        if_elim Outcome (not cfg.fan_modes.available) h
          (if_elim Outcome (not (apply_firmware_auto_fan_mode M cfg w).0) h done))

  named-IsConsistent :
      (name cmd : Bytes) (d : DaemonState) (w : World)
      → IsConsistent cfg d
      → Outcome (handle_named_command M cfg name cmd d w)
  unfolding handle_named_command handle_set_command handle_preset_command handle_auto_command
  named-IsConsistent name cmd d w h =
      if_elim Outcome (str_eq name (codes "set"))
        (elim (Option-cases (parse_set_command cmd 32)) [
          | inl bad ↦ rw (bad, handle_set_command) h
          | inr (r, ok_r) ↦ rw (ok_r, handle_set_command) (set-IsConsistent r.0 r.1 d w h)
        ])
        (if_elim Outcome (str_eq name (codes "preset"))
          (elim (Option-cases (parse_preset_command cmd 32)) [
            | inl bad ↦ rw (bad, handle_preset_command) h
            | inr (id, ok_id) ↦
                rw (ok_id, handle_preset_command)
                  (elim (Option-cases (config_find_preset cfg id)) [
                    | inl bad ↦ rw bad h
                    | inr (p, found) ↦ rw found (preset-IsConsistent p d w h)
                  ])
          ])
          (if_elim Outcome (str_eq name (codes "auto"))
            (if_elim Outcome _ h (auto-IsConsistent d w h))
            (if_elim Outcome (str_eq name (codes "firmware-auto")) (firmware-IsConsistent cmd d w h)
              h)))

  -- For a valid profile, every fan command keeps the daemon's state consistent, whatever its text
  -- and whatever the EC answers: the invariant of every fan, coolboost on only where the model
  -- has fan modes, and a preset that fits its buffer.
  pub handle_fan_control_command-IsConsistent :
      (cmd : Bytes) (d : DaemonState) (w : World)
      → IsConsistent cfg d
      → IsConsistent cfg (handle_fan_control_command M cfg cmd d w).0
  unfolding handle_fan_control_command
  handle_fan_control_command-IsConsistent cmd d w h =
      elim (Option-cases (command_first_token cmd 32)) [
        | inl bad ↦ rw (bad, handle_fan_control_command) h
        | inr (name, read) ↦
            rw (read, handle_fan_control_command) (named-IsConsistent name cmd d w h)
      ]
