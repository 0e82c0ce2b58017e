-- ===== src/Fan/Permitted/Commands.antt =====
-- Permitted writes, and the handlers of src/commands/daemon/fan.c.
use acer_nitro_sense_linux.Command.Parser.{
  command_is_exact, parse_preset_command, parse_set_command,
}
use acer_nitro_sense_linux.Command.Tokens.{command_first_token}
use acer_nitro_sense_linux.Config.Find.{config_find_preset}
use acer_nitro_sense_linux.Config.Types.{AnsConfig, PresetConfig}
use acer_nitro_sense_linux.Config.Valid.{IsValidFan}
use acer_nitro_sense_linux.Daemon.Fan.{
  auto_command, disable_coolboost_if_needed, fan_command_prepare_daemon_control,
  handle_auto_command, handle_fan_control_command, handle_firmware_auto_command,
  handle_named_command, handle_preset_command, handle_set_command, preset_command, set_command,
}
use acer_nitro_sense_linux.Daemon.Types.{Answer, DaemonState, fan_command_set_control_mode}
use acer_nitro_sense_linux.Fan.Permitted.{
  IsKept, daemon_mode_keeps, firmware_mode_keeps, own_members,
}
use acer_nitro_sense_linux.Fan.Permitted.Requests.{
  applied_keeps, coolboost_keeps, one_keeps, reset_keeps,
}
use acer_nitro_sense_linux.Fan.Requests.{apply_preset, set_one}
use acer_nitro_sense_linux.Machine.{Machine}
use acer_nitro_sense_linux.Platform.FanMode.{apply_firmware_auto_fan_mode}
use acer_nitro_sense_linux.Prelude.{
  All, Bytes, Option-cases, [], codes, false, if_elim, inl, inr, not, str_eq, ℤ, ◌==◌,
}

module _ (M : Machine) (cfg : AnsConfig) (P : M.World → Type 0) (k : IsKept M cfg P) where
  open M use {World}

  -- The world that a command leaves.
  abbrev Kept : DaemonState × Answer × World → Type 0
  Kept r = P r.2

  prepare_keeps :
      (d : DaemonState) (w : World)
      → All IsValidFan cfg.fans
      → P w
      → P (fan_command_prepare_daemon_control M cfg d w).2
  unfolding fan_command_prepare_daemon_control disable_coolboost_if_needed
  prepare_keeps d w v h =
      let Q : DaemonState × World → Type 0 = λ r. P r.1 in
      daemon_mode_keeps M cfg P k _
        (if_elim Q d.coolboost_enabled (coolboost_keeps M cfg P k d.states false w v h) h)

  set_command_keeps :
      (fan : Bytes) (percent : ℤ) (d : DaemonState) (w : World)
      → All IsValidFan cfg.fans
      → P w
      → Kept (set_command M cfg fan percent d w)
  unfolding set_command fan_command_set_control_mode
  set_command_keeps fan percent d w v h =
      let (switched, d1, w1) = fan_command_prepare_daemon_control M cfg d w in
      let h1 = prepare_keeps d w v h in
      let done = one_keeps M cfg P k d1.states fan percent w1 v h1 in
      if_elim Kept (not switched) h1
        (if_elim Kept ((set_one M cfg d1.states fan percent w1).1 == 0) done done)

  preset_command_keeps :
      (p : PresetConfig) (d : DaemonState) (w : World)
      → All IsValidFan cfg.fans
      → P w
      → Kept (preset_command M cfg p d w)
  unfolding preset_command fan_command_set_control_mode
  preset_command_keeps p d w v h =
      let (switched, d1, w1) = fan_command_prepare_daemon_control M cfg d w in
      let h1 = prepare_keeps d w v h in
      if_elim Kept (not switched) h1 (elim (Option-cases (apply_preset M cfg d1.states p.id w1)) [
        | inl missing ↦ rw missing h1
        | inr (r, found) ↦ rw found (applied_keeps M cfg P k d1.states p.id w1 v h1 found)
      ])

  auto_command_keeps :
      (d : DaemonState) (w : World) → All IsValidFan cfg.fans → P w → Kept (auto_command M cfg d w)
  unfolding auto_command fan_command_set_control_mode
  auto_command_keeps d w v h =
      let (switched, d1, w1) = fan_command_prepare_daemon_control M cfg d w in
      let h1 = prepare_keeps d w v h in
      if_elim Kept (not switched) h1
        (reset_keeps M cfg P k cfg.fans [] d1.states w1 v (own_members cfg.fans) h1)

  firmware_command_keeps :
      (cmd : Bytes) (d : DaemonState) (w : World)
      → P w
      → Kept (handle_firmware_auto_command M cfg cmd d w)
  unfolding handle_firmware_auto_command
  firmware_command_keeps cmd d w h =
      let done = firmware_mode_keeps M cfg P k w h in
      if_elim Kept (not (command_is_exact cmd (codes "firmware-auto"))) h (
        if_elim Kept (not cfg.fan_modes.available) h
          (if_elim Kept (not (apply_firmware_auto_fan_mode M cfg w).0) done done))

  named_command_keeps :
      (name cmd : Bytes) (d : DaemonState) (w : World)
      → All IsValidFan cfg.fans
      → P w
      → Kept (handle_named_command M cfg name cmd d w)
  unfolding handle_named_command handle_set_command handle_preset_command handle_auto_command
  named_command_keeps name cmd d w v h =
      if_elim Kept (str_eq name (codes "set"))
        (elim (Option-cases (parse_set_command cmd 32)) [
          | inl bad ↦ rw (bad, handle_set_command) h
          | inr (r, ok_r) ↦ rw (ok_r, handle_set_command) (set_command_keeps r.0 r.1 d w v h)
        ])
        (if_elim Kept (str_eq name (codes "preset"))
          (elim (Option-cases (parse_preset_command cmd 32)) [
            | inl bad ↦ rw (bad, handle_preset_command) h
            | inr (id, ok_id) ↦
                rw (ok_id, handle_preset_command)
                  (elim (Option-cases (config_find_preset cfg id)) [
                    | inl bad ↦ rw bad h
                    | inr (p, found) ↦ rw found (preset_command_keeps p d w v h)
                  ])
          ])
          (if_elim Kept (str_eq name (codes "auto"))
            (if_elim Kept (not (command_is_exact cmd (codes "auto"))) h
              (auto_command_keeps d w v h))
            (if_elim Kept (str_eq name (codes "firmware-auto")) (firmware_command_keeps cmd d w h)
              h)))

  -- Every fan command writes to the EC only what the profile provides for, whatever its text: for
  -- a valid list of fans, a predicate on the world that every read, every sensor and every
  -- permitted write keep is kept by the handler.
  pub command_keeps :
      (cmd : Bytes) (d : DaemonState) (w : World)
      → All IsValidFan cfg.fans
      → P w
      → P (handle_fan_control_command M cfg cmd d w).2
  unfolding handle_fan_control_command
  command_keeps cmd d w v h = elim (Option-cases (command_first_token cmd 32)) [
    | inl bad ↦ rw (bad, handle_fan_control_command) h
    | inr (name, read) ↦
        rw (read, handle_fan_control_command) (named_command_keeps name cmd d w v h)
  ]
