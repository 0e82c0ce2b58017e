-- ===== src/Daemon/Errors.antt =====
-- What the `set` command leaves behind where it answers with an error.
use acer_nitro_sense_linux.Command.Parser.{parse_set_command}
use acer_nitro_sense_linux.Config.Types.{AnsConfig, FanConfig}
use acer_nitro_sense_linux.Daemon.Fan.{
  fan_command_prepare_daemon_control, handle_set_command, set_command,
}
use acer_nitro_sense_linux.Daemon.Types.{
  DaemonState, fan_command_set_control_mode, preset_len, refused, unknown_fan_reply,
}
use acer_nitro_sense_linux.Fan.Requests.{set_matching, set_one}
use acer_nitro_sense_linux.Fan.Safety.{global_safety_reason}
use acer_nitro_sense_linux.Fan.State.{FanState, Reason}
use acer_nitro_sense_linux.Machine.{Machine}
use acer_nitro_sense_linux.Prelude.{
  All, Bytes, List, [], ap, arith, codes, false, refl, some, str_eq, true, ℤ, ◌∷◌, ◌≡◌,
}
use acer_nitro_sense_linux.Util.Text.{string_copy, string_copy-fits}

-- No fan of the list has this id.
abbrev pub NoneNamed : Bytes → List FanConfig → Type 0
NoneNamed id fans = All (λ fan. str_eq fan.id id ≡ false) fans

manual_copied :
    (buffer : Bytes) → (string_copy buffer preset_len (some (codes "manual"))).1 ≡ codes "manual"
manual_copied buffer =
    ap (λ r. r.1) (string_copy-fits buffer preset_len (codes "manual") (omega arith))

module _ (M : Machine) where
  open M use {World}

  none_changed :
      (cfg : AnsConfig) (fans : List FanConfig) (states : List FanState) (id : Bytes) (p : ℤ)
      (forced : Reason) (w : World)
      → str_eq id (codes "all") ≡ false
      → NoneNamed id fans
      → (set_matching M cfg fans states id p forced w).1 ≡ 0
  unfolding set_matching
  none_changed cfg [] states id p forced w h none_named = refl
  none_changed cfg (fan ∷ fans) [] id p forced w h none_named = refl
  none_changed cfg (fan ∷ fans) (s ∷ states) id p forced w h (other, others) =
      rw (h, other) (none_changed cfg fans states id p forced w h others)

  unknown_fan_refused :
      (cfg : AnsConfig) (fan : Bytes) (percent : ℤ) (d : DaemonState) (w : World)
      → str_eq fan (codes "all") ≡ false
      → NoneNamed fan cfg.fans
      → (fan_command_prepare_daemon_control M cfg d w).0 ≡ true
      → let (d', answer, w') = set_command M cfg fan percent d w in
        (answer ≡ refused unknown_fan_reply) × (d'.auto_mode ≡ false) × (d'.preset ≡ codes "manual")
  unfolding set_command fan_command_set_control_mode set_one
  unknown_fan_refused cfg fan percent d w h none_named switched =
      let (done, d1, w1) = fan_command_prepare_daemon_control M cfg d w in
      let zero_changed =
        none_changed cfg cfg.fans d1.states fan percent (global_safety_reason cfg d1.states) w1 h
          none_named in
      rw (switched, zero_changed) (refl, refl, manual_copied d1.preset)

  parsed_set :
      (cfg : AnsConfig) (cmd fan : Bytes) (percent : ℤ) (d : DaemonState) (w : World)
      → parse_set_command cmd 32 ≡ some (fan, percent)
      → handle_set_command M cfg cmd d w ≡ set_command M cfg fan percent d w
  unfolding handle_set_command
  parsed_set cfg cmd fan percent d w parsed = rw (parsed, handle_set_command) refl

  -- Where `set` is parsed to a name that is not `all` and that no fan of the profile has, and the
  -- daemon takes control of the fan mode: the command is answered as naming an unknown fan and is
  -- not saved, but the control mode is `manual` afterwards.
  pub unknown_fan_changes_mode :
      (cfg : AnsConfig) (cmd fan : Bytes) (percent : ℤ) (d : DaemonState) (w : World)
      → parse_set_command cmd 32 ≡ some (fan, percent)
      → str_eq fan (codes "all") ≡ false
      → NoneNamed fan cfg.fans
      → (fan_command_prepare_daemon_control M cfg d w).0 ≡ true
      → let (d', answer, w') = handle_set_command M cfg cmd d w in
        (answer ≡ refused unknown_fan_reply) × (d'.auto_mode ≡ false) × (d'.preset ≡ codes "manual")
  unknown_fan_changes_mode cfg cmd fan percent d w parsed h none_named switched =
      rw (parsed_set cfg cmd fan percent d w parsed)
        (unknown_fan_refused cfg fan percent d w h none_named switched)
