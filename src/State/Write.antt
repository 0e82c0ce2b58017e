-- ===== src/State/Write.antt =====
-- daemon/state_persist.c: the file that holds the control state.
use acer_nitro_sense_linux.Config.Types.{AnsConfig, FanConfig}
use acer_nitro_sense_linux.Daemon.Types.{Service}
use acer_nitro_sense_linux.Fan.State.{FanState}
use acer_nitro_sense_linux.Platform.FanMode.{control_mode}
use acer_nitro_sense_linux.Prelude.{
  Bool, Bytes, List, Option, [], codes, if◌then◌else◌, length, none, not, some, ℤ, ◌++◌, ◌==◌, ◌∷◌,
}
use acer_nitro_sense_linux.State.Buffer.{append_all, decimal, text_buffer_init, text_buffer_ok}
use acer_nitro_sense_linux.Status.Format.{bool_text, status_requested_percent}

unfoldable pub state_fan_lines : List FanConfig → List FanState → List Bytes
state_fan_lines [] states = []
state_fan_lines (fan ∷ fans) [] = []
state_fan_lines (fan ∷ fans) (s ∷ states) =
    let last = length fans == 0 in
    (codes "    { \"id\": \""
      ++ fan.id
      ++ codes "\", \"percent\": "
      ++ decimal (status_requested_percent s)
      ++ codes " }"
      ++ (if last then [] else codes ",")
      ++ codes "\n")
    ∷ state_fan_lines fans states

-- The first append, up to the list of the fans.
unfoldable pub head_text : Bytes → Bool → Bytes → Bool → Bool → ℤ → Bytes
unfolding bool_text
head_text mode auto_mode preset auto_apply timeout_enabled now =
    codes "{\n  \"schema\": 1,\n  \"mode\": \""
    ++ mode
    ++ codes "\",\n  \"auto\": "
    ++ bool_text auto_mode
    ++ codes ",\n  \"preset\": \""
    ++ preset
    ++ codes "\",\n  \"coolboost\": false,\n  \"power_source_auto_apply\": "
    ++ bool_text auto_apply
    ++ codes ",\n  \"keyboard_backlight_timeout_enabled\": "
    ++ bool_text timeout_enabled
    ++ codes ",\n  \"timestamp\": "
    ++ decimal now
    ++ codes ",\n  \"fans\": [\n"

unfoldable pub state_head : Service → ℤ → Bytes
state_head s now =
    let d = s.daemon in
    head_text (control_mode d.auto_mode d.preset) d.auto_mode d.preset s.power_source_auto_apply
      s.timeout.enabled now

unfoldable pub control_state_pieces : AnsConfig → Service → ℤ → List Bytes
control_state_pieces cfg s now =
    state_head s now ∷ (state_fan_lines cfg.fans s.daemon.states ++ (codes "  ]\n}\n" ∷ []))

-- The text that replaces the file, if one does: saving is switched on, the directory exists, and
-- the buffer is large enough. Where `write_text_file_atomic` fails the old file stays.
unfoldable pub write_control_state : Bool → Bool → AnsConfig → Service → ℤ → Option Bytes
write_control_state persist directory cfg s now =
    let out = append_all (text_buffer_init 1024) (control_state_pieces cfg s now) in
    if not persist
    then none
    else if not directory
    then none
    else if not (text_buffer_ok out)
    then none
    else some out.content
