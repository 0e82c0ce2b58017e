-- ===== src/State/RoundTrip.antt =====
-- What comes back of the control state that was saved.
pub mod Restored
pub mod Lost
use acer_nitro_sense_linux.Daemon.Types.{preset_len}
use acer_nitro_sense_linux.Platform.FanMode.{
  control_mode, firmware_auto_mode, is_firmware_auto, is_manual,
}
use acer_nitro_sense_linux.Prelude.{Bool, Bytes, codes, false, refl, str_eq, true, ℤ, ◌++◌, ◌≡◌}
use acer_nitro_sense_linux.State.Write.{head_text}
use acer_nitro_sense_linux.Status.Format.{bool_text}
use acer_nitro_sense_linux.Util.Json.{
  after_prefix, json_after_colon, json_bool, json_bool_key, json_bool_key_checked, json_find_key,
  json_string, json_string_at, json_string_key, json_string_key_checked, json_value_ended,
  plain_bytes, split_at, strstr,
}
use acer_nitro_sense_linux.Util.Text.{skip_space}

-- The modes that are saved under a name of their own.
pub data SavedMode : Bool → Bytes → Type 0 where
  saved_auto : SavedMode true (codes "auto")
  saved_manual : SavedMode false (codes "manual")
  saved_firmware : SavedMode false (codes "firmware-auto")

-- A saved text with its fan list.
abbrev pub saved_state : Bool → Bytes → Bool → Bool → ℤ → Bytes → Bytes
saved_state mode preset auto_apply timeout_on now tail =
    head_text (control_mode mode preset) mode preset auto_apply timeout_on now ++ tail

pub auto_key :
    {mode : Bool} {preset : Bytes} (m : SavedMode mode preset) (auto_apply timeout_on : Bool)
    (now : ℤ) (tail : Bytes)
    → json_bool_key (saved_state mode preset auto_apply timeout_on now tail) (codes "auto") true
      ≡ mode
unfolding head_text json_bool_key json_bool_key_checked json_find_key strstr after_prefix
    json_after_colon split_at skip_space json_bool json_value_ended bool_text control_mode
    firmware_auto_mode is_firmware_auto is_manual str_eq
auto_key saved_auto auto_apply timeout_on now tail = refl
auto_key saved_manual auto_apply timeout_on now tail = refl
auto_key saved_firmware auto_apply timeout_on now tail = refl

pub auto_apply_key :
    {mode : Bool} {preset : Bytes} (m : SavedMode mode preset) (auto_apply timeout_on : Bool)
    (now : ℤ) (tail : Bytes) (fallback : Bool)
    → json_bool_key
        (saved_state mode preset auto_apply timeout_on now tail)
        (codes "power_source_auto_apply")
        fallback
      ≡ auto_apply
unfolding head_text json_bool_key json_bool_key_checked json_find_key strstr after_prefix
    json_after_colon split_at skip_space json_bool json_value_ended bool_text control_mode
    firmware_auto_mode is_firmware_auto is_manual str_eq
auto_apply_key saved_auto true timeout_on now tail fallback = refl
auto_apply_key saved_auto false timeout_on now tail fallback = refl
auto_apply_key saved_manual true timeout_on now tail fallback = refl
auto_apply_key saved_manual false timeout_on now tail fallback = refl
auto_apply_key saved_firmware true timeout_on now tail fallback = refl
auto_apply_key saved_firmware false timeout_on now tail fallback = refl

pub timeout_key :
    {mode : Bool} {preset : Bytes} (m : SavedMode mode preset) (auto_apply timeout_on : Bool)
    (now : ℤ) (tail : Bytes) (fallback : Bool)
    → json_bool_key
        (saved_state mode preset auto_apply timeout_on now tail)
        (codes "keyboard_backlight_timeout_enabled")
        fallback
      ≡ timeout_on
unfolding head_text json_bool_key json_bool_key_checked json_find_key strstr after_prefix
    json_after_colon split_at skip_space json_bool json_value_ended bool_text control_mode
    firmware_auto_mode is_firmware_auto is_manual str_eq
timeout_key saved_auto true true now tail fallback = refl
timeout_key saved_auto true false now tail fallback = refl
timeout_key saved_auto false true now tail fallback = refl
timeout_key saved_auto false false now tail fallback = refl
timeout_key saved_manual true true now tail fallback = refl
timeout_key saved_manual true false now tail fallback = refl
timeout_key saved_manual false true now tail fallback = refl
timeout_key saved_manual false false now tail fallback = refl
timeout_key saved_firmware true true now tail fallback = refl
timeout_key saved_firmware true false now tail fallback = refl
timeout_key saved_firmware false true now tail fallback = refl
timeout_key saved_firmware false false now tail fallback = refl

pub preset_key :
    {mode : Bool} {preset : Bytes} (m : SavedMode mode preset) (auto_apply timeout_on : Bool)
    (now : ℤ) (tail old : Bytes)
    → mode ≡ false
    → json_string_key
        (saved_state mode preset auto_apply timeout_on now tail)
        (codes "preset")
        old
        preset_len
      ≡ preset
unfolding head_text json_find_key strstr after_prefix json_after_colon split_at skip_space
    json_string json_string_at json_string_key json_string_key_checked plain_bytes json_value_ended
    bool_text control_mode firmware_auto_mode is_firmware_auto is_manual str_eq
preset_key saved_auto auto_apply timeout_on now tail old h = cc h
preset_key saved_manual auto_apply timeout_on now tail old h = refl
preset_key saved_firmware auto_apply timeout_on now tail old h = refl
