-- ===== src/Status/Format.antt =====
-- daemon/status_format.h and the texts of util/format.c.
use acer_nitro_sense_linux.Fan.State.{FanState}
use acer_nitro_sense_linux.Prelude.{
  Bool, Bytes, Option, codes, if◌then◌else◌, ltb_ℤ, none, not, pos, some, text_has_value, ℤ, ◌&&◌,
}

unfoldable pub bool_text : Bool → Bytes
bool_text value = if value then codes "true" else codes "false"

unfoldable pub availability_text : Bool → Bytes
availability_text available = if available then codes "available" else codes "unavailable"

unfoldable pub on_off_text : Bool → Bytes
on_off_text enabled = if enabled then codes "on" else codes "off"

unfoldable pub supported_text : Bool → Bytes
supported_text supported = if supported then codes "available" else codes "unsupported"

unfoldable pub fallback_text : Bytes → Bytes → Bytes
fallback_text text fallback = if text_has_value text then text else fallback

unfoldable pub status_fan_firmware_controlled : Bool → Bool → Bool
status_fan_firmware_controlled firmware_mode safety_active = firmware_mode && not safety_active

unfoldable pub status_fan_control_source : Bool → Bool → Bytes
status_fan_control_source firmware_mode safety_active =
    if safety_active
    then codes "safety"
    else if firmware_mode
    then codes "firmware"
    else codes "daemon"

unfoldable pub status_requested_percent : FanState → ℤ
status_requested_percent s =
    if ltb_ℤ (pos 0) s.requested_percent then s.requested_percent else s.percent

-- The percentage that is written out; `none` is the text for a fan that the firmware controls.
unfoldable pub status_active_percent_text : Bool → Bool → ℤ → Option ℤ
status_active_percent_text firmware_mode safety_active percent =
    if status_fan_firmware_controlled firmware_mode safety_active then none else some percent
