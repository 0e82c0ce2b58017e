-- ===== src/Daemon/Types.antt =====
-- The state that the fan commands share, and what a command answers.
use acer_nitro_sense_linux.Config.Types.{PresetConfig}
use acer_nitro_sense_linux.Fan.State.{FanState}
use acer_nitro_sense_linux.Keyboard.Backlight.{BacklightStatus}
use acer_nitro_sense_linux.Keyboard.Timeout.{TimeoutState}
use acer_nitro_sense_linux.Platform.PowerSource.{PowerSource}
use acer_nitro_sense_linux.Prelude.{Bool, Bytes, List, Option, false, some, true, ℕ, ℤ}
use acer_nitro_sense_linux.Status.Capabilities.{CapabilitiesReport}
use acer_nitro_sense_linux.Status.Feature.{
  FanModeReport, GpuTempReport, KeyboardReport, PowerSourceReport,
}
use acer_nitro_sense_linux.Status.Reply.{StatusReport}
use acer_nitro_sense_linux.Util.Text.{string_copy}

-- What `fan_command_context` points to: `preset` is the caller's buffer, without the fields that
-- no command changes.
pub record DaemonState : Type 0 where
  pub states : List FanState
  pub auto_mode : Bool
  pub preset : Bytes
  pub coolboost_enabled : Bool

-- The replies of commands/daemon/, without their wording.
pub data Reply : Type 0 where
  bad_usage unknown_command unknown_fan_reply unknown_preset unavailable write_failed : Reply
  changed_manual : Bytes → ℤ → Reply
  changed_preset : Bytes → ℤ → ℤ → Reply
  changed_auto changed_firmware_auto : Reply
  changed_fan_mode : Bytes → Reply
  changed_coolboost : Bool → Reply
  permission_denied invalid_command unknown_profile stopped : Reply
  policy_unavailable : PowerSource → Reply
  gpu_policy_failed : Bytes → Reply
  changed_profile : Bytes → ℤ → Reply
  changed_source_profile : PowerSource → Bytes → Reply
  changed_auto_apply : PowerSource → Bool → Bytes → Reply
  changed_backlight : BacklightStatus → Reply
  changed_timeout : Bool → ℤ → Reply
  changed_gpu_policy : Bytes → Bytes → ℤ → Reply
  resumed : Bytes → Bytes → Reply
  shows_status : StatusReport → Reply
  shows_presets : List PresetConfig → Reply
  shows_preset : Bytes × Bytes × List (Bytes × ℤ × ℤ) → Reply
  shows_capabilities : CapabilitiesReport → Reply
  shows_coolboost : Bytes → Reply
  shows_fan_mode : Option FanModeReport → Reply
  shows_profile : Option (Bytes × ℤ) → Reply
  shows_power_source : PowerSourceReport → Reply
  shows_gpu_temp : GpuTempReport → Reply
  shows_keyboard : KeyboardReport → Reply
  shows_ec_byte : ℤ → Option ℤ → Reply
  shows_ec_rows : List (ℤ × List (Option ℤ)) → Reply

-- The reply, and whether `write_control_state` saves the new state.
pub record Answer : Type 0 where
  pub reply : Reply
  pub saved : Bool

abbrev pub refused : Reply → Answer
refused r = record { reply = r; saved = false }

-- A reply that only reports.
abbrev pub reported : Reply → Answer
reported r = record { reply = r; saved = false }

abbrev pub accepted : Reply → Answer
accepted r = record { reply = r; saved = true }

-- The state of the whole daemon: that of the fan commands, `daemon_runtime_state`, and
-- `daemon_running`.
pub record Service : Type 0 where
  pub daemon : DaemonState
  pub power_source_auto_apply : Bool
  pub timeout : TimeoutState
  pub running : Bool

-- What a command answers that leaves the daemon's state as it is.
abbrev pub unchanged {ℓ} : {W : Type ℓ} → Service → Answer × W → Service × Answer × W
unchanged s r = (s, r.0, r.1)

-- The size of the buffers for a preset in the daemon.
abbrev pub preset_len : ℕ
preset_len = 32

-- `fan_command_set_control_mode`.
unfoldable pub fan_command_set_control_mode : DaemonState → Bool → Bytes → DaemonState
fan_command_set_control_mode d auto_enabled preset_name = record d {
  auto_mode = auto_enabled;
  preset = (string_copy d.preset preset_len (some preset_name)).1;
}
