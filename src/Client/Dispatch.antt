-- ===== src/Client/Dispatch.antt =====
-- commands/client/dispatch.c: which handler a command line reaches.
use acer_nitro_sense_linux.Client.Backlight.{client_handle_keyboard_backlight_command}
use acer_nitro_sense_linux.Client.Builtin.{
  client_handle_auto_command, client_handle_capabilities_command, client_handle_doctor_command,
  client_handle_firmware_auto_command, client_handle_presets_command, client_handle_restart_command,
  client_handle_resume_command, client_handle_start_command, client_handle_status_command,
  client_handle_stop_command, client_handle_validate_command,
}
use acer_nitro_sense_linux.Client.Fan.{
  client_handle_ec_command, client_handle_preset_command, client_handle_set_command,
}
use acer_nitro_sense_linux.Client.Platform.{
  client_handle_coolboost_command, client_handle_fan_mode_command, client_handle_gpu_temp_command,
  client_handle_power_source_command, client_handle_profile_command,
}
use acer_nitro_sense_linux.Client.Types.{
  ClientCall, ClientCommand, argv_at, call_entry, entry, prints_usage,
}
use acer_nitro_sense_linux.Prelude.{Bytes, List, [], codes, if◌then◌else◌, length, ltb, ◌∷◌}

unfoldable pub client_commands : List ClientCommand
client_commands =
    entry (codes "start") client_handle_start_command
    ∷ entry (codes "restart") client_handle_restart_command
    ∷ entry (codes "stop") client_handle_stop_command
    ∷ entry (codes "status") client_handle_status_command
    ∷ entry (codes "auto") client_handle_auto_command
    ∷ entry (codes "firmware-auto") client_handle_firmware_auto_command
    ∷ entry (codes "presets") client_handle_presets_command
    ∷ entry (codes "capabilities") client_handle_capabilities_command
    ∷ entry (codes "resume") client_handle_resume_command
    ∷ entry (codes "validate") client_handle_validate_command
    ∷ entry (codes "doctor") client_handle_doctor_command
    ∷ entry (codes "coolboost") client_handle_coolboost_command
    ∷ entry (codes "fan-mode") client_handle_fan_mode_command
    ∷ entry (codes "profile") client_handle_profile_command
    ∷ entry (codes "gpu-temp") client_handle_gpu_temp_command
    ∷ entry (codes "power-source") client_handle_power_source_command
    ∷ entry (codes "keyboard-backlight") client_handle_keyboard_backlight_command
    ∷ entry (codes "ec") client_handle_ec_command
    ∷ entry (codes "set") client_handle_set_command
    ∷ entry (codes "preset") client_handle_preset_command
    ∷ []

unfoldable pub client_run : List Bytes → ClientCall
client_run argv =
    if ltb (length argv) 2
    then prints_usage
    else call_entry client_commands (argv_at argv 1) argv prints_usage
