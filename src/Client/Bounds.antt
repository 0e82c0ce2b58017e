-- ===== src/Client/Bounds.antt =====
-- commands/client/: every line that is sent fits the buffer that the daemon reads it into, and
-- names a command of commands/daemon/registry.c.
use acer_nitro_sense_linux.Client.Builtin.{
  client_handle_auto_command, client_handle_capabilities_command, client_handle_doctor_command,
  client_handle_firmware_auto_command, client_handle_presets_command, client_handle_restart_command,
  client_handle_resume_command, client_handle_start_command, client_handle_status_command,
  client_handle_stop_command, client_handle_validate_command, find_status_option, without_arguments,
}
use acer_nitro_sense_linux.Client.Dispatch.{client_commands, client_run}
use acer_nitro_sense_linux.Client.Groups.{
  coolboost-IsServed, ec-IsServed, keyboard-IsServed, power_source-IsServed, preset-IsServed,
  set-IsServed,
}
use acer_nitro_sense_linux.Client.Known.{
  IsServed, call_entry-IsServed, counted-IsServed, formats-IsKnown, names-IsKnown, refused-IsServed,
  sendf-IsServed,
}
use acer_nitro_sense_linux.Client.Platform.{
  client_handle_fan_mode_command, client_handle_gpu_temp_command, client_handle_profile_command,
}
use acer_nitro_sense_linux.Client.Types.{ClientCall, argv_at, prints_status, prints_usage}
use acer_nitro_sense_linux.Prelude.{
  Bytes, List, arith, if_cases, length, ltb, none, not, some, ◌==◌,
}

-- A call that `without_arguments` guards is served as the call is.
pub alone-IsServed :
    (call : ClientCall) (argv : List Bytes) → IsServed call → IsServed (without_arguments call argv)
unfolding without_arguments
alone-IsServed call argv h = counted-IsServed _ call h

pub status-IsServed : (argv : List Bytes) → IsServed (client_handle_status_command argv)
unfolding client_handle_status_command
status-IsServed argv = counted-IsServed (ltb 3 (length argv)) _ (
    if_cases IsServed (length argv == 3)
      (λ _.
        elim (find_status_option (argv_at argv 2))
          as (λ o.
            IsServed (elim o [ none ↦ prints_usage | some o ↦ prints_status o.unit o.json ])) [
              | none ↦ tt
              | some o ↦ tt
            ])
      (λ _. tt))

pub fan_mode-IsServed : (argv : List Bytes) → IsServed (client_handle_fan_mode_command argv)
unfolding client_handle_fan_mode_command
fan_mode-IsServed argv =
    counted-IsServed (not (length argv == 3)) _ (refused-IsServed _ _ (formats-IsKnown _).5)

pub profile-IsServed : (argv : List Bytes) → IsServed (client_handle_profile_command argv)
unfolding client_handle_profile_command
profile-IsServed argv =
    counted-IsServed (not (length argv == 3)) _ (sendf-IsServed _ (formats-IsKnown _).6)

pub gpu_temp-IsServed : (argv : List Bytes) → IsServed (client_handle_gpu_temp_command argv)
unfolding client_handle_gpu_temp_command
gpu_temp-IsServed argv =
    counted-IsServed (not (length argv == 3)) _ (refused-IsServed _ _ (formats-IsKnown _).7)

-- Whatever the command line: what the client sends has less than 256 bytes, so it fits the buffer
-- of 256 bytes, its NUL included, that the daemon reads a command into, and its first word is a
-- command of the daemon's registry.
pub client_run-IsServed : (argv : List Bytes) → IsServed (client_run argv)
unfolding client_run client_commands client_handle_start_command client_handle_restart_command
    client_handle_stop_command client_handle_auto_command client_handle_firmware_auto_command
    client_handle_presets_command client_handle_capabilities_command client_handle_resume_command
    client_handle_validate_command client_handle_doctor_command
client_run-IsServed argv =
    let alone =
      λ (call : ClientCall) (h : IsServed call) (words : List Bytes). alone-IsServed call words h in
    counted-IsServed (ltb (length argv) 2) _ (
      call_entry-IsServed client_commands (argv_at argv 1) argv prints_usage
        (
          alone _ tt,
          (
            alone _ tt,
            (
              alone _ (omega arith, names-IsKnown.1),
              (
                status-IsServed,
                (
                  alone _ (omega arith, names-IsKnown.2),
                  (
                    alone _ (omega arith, names-IsKnown.3),
                    (
                      alone _ (omega arith, names-IsKnown.4),
                      (
                        alone _ (omega arith, names-IsKnown.5),
                        (
                          alone _ (omega arith, names-IsKnown.6),
                          (
                            alone _ tt,
                            (
                              alone _ tt,
                              (
                                coolboost-IsServed,
                                (
                                  fan_mode-IsServed,
                                  (
                                    profile-IsServed,
                                    (
                                      gpu_temp-IsServed,
                                      (
                                        power_source-IsServed,
                                        (
                                          keyboard-IsServed,
                                          (ec-IsServed, (set-IsServed, (preset-IsServed, tt))),
                                        ),
                                      ),
                                    ),
                                  ),
                                ),
                              ),
                            ),
                          ),
                        ),
                      ),
                    ),
                  ),
                ),
              ),
            ),
          ),
        )
        tt)
