-- ===== src/Client/Platform.antt =====
-- commands/client/platform.c: `coolboost`, `fan-mode`, `profile`, `gpu-temp` and `power-source`.
use acer_nitro_sense_linux.Client.Transport.{client_send_commandf}
use acer_nitro_sense_linux.Client.Types.{
  ClientCall, ClientCommand, argv_at, call_entry, complains, entry, prints_coolboost, prints_usage,
  sends,
}
use acer_nitro_sense_linux.Command.Tokens.{command_token_in}
use acer_nitro_sense_linux.Prelude.{
  Bytes, List, [], codes, if◌then◌else◌, length, ltb, not, ◌++◌, ◌==◌, ◌∷◌,
}

unfoldable pub client_handle_coolboost_set_command : List Bytes → ClientCall
client_handle_coolboost_set_command argv =
    if not (length argv == 3)
    then prints_usage
    else client_send_commandf (codes "coolboost " ++ (argv_at argv 2 ++ codes "\n"))

unfoldable pub client_handle_coolboost_status_command : List Bytes → ClientCall
client_handle_coolboost_status_command argv =
    if not (length argv == 3) then prints_usage else prints_coolboost

unfoldable pub client_coolboost_commands : List ClientCommand
client_coolboost_commands =
    entry (codes "on") client_handle_coolboost_set_command
    ∷ entry (codes "off") client_handle_coolboost_set_command
    ∷ entry (codes "status") client_handle_coolboost_status_command
    ∷ []

unfoldable pub client_handle_coolboost_command : List Bytes → ClientCall
client_handle_coolboost_command argv =
    if ltb (length argv) 3
    then prints_usage
    else call_entry client_coolboost_commands (argv_at argv 2) argv complains

unfoldable pub client_handle_fan_mode_command : List Bytes → ClientCall
client_handle_fan_mode_command argv =
    if not (length argv == 3)
    then prints_usage
    else if not (
        command_token_in (argv_at argv 2)
          (codes "status" ∷ codes "auto" ∷ codes "manual" ∷ codes "turbo" ∷ []))
    then complains
    else client_send_commandf (codes "fan-mode " ++ (argv_at argv 2 ++ codes "\n"))

unfoldable pub client_handle_profile_command : List Bytes → ClientCall
client_handle_profile_command argv =
    if not (length argv == 3)
    then prints_usage
    else client_send_commandf (codes "profile " ++ (argv_at argv 2 ++ codes "\n"))

unfoldable pub client_handle_gpu_temp_command : List Bytes → ClientCall
client_handle_gpu_temp_command argv =
    if not (length argv == 3)
    then prints_usage
    else if not
        (command_token_in (argv_at argv 2) (codes "status" ∷ codes "auto" ∷ codes "live" ∷ []))
    then complains
    else client_send_commandf (codes "gpu-temp " ++ (argv_at argv 2 ++ codes "\n"))

unfoldable pub client_handle_power_source_status_command : List Bytes → ClientCall
client_handle_power_source_status_command argv =
    if not (length argv == 3) then prints_usage else sends (codes "power-source status\n")

unfoldable pub client_handle_power_source_apply_command : List Bytes → ClientCall
client_handle_power_source_apply_command argv =
    if not (length argv == 3) then prints_usage else sends (codes "power-source apply\n")

unfoldable pub client_handle_power_source_auto_command : List Bytes → ClientCall
client_handle_power_source_auto_command argv =
    if not (length argv == 4)
    then prints_usage
    else if not (command_token_in (argv_at argv 3) (codes "on" ∷ codes "off" ∷ []))
    then complains
    else client_send_commandf (codes "power-source auto " ++ (argv_at argv 3 ++ codes "\n"))

unfoldable pub client_power_source_commands : List ClientCommand
client_power_source_commands =
    entry (codes "status") client_handle_power_source_status_command
    ∷ entry (codes "apply") client_handle_power_source_apply_command
    ∷ entry (codes "auto") client_handle_power_source_auto_command
    ∷ []

unfoldable pub client_handle_power_source_command : List Bytes → ClientCall
client_handle_power_source_command argv =
    if ltb (length argv) 3
    then prints_usage
    else call_entry client_power_source_commands (argv_at argv 2) argv complains
