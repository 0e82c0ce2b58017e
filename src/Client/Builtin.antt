-- ===== src/Client/Builtin.antt =====
-- commands/client/builtin.c: the commands without subcommands.
use acer_nitro_sense_linux.Client.Types.{
  ClientCall, TempUnit, argv_at, celsius, fahrenheit, prints_status, prints_usage, runs_doctor,
  runs_systemctl, sends, sends_or_systemctl, validates_model,
}
use acer_nitro_sense_linux.Config.Find.{find_by_id}
use acer_nitro_sense_linux.Prelude.{
  Bool, Bytes, List, Option, [], codes, false, if◌then◌else◌, length, ltb, none, not, some, true, ℕ,
  ◌==◌, ◌∷◌,
}

-- `status_option`
pub record StatusOption : Type 0 where
  pub option_name : Bytes
  pub unit : TempUnit
  pub json : Bool

unfoldable pub status_options : List StatusOption
status_options =
    record { option_name = codes "--json"; unit = celsius; json = true }
    ∷ record { option_name = codes "--celsius"; unit = celsius; json = false }
    ∷ record { option_name = codes "--fahrenheit"; unit = fahrenheit; json = false }
    ∷ []

unfoldable pub find_status_option : Bytes → Option StatusOption
find_status_option name = find_by_id (λ o. o.option_name) status_options name

unfoldable pub client_expect_argc : List Bytes → ℕ → Bool
client_expect_argc argv expected = length argv == expected

-- The handlers that only look at the number of arguments, which is the name alone.
unfoldable pub without_arguments : ClientCall → List Bytes → ClientCall
without_arguments call argv = if not (client_expect_argc argv 2) then prints_usage else call

unfoldable pub client_handle_status_command : List Bytes → ClientCall
client_handle_status_command argv =
    if ltb 3 (length argv)
    then prints_usage
    else if length argv == 3
    then elim (find_status_option (argv_at argv 2)) [
      | none ↦ prints_usage
      | some o ↦ prints_status o.unit o.json
    ]
    else prints_status celsius false

unfoldable pub client_handle_start_command : List Bytes → ClientCall
client_handle_start_command argv = without_arguments (runs_systemctl (codes "start")) argv

unfoldable pub client_handle_restart_command : List Bytes → ClientCall
client_handle_restart_command argv = without_arguments (runs_systemctl (codes "restart")) argv

unfoldable pub client_handle_stop_command : List Bytes → ClientCall
client_handle_stop_command argv =
    without_arguments (sends_or_systemctl (codes "stop\n") (codes "stop")) argv

unfoldable pub client_handle_auto_command : List Bytes → ClientCall
client_handle_auto_command argv = without_arguments (sends (codes "auto\n")) argv

unfoldable pub client_handle_firmware_auto_command : List Bytes → ClientCall
client_handle_firmware_auto_command argv = without_arguments (sends (codes "firmware-auto\n")) argv

unfoldable pub client_handle_presets_command : List Bytes → ClientCall
client_handle_presets_command argv = without_arguments (sends (codes "presets\n")) argv

unfoldable pub client_handle_capabilities_command : List Bytes → ClientCall
client_handle_capabilities_command argv = without_arguments (sends (codes "capabilities\n")) argv

unfoldable pub client_handle_resume_command : List Bytes → ClientCall
client_handle_resume_command argv = without_arguments (sends (codes "resume\n")) argv

unfoldable pub client_handle_validate_command : List Bytes → ClientCall
client_handle_validate_command argv = without_arguments validates_model argv

unfoldable pub client_handle_doctor_command : List Bytes → ClientCall
client_handle_doctor_command argv = without_arguments runs_doctor argv
