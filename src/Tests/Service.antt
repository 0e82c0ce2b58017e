-- ===== src/Tests/Service.antt =====
-- Whole runs of the daemon, its permissions, and what it saves.
use acer_nitro_sense_linux.Config.Find.{config_find_preset, find_by_id}
use acer_nitro_sense_linux.Daemon.Invariant.{IsConsistent}
use acer_nitro_sense_linux.Daemon.Permission.{Harmless, uncontrolled-Harmless}
use acer_nitro_sense_linux.Daemon.Registry.{dispatch_daemon_command}
use acer_nitro_sense_linux.Daemon.Types.{Service}
use acer_nitro_sense_linux.Keyboard.Backlight.{keyboard_backlight_init_status}
use acer_nitro_sense_linux.Keyboard.Timeout.{keyboard_backlight_timeout_init}
use acer_nitro_sense_linux.Loop.Sound.{serve-IsConsistent}
use acer_nitro_sense_linux.Loop.Startup.{SavedFiles, serve}
use acer_nitro_sense_linux.Loop.Step.{Client, Event, something_ready, timeout_from_ms}
use acer_nitro_sense_linux.Loop.Timing.{timeout_exact}
use acer_nitro_sense_linux.Platform.FanMode.{
  control_mode, firmware_auto_mode, is_firmware_auto, is_manual,
}
use acer_nitro_sense_linux.Platform.Host.{Host, Supply}
use acer_nitro_sense_linux.Platform.PowerSource.{
  power_source_battery, power_supply_is_online, power_supply_type_is_mains, read_trimmed_file,
  scan_supplies,
}
use acer_nitro_sense_linux.Platform.PowerSource.Laws.{
  any_of, is_battery, is_mains, power_source_of, scan_supplies-power_source_of,
}
use acer_nitro_sense_linux.Prelude.{
  Bool, Bytes, [], codes, false, map, none, pos, refl, some, str_eq, true, ◌&&◌, ◌*◌, ◌+◌, ◌-◌, ◌<◌,
  ◌∷◌, ◌≡◌,
}
use acer_nitro_sense_linux.State.Buffer.{
  append_all, decimal, decimal_digits, text_buffer_append, text_buffer_init, text_buffer_ok,
}
use acer_nitro_sense_linux.State.Restore.{restore_control_state_from_json}
use acer_nitro_sense_linux.State.RoundTrip.{saved_manual}
use acer_nitro_sense_linux.State.RoundTrip.Lost.{saved_preset_lost}
use acer_nitro_sense_linux.State.RoundTrip.Restored.{saved_state_restored}
use acer_nitro_sense_linux.State.Write.{
  control_state_pieces, head_text, state_fan_lines, state_head, write_control_state,
}
use acer_nitro_sense_linux.Status.Format.{bool_text, status_requested_percent}
use acer_nitro_sense_linux.Status.Reply.{reply_ec_dump}
use acer_nitro_sense_linux.Status.Reply.Laws.{shown-reply_ec_dump, shown_bytes}
use acer_nitro_sense_linux.Tests.{bench, bench_profile, bench_profile-IsValid, bench_state}
use acer_nitro_sense_linux.Util.Text.{skip_space, string_copy, trim_ascii, trim_end}

abbrev pub adapter_supply : Supply
adapter_supply = record {
  name = codes "ADP1";
  type_text = some (codes "Mains\n");
  online_text = none;
}

abbrev pub battery_supply : Supply
battery_supply = record {
  name = codes "BAT1";
  type_text = some (codes "Battery\n");
  online_text = none;
}

abbrev pub bench_host : Host bench
bench_host = record {
  fake_source = λ w. none;
  power_supplies = λ w. some (adapter_supply ∷ battery_supply ∷ []);
  read_sysfs = λ w. (false, keyboard_backlight_init_status);
  sensor_set_group_power_control = λ group control w. (pos 1, w);
  sensor_read_group_power_control = λ group w. none;
}

scan_supplies-power_source_of_example :
    scan_supplies (adapter_supply ∷ battery_supply ∷ []) false false
    ≡ power_source_of (adapter_supply ∷ battery_supply ∷ [])
scan_supplies-power_source_of_example =
    scan_supplies-power_source_of (adapter_supply ∷ battery_supply ∷ [])

-- The adapter is not online, so the battery is in use.
on_battery_test : power_source_of (adapter_supply ∷ battery_supply ∷ []) ≡ power_source_battery
unfolding power_source_of any_of is_battery is_mains power_supply_is_online read_trimmed_file
    string_copy trim_ascii trim_end skip_space str_eq power_supply_type_is_mains
on_battery_test = refl

abbrev no_files : SavedFiles
no_files = record { status_file = none; cache_file = none; state_file = none }

abbrev set_client : Client
set_client = record { incoming = map some (codes "set cpu 50\n"); can_control = true }

abbrev client_event : Event
client_event = record {
  now_ms = pos 10;
  updated_ms = pos 12;
  handled_ms = pos 20;
  has_inputs = false;
  last_activity_ms = pos 0;
  new_activity_ms = pos 0;
  ready = something_ready;
  client = some set_client;
}

serve-IsConsistent_example :
    IsConsistent bench_profile
      (serve bench bench_host bench_profile no_files (client_event ∷ []) []).0.daemon
serve-IsConsistent_example =
    serve-IsConsistent bench bench_host bench_profile bench_profile-IsValid no_files
      (client_event ∷ []) [] (λ e. cc e)

abbrev pub service_with : Bool → Bytes → Service
service_with mode name = record {
  daemon = record {
    states = bench_state ∷ [];
    auto_mode = mode;
    preset = name;
    coolboost_enabled = false;
  };
  power_source_auto_apply = true;
  timeout = keyboard_backlight_timeout_init bench_profile;
  running = true;
}

uncontrolled-Harmless_example :
    Harmless bench bench_host bench_profile
      (codes "set cpu 50")
      (service_with true (codes "auto"))
      []
      (dispatch_daemon_command bench bench_host bench_profile
        (codes "set cpu 50")
        false
        (service_with true (codes "auto"))
        [])
uncontrolled-Harmless_example =
    uncontrolled-Harmless bench bench_host bench_profile (codes "set cpu 50")
      (service_with true (codes "auto")) []

-- What is saved of a service.
saved_bytes : Service → Bytes
saved_bytes s =
    (append_all (text_buffer_init 1024) (control_state_pieces bench_profile s (pos 1))).content

abbrev manual_service : Service
manual_service = service_with false (codes "manual")

abbrev cool_service : Service
cool_service = service_with false (codes "cool")

manual_written :
    write_control_state true true bench_profile manual_service (pos 1)
    ≡ some (saved_bytes manual_service)
unfolding saved_bytes write_control_state append_all text_buffer_init text_buffer_append
    text_buffer_ok control_state_pieces state_fan_lines state_head head_text bool_text control_mode
    firmware_auto_mode is_firmware_auto is_manual str_eq decimal decimal_digits
    status_requested_percent keyboard_backlight_timeout_init
manual_written = refl

cool_written :
    write_control_state true true bench_profile cool_service (pos 1)
    ≡ some (saved_bytes cool_service)
unfolding saved_bytes write_control_state append_all text_buffer_init text_buffer_append
    text_buffer_ok control_state_pieces state_fan_lines state_head head_text bool_text control_mode
    firmware_auto_mode is_firmware_auto is_manual str_eq decimal decimal_digits
    status_requested_percent keyboard_backlight_timeout_init
cool_written = refl

saved_state_restored_example :
    let (restored, _) =
      restore_control_state_from_json bench bench_profile
        (saved_bytes manual_service)
        (service_with true (codes "auto"))
        [] in
    (restored.daemon.auto_mode ≡ false)
    × (restored.daemon.preset ≡ codes "manual")
    × (restored.power_source_auto_apply ≡ true)
    × (restored.timeout.enabled ≡ (false && manual_service.timeout.enabled))
saved_state_restored_example =
    saved_state_restored bench bench_profile manual_service (service_with true (codes "auto"))
      (pos 1) (saved_bytes manual_service) [] saved_manual manual_written (λ e. cc e)

cool_plain : (is_firmware_auto (codes "cool") ≡ false) × (is_manual (codes "cool") ≡ false)
unfolding is_firmware_auto is_manual str_eq
cool_plain = (refl, refl)

no_auto_preset : config_find_preset bench_profile (codes "auto") ≡ none
unfolding config_find_preset find_by_id str_eq
no_auto_preset = refl

saved_preset_lost_example :
    let (restored, _) =
      restore_control_state_from_json bench bench_profile
        (saved_bytes cool_service)
        (service_with true (codes "auto"))
        [] in
    (restored.daemon.auto_mode ≡ false) × (restored.daemon.preset ≡ codes "manual")
saved_preset_lost_example =
    saved_preset_lost bench bench_profile cool_service (service_with true (codes "auto")) (pos 1)
      (saved_bytes cool_service) [] refl cool_plain.0 cool_plain.1 no_auto_preset cool_written

shown-reply_ec_dump_example : shown_bytes (reply_ec_dump bench (pos 3) (pos 40) []).0 ≡ 40 + 1 - 3
shown-reply_ec_dump_example = shown-reply_ec_dump bench 3 40 []

timeout_exact_example :
    let (seconds, micros) = timeout_from_ms (pos 1234) in
    (seconds * 1000000 + micros ≡ 1234 * 1000) × (micros < 1000000)
timeout_exact_example = timeout_exact (pos 1234)
