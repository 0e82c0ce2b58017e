-- ===== src/Loop/Startup.antt =====
-- daemon.c: the states that the daemon starts with, its rounds, and its end.
use acer_nitro_sense_linux.Config.Types.{AnsConfig, FanConfig}
use acer_nitro_sense_linux.Daemon.Types.{DaemonState, Service}
use acer_nitro_sense_linux.Fan.Lifecycle.{apply_init_writes, apply_reset_writes}
use acer_nitro_sense_linux.Fan.Requests.{apply_preset}
use acer_nitro_sense_linux.Fan.State.{FanState, ok}
use acer_nitro_sense_linux.Keyboard.Timeout.{keyboard_backlight_timeout_init}
use acer_nitro_sense_linux.Loop.Step.{Event, LoopState, run_rounds}
use acer_nitro_sense_linux.Machine.{Machine}
use acer_nitro_sense_linux.Platform.FanMode.{
  apply_daemon_control_fan_mode, apply_firmware_auto_fan_mode, firmware_auto_preset,
}
use acer_nitro_sense_linux.Platform.Host.{Host}
use acer_nitro_sense_linux.Platform.PowerSource.{power_source_unknown}
use acer_nitro_sense_linux.Platform.SensorPower.{apply_sensor_power_control}
use acer_nitro_sense_linux.Prelude.{
  Bool, Bytes, List, Option, codes, false, if◌then◌else◌, map, none, not, pos, some, str_eq,
  text_has_value, true,
}
use acer_nitro_sense_linux.State.Cache.{seed_last_temperatures}
use acer_nitro_sense_linux.State.Restore.{restore_control_state, with_preset}

-- A state of `states[ANS_MAX_FANS] = {0}`, with the speed that the fan resets to.
unfoldable pub initial_state : FanConfig → FanState
initial_state fan = record {
  rpm = pos 0;
  temp_c = pos 0;
  sensor_temp_c = pos 0;
  control_temp_c = pos 0;
  control_sensor_temp_c = pos 0;
  pending_spike_temp_c = pos 0;
  pending_control_spike_temp_c = pos 0;
  write_value = pos 0;
  temp_available = false;
  control_temp_available = false;
  temp_seeded = false;
  control_temp_seeded = false;
  percent = fan.reset_speed;
  requested_percent = fan.reset_speed;
  critical_temp_samples = pos 0;
  ec_read_failures = pos 0;
  ec_write_failures = pos 0;
  safety_active = false;
  safety_reason = ok;
}

-- The files that earlier runs left: the status, the temperature cache and the control state.
pub record SavedFiles : Type 0 where
  pub status_file : Option Bytes
  pub cache_file : Option Bytes
  pub state_file : Option Bytes

unfoldable pub initial_service : AnsConfig → SavedFiles → Service
initial_service cfg files = record {
  daemon = record {
    states =
        seed_last_temperatures files.status_file files.cache_file cfg (map initial_state cfg.fans);
    auto_mode = true;
    preset = codes "auto";
    coolboost_enabled = cfg.coolboost_default_enabled;
  };
  power_source_auto_apply = cfg.power_source_profiles.auto_apply;
  timeout = keyboard_backlight_timeout_init cfg;
  running = true;
}

abbrev pub controlled_by : DaemonState → Bool → Bytes → DaemonState
controlled_by d mode name = record (with_preset d name) { auto_mode = mode }

module _ (M : Machine) (H : Host M) (cfg : AnsConfig) where
  open M use {World}

  -- The last of the model's defaults, a preset of its own.
  unfoldable pub default_named_preset : DaemonState → World → DaemonState × World
  default_named_preset d w =
      if not (text_has_value cfg.default_preset)
      then (d, w)
      else (elim (apply_preset M cfg d.states cfg.default_preset w) [
        | none ↦ (d, w)
        | some (states, w1) ↦
            (record (controlled_by d false cfg.default_preset) { states = states }, w1)
      ])

  -- The control state that the model starts with; it is saved wherever it is set.
  unfoldable pub apply_default_preset : DaemonState → World → DaemonState × World
  apply_default_preset d w =
      let (_, by_daemon) = apply_daemon_control_fan_mode M cfg w in
      let (works, by_firmware) = apply_firmware_auto_fan_mode M cfg w in
      if str_eq cfg.default_preset (codes "auto")
      then (controlled_by d true (codes "auto"), by_daemon)
      else if not (str_eq cfg.default_preset firmware_auto_preset)
      then default_named_preset d w
      else if works
      then (controlled_by d false firmware_auto_preset, by_firmware)
      else default_named_preset d by_firmware

  -- The control state that was saved wins over the default.
  unfoldable pub start_control : SavedFiles → Service → World → Service × World
  start_control files s w =
      let (restored, s1, w1) = restore_control_state M cfg files.state_file s w in
      let (d, w2) = apply_default_preset s.daemon w in
      if restored then (s1, w1) else (record s { daemon = d }, w2)

  unfoldable pub start_service : SavedFiles → World → Service × World
  start_service files w =
      let w1 = apply_init_writes M cfg w in
      let w2 = apply_sensor_power_control M H cfg (codes "on") w1 in
      start_control files (initial_service cfg files) w2

  -- From the open device to the reset of the firmware.
  unfoldable pub serve : SavedFiles → List Event → World → Service × World
  serve files events w =
      let (s, w1) = start_service files w in
      let l : LoopState = record {
        service = s;
        last_power_source = power_source_unknown;
        next_update_ms = pos 0;
      } in
      let (l1, w2) = run_rounds M H cfg events l w1 in
      let w3 = apply_reset_writes M cfg w2 in
      (l1.service, apply_sensor_power_control M H cfg (codes "auto") w3)
