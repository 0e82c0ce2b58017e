-- ===== src/Platform/Host.antt =====
-- What the handlers read of Linux beside the embedded controller: the environment, the power
-- supplies and the LEDs of sysfs, and the runtime power policy of the sensors.
use acer_nitro_sense_linux.Keyboard.Backlight.{BacklightStatus}
use acer_nitro_sense_linux.Machine.{Machine}
use acer_nitro_sense_linux.Prelude.{Bool, Bytes, List, Option, ℤ}

-- A directory below /sys/class/power_supply: the texts of its files `type` and `online`.
pub record Supply : Type 0 where
  pub name : Bytes
  pub type_text : Option Bytes
  pub online_text : Option Bytes

pub record Host (M : Machine) : Type 0 where
  -- getenv("ANS_FAKE_POWER_SOURCE")
  pub fake_source : M.World → Option Bytes
  -- The entries in the order of `readdir`, if the directory can be opened.
  pub power_supplies : M.World → Option (List Supply)
  -- keyboard_backlight_read: whether there is an LED, and its status.
  pub read_sysfs : M.World → Bool × BacklightStatus
  pub sensor_set_group_power_control : Bytes → Bytes → M.World → ℤ × M.World
  pub sensor_read_group_power_control : Bytes → M.World → Option Bytes
