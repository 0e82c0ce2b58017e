-- ===== src/Platform/SensorPower.antt =====
-- platform/sensor_power.c: the runtime power policy of the fans' sensors.
use acer_nitro_sense_linux.Config.Types.{AnsConfig, FanConfig}
use acer_nitro_sense_linux.Machine.{Machine}
use acer_nitro_sense_linux.Platform.Host.{Host}
use acer_nitro_sense_linux.Prelude.{
  Bytes, List, [], codes, if◌then◌else◌, str_eq, text_has_value, ◌&&◌, ◌∷◌,
}

-- `target`; an empty text leaves the sensor alone.
unfoldable pub sensor_power_target : FanConfig → Bytes → Bytes
sensor_power_target fan control =
    if str_eq control (codes "auto") && text_has_value fan.sensor_power_control
    then codes "auto"
    else if text_has_value fan.sensor_power_control
    then fan.sensor_power_control
    else if fan.keep_awake
    then control
    else []

module _ (M : Machine) (H : Host M) where
  open M use {World}

  unfoldable pub apply_sensor_power_from : List FanConfig → Bytes → World → World
  apply_sensor_power_from [] control w = w
  apply_sensor_power_from (fan ∷ fans) control w =
      let target = sensor_power_target fan control in
      let (_, w1) = H.sensor_set_group_power_control fan.sensor_group target w in
      apply_sensor_power_from fans control (if text_has_value target then w1 else w)

  unfoldable pub apply_sensor_power_control : AnsConfig → Bytes → World → World
  apply_sensor_power_control cfg control w = apply_sensor_power_from cfg.fans control w
