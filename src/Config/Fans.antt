-- ===== src/Config/Fans.antt =====
-- config/fans.c: fan definitions and curves. The order of the checks is kept; the texts of the
-- errors are left out.
use acer_nitro_sense_linux.Config.Parse.{
  config_byte_value_valid, config_optional_bool_key, config_optional_clamped_int_key,
  config_optional_int_key, config_optional_string_key, config_required_int_key,
  config_required_string_key, config_speed_value_valid,
}
use acer_nitro_sense_linux.Config.Types.{FanConfig, Threshold}
use acer_nitro_sense_linux.Prelude.{
  Bool, Bytes, List, Option, [], codes, eqb_ℤ, false, guard, if◌then◌else◌, leb_ℤ, length, ltb,
  ltb_ℤ, minus_one, none, not, pos, some, str_eq, suc, take, zero, ℕ, ℤ, ◌&&◌, ◌>>=◌, ◌>>◌, ◌||◌,
  ◌∷◌,
}
use acer_nitro_sense_linux.Util.Json.Scan.{json_copy_slice, json_find_array, json_next_object}

unfoldable pub parse_curve_entry : Bytes → Option Threshold
parse_curve_entry json = do
  up ← config_required_int_key json (codes "up")
  down ← config_required_int_key json (codes "down")
  speed ← config_required_int_key json (codes "speed")
  guard (
      leb_ℤ (pos 0) up
      && leb_ℤ up (pos 130)
      && leb_ℤ (pos 0) down
      && leb_ℤ down (pos 130)
      && leb_ℤ down up
      && config_speed_value_valid speed)
  some (record { up = up; down = down; speed = speed })

-- The loops over the objects of an array: at most `room` of them, each cut to a buffer of `len`
-- bytes. It is the loop of `parse_curve`, `config_parse_fans`, `config_parse_init_writes` and
-- `config_parse_presets`.
unfoldable pub parse_objects : {A : Type 0} → (Bytes → Option A) → ℕ → ℕ → Bytes → Option (List A)
parse_objects parse len zero p = some []
parse_objects parse len (suc room) p =
    let rest = parse_objects parse len room in
    elim (json_next_object p) [
      | none ↦ some []
      | some (obj, p') ↦ do x ← parse (json_copy_slice obj len); xs ← rest p'; some (x ∷ xs)
    ]

abbrev pub max_thresholds : ℕ
max_thresholds = 32

abbrev pub max_fans : ℕ
max_fans = 2

unfoldable pub parse_curve : Bytes → Option (List Threshold)
parse_curve fan_json = do
  p ← json_find_array fan_json (codes "curve")
  curve ← parse_objects parse_curve_entry 256 max_thresholds p
  guard (ltb 0 (length curve))
  some curve

-- `copy_default_control_sensor_group`: the copy loop of 15 bytes at most.
unfoldable pub copy_default_control_sensor_group : Bytes → Bytes
copy_default_control_sensor_group sensor_group = take 15 sensor_group

-- The fields that `parse_fan_identity` sets.
pub record Identity : Type 0 where
  pub id : Bytes
  pub name : Bytes
  pub sensor_group : Bytes

unfoldable pub parse_fan_identity : Bytes → Option Identity
parse_fan_identity json = do
  id ← config_required_string_key json (codes "id") 16
  name ← config_required_string_key json (codes "name") 64
  group ← config_required_string_key json (codes "sensor_group") 16
  some (record { id = id; name = name; sensor_group = group })

-- The fields that `parse_fan_sensor_config` sets.
pub record SensorConfig : Type 0 where
  pub control_sensor_group : Bytes
  pub keep_awake : Bool
  pub sensor_power_control : Bytes

abbrev valid_power_control : Bytes → Bytes
valid_power_control t =
    if not (str_eq t (codes "on")) && not (str_eq t (codes "auto")) then [] else t

unfoldable pub parse_fan_sensor_config : Bytes → Bytes → Option SensorConfig
parse_fan_sensor_config json sensor_group = do
  group ←
      config_optional_string_key json (codes "control_sensor_group")
        (copy_default_control_sensor_group sensor_group) 16
  awake ← config_optional_bool_key json (codes "keep_awake") false
  power ←
      config_optional_string_key json (codes "sensor_power_control")
        (if awake then codes "on" else []) 8
  some (record {
    control_sensor_group = group;
    keep_awake = awake;
    sensor_power_control = valid_power_control power;
  })

unfoldable pub parse_fan_ec_registers : Bytes → Option (ℤ × ℤ)
parse_fan_ec_registers json = do
  read_reg ← config_required_int_key json (codes "read_register")
  write_reg ← config_required_int_key json (codes "write_register")
  guard (config_byte_value_valid read_reg && config_byte_value_valid write_reg)
  some (read_reg, write_reg)

-- -1 for a register that the profile leaves out.
abbrev pub optional_register_valid : ℤ → Bool
optional_register_valid reg = eqb_ℤ reg minus_one || config_byte_value_valid reg

unfoldable pub parse_fan_temperature_registers : Bytes → Option (ℤ × ℤ)
parse_fan_temperature_registers json = do
  reg ← config_optional_int_key json (codes "temperature_register") minus_one
  control_reg ← config_optional_int_key json (codes "control_temperature_register") minus_one
  guard (optional_register_valid reg)
  guard (optional_register_valid control_reg)
  some (reg, control_reg)

-- The fields that `parse_fan_numeric_limits` sets.
pub record Limits : Type 0 where
  pub read_min : ℤ
  pub read_max : ℤ
  pub write_min : ℤ
  pub write_max : ℤ
  pub reset_speed : ℤ
  pub missing_speed : ℤ

unfoldable pub fan_numeric_defaults : Limits
fan_numeric_defaults = record {
  read_min = pos 0;
  read_max = pos 6000;
  write_min = pos 0;
  write_max = pos 100;
  reset_speed = pos 50;
  missing_speed = pos 0;
}

unfoldable pub parse_fan_numeric_limits : Bytes → Option Limits
unfolding fan_numeric_defaults
parse_fan_numeric_limits json = do
  read_min ← config_optional_int_key json (codes "read_min") fan_numeric_defaults.read_min
  read_max ← config_optional_int_key json (codes "read_max") fan_numeric_defaults.read_max
  write_min ← config_optional_int_key json (codes "write_min") fan_numeric_defaults.write_min
  write_max ← config_optional_int_key json (codes "write_max") fan_numeric_defaults.write_max
  reset ← config_optional_int_key json (codes "reset_speed") fan_numeric_defaults.reset_speed
  missing ←
      config_optional_clamped_int_key json (codes "missing_temperature_speed_percent")
        fan_numeric_defaults.missing_speed (pos 0) (pos 100)
  some (record {
    read_min = read_min;
    read_max = read_max;
    write_min = write_min;
    write_max = write_max;
    reset_speed = reset;
    missing_speed = missing;
  })

unfoldable pub validate_fan_numeric_ranges : Limits → Bool
validate_fan_numeric_ranges l =
    (leb_ℤ (pos 0) l.read_min && ltb_ℤ l.read_min l.read_max)
    && (leb_ℤ (pos 0) l.write_min && leb_ℤ l.write_max (pos 100) && ltb_ℤ l.write_min l.write_max)
    && (leb_ℤ l.write_min l.reset_speed && leb_ℤ l.reset_speed l.write_max)

unfoldable pub parse_fan : Bytes → Option FanConfig
parse_fan json = do
  who ← parse_fan_identity json
  sensor ← parse_fan_sensor_config json who.sensor_group
  (read_reg, write_reg) ← parse_fan_ec_registers json
  (temp_reg, control_reg) ← parse_fan_temperature_registers json
  limits ← parse_fan_numeric_limits json
  guard (validate_fan_numeric_ranges limits)
  curve ← parse_curve json
  some (record {
    id = who.id;
    name = who.name;
    sensor_group = who.sensor_group;
    control_sensor_group = sensor.control_sensor_group;
    sensor_power_control = sensor.sensor_power_control;
    keep_awake = sensor.keep_awake;
    read_register = read_reg;
    write_register = write_reg;
    temperature_register = temp_reg;
    control_temperature_register = control_reg;
    read_min = limits.read_min;
    read_max = limits.read_max;
    write_min = limits.write_min;
    write_max = limits.write_max;
    reset_speed = limits.reset_speed;
    missing_temperature_speed_percent = limits.missing_speed;
    curve = curve;
  })

unfoldable pub config_parse_fans : Bytes → Option (List FanConfig)
config_parse_fans json = do
  p ← json_find_array json (codes "fans")
  fans ← parse_objects parse_fan 8192 max_fans p
  guard (ltb 0 (length fans))
  some fans
