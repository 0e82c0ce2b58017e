-- ===== src/Config/Sections.antt =====
-- config/sections.c: the firmware fan modes.
use acer_nitro_sense_linux.Config.Parse.{
  config_byte_value_valid, config_optional_int_key, config_required_int_key,
}
use acer_nitro_sense_linux.Config.Types.{FanModeConfig}
use acer_nitro_sense_linux.Prelude.{
  Bool, Bytes, Option, codes, false, guard, none, pos, some, true, ℤ, ◌&&◌, ◌>>=◌, ◌>>◌,
}
use acer_nitro_sense_linux.Util.Json.{json_find_key}

unfoldable pub parse_fan_mode_registers : Bytes → Option (ℤ × ℤ)
parse_fan_mode_registers json = do
  cpu_reg ← config_required_int_key json (codes "cpu_register")
  gpu_reg ← config_required_int_key json (codes "gpu_register")
  guard (config_byte_value_valid cpu_reg && config_byte_value_valid gpu_reg)
  some (cpu_reg, gpu_reg)

-- The profile without the section.
abbrev pub no_fan_modes : FanModeConfig
no_fan_modes = record {
  available = false;
  cpu_reg = pos 0;
  gpu_reg = pos 0;
  cpu_auto_value = pos 0;
  cpu_manual_value = pos 0;
  cpu_turbo_value = pos 0;
  gpu_auto_value = pos 0;
  gpu_manual_value = pos 0;
  gpu_turbo_value = pos 0;
}

unfoldable pub set_default_fan_mode_values : ℤ → ℤ → FanModeConfig
set_default_fan_mode_values cpu_reg gpu_reg = record {
  available = true;
  cpu_reg = cpu_reg;
  gpu_reg = gpu_reg;
  cpu_auto_value = pos 4;
  cpu_manual_value = pos 12;
  cpu_turbo_value = pos 8;
  gpu_auto_value = pos 16;
  gpu_manual_value = pos 48;
  gpu_turbo_value = pos 32;
}

unfoldable pub parse_fan_mode_values : Bytes → FanModeConfig → Option FanModeConfig
parse_fan_mode_values json m = do
  cpu_auto ← config_optional_int_key json (codes "cpu_auto_value") m.cpu_auto_value
  cpu_manual ← config_optional_int_key json (codes "cpu_manual_value") m.cpu_manual_value
  cpu_turbo ← config_optional_int_key json (codes "cpu_turbo_value") m.cpu_turbo_value
  gpu_auto ← config_optional_int_key json (codes "gpu_auto_value") m.gpu_auto_value
  gpu_manual ← config_optional_int_key json (codes "gpu_manual_value") m.gpu_manual_value
  gpu_turbo ← config_optional_int_key json (codes "gpu_turbo_value") m.gpu_turbo_value
  some (record m {
    cpu_auto_value = cpu_auto;
    cpu_manual_value = cpu_manual;
    cpu_turbo_value = cpu_turbo;
    gpu_auto_value = gpu_auto;
    gpu_manual_value = gpu_manual;
    gpu_turbo_value = gpu_turbo;
  })

unfoldable pub fan_mode_values_valid : FanModeConfig → Bool
fan_mode_values_valid m =
    config_byte_value_valid m.cpu_auto_value
    && config_byte_value_valid m.cpu_manual_value
    && config_byte_value_valid m.cpu_turbo_value
    && config_byte_value_valid m.gpu_auto_value
    && config_byte_value_valid m.gpu_manual_value
    && config_byte_value_valid m.gpu_turbo_value

unfoldable pub config_parse_fan_modes : Bytes → Option FanModeConfig
config_parse_fan_modes json = elim (json_find_key json (codes "fan_modes")) [
  | none ↦ some no_fan_modes
  | some section ↦ do
    (cpu_reg, gpu_reg) ← parse_fan_mode_registers section
    m ← parse_fan_mode_values section (set_default_fan_mode_values cpu_reg gpu_reg)
    guard (fan_mode_values_valid m)
    some m
]
