-- ===== src/Platform/FanMode.antt =====
-- platform/fan_mode.c and platform/control.c: the firmware fan mode, and the control mode.
-- `apply_coolboost` reapplies fan speeds and stands in `Fan.Requests`.
use acer_nitro_sense_linux.Config.Types.{AnsConfig, FanModeConfig}
use acer_nitro_sense_linux.Machine.{Machine}
use acer_nitro_sense_linux.Prelude.{
  Bool, Bytes, Option, codes, eqb_ℤ, false, if◌then◌else◌, leb_ℤ, none, not, pos, some, str_eq,
  true, ℤ, ◌&&◌,
}

abbrev pub firmware_auto_preset : Bytes
firmware_auto_preset = codes "firmware-auto"

-- `strcmp(preset, …) == 0` for the preset names that the code knows. They are definitions of
-- their own so that a proof can leave the texts alone.
unfoldable pub is_firmware_auto : Bytes → Bool
unfolding str_eq
is_firmware_auto preset = str_eq preset firmware_auto_preset

unfoldable pub is_manual : Bytes → Bool
unfolding str_eq
is_manual preset = str_eq preset (codes "manual")

unfoldable pub firmware_auto_mode : Bool → Bytes → Bool
unfolding is_firmware_auto
firmware_auto_mode auto_mode preset = not auto_mode && is_firmware_auto preset

unfoldable pub control_mode : Bool → Bytes → Bytes
unfolding firmware_auto_mode is_manual
control_mode auto_mode preset =
    if auto_mode
    then codes "auto"
    else if firmware_auto_mode auto_mode preset
    then firmware_auto_preset
    else if is_manual preset
    then codes "manual"
    else codes "preset"

-- The modes that `fan_mode_values` knows.
pub data FanMode : Type 0 where
  auto manual turbo : FanMode

-- The mode that a text names, by the chain of `strcmp` in `fan_mode_values`.
unfoldable pub fan_mode_named : Bytes → Option FanMode
unfolding str_eq
fan_mode_named mode =
    if str_eq mode (codes "auto")
    then some auto
    else if str_eq mode (codes "manual")
    then some manual
    else if str_eq mode (codes "turbo")
    then some turbo
    else none

-- The values of a mode for the CPU and the GPU register.
unfoldable pub fan_mode_values : FanModeConfig → FanMode → ℤ × ℤ
fan_mode_values m auto = (m.cpu_auto_value, m.gpu_auto_value)
fan_mode_values m manual = (m.cpu_manual_value, m.gpu_manual_value)
fan_mode_values m turbo = (m.cpu_turbo_value, m.gpu_turbo_value)

unfoldable pub fan_mode_value_name : FanModeConfig → Bool → ℤ → Bytes
fan_mode_value_name m cpu value =
    if eqb_ℤ value (if cpu then m.cpu_auto_value else m.gpu_auto_value)
    then codes "auto"
    else if eqb_ℤ value (if cpu then m.cpu_manual_value else m.gpu_manual_value)
    then codes "manual"
    else if eqb_ℤ value (if cpu then m.cpu_turbo_value else m.gpu_turbo_value)
    then codes "turbo"
    else codes "unknown"

module _ (M : Machine) where
  open M use {World, ec_read_byte, ec_write_byte}

  -- `ec_write_byte(…) == 0 && ec_write_byte(…) == 0`: the second write waits on the first.
  unfoldable pub write_both : ℤ → ℤ → ℤ → ℤ → World → Bool × World
  write_both reg1 value1 reg2 value2 w =
      let (r1, w1) = ec_write_byte reg1 value1 w in
      let (r2, w2) = ec_write_byte reg2 value2 w1 in
      if eqb_ℤ r1 (pos 0) then (eqb_ℤ r2 (pos 0), w2) else (false, w1)

  -- `apply_fan_mode` with the mode that its text names, if it names one.
  unfoldable pub apply_fan_mode : AnsConfig → Option FanMode → World → Bool × World
  apply_fan_mode cfg none w = (false, w)
  apply_fan_mode cfg (some mode) w =
      let (cpu_value, gpu_value) = fan_mode_values cfg.fan_modes mode in
      if cfg.fan_modes.available
      then write_both cfg.fan_modes.cpu_reg cpu_value cfg.fan_modes.gpu_reg gpu_value w
      else (false, w)

  -- The result, `*cpu_value` and `*gpu_value`, which are written only if fan modes are available.
  unfoldable pub read_fan_mode : AnsConfig → World → Option (Bool × ℤ × ℤ) × World
  read_fan_mode cfg w =
      let (cpu_value, w1) = ec_read_byte cfg.fan_modes.cpu_reg w in
      let (gpu_value, w2) = ec_read_byte cfg.fan_modes.gpu_reg w1 in
      if cfg.fan_modes.available
      then (some (leb_ℤ (pos 0) cpu_value && leb_ℤ (pos 0) gpu_value, cpu_value, gpu_value), w2)
      else (none, w)

  unfoldable pub apply_daemon_control_fan_mode : AnsConfig → World → Bool × World
  apply_daemon_control_fan_mode cfg w =
      if cfg.fan_modes.available then apply_fan_mode cfg (some manual) w else (true, w)

  unfoldable pub apply_firmware_auto_fan_mode : AnsConfig → World → Bool × World
  apply_firmware_auto_fan_mode cfg w =
      if cfg.fan_modes.available then apply_fan_mode cfg (some auto) w else (false, w)
