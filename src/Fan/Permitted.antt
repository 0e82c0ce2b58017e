-- ===== src/Fan/Permitted.antt =====
-- What the daemon may write to the EC to control the fans, and its single writes.
pub mod Rounds
pub mod Requests
pub mod Commands
use acer_nitro_sense_linux.Config.Types.{AnsConfig, FanConfig}
use acer_nitro_sense_linux.Config.Valid.{IsValidFan, IsWithin}
use acer_nitro_sense_linux.Fan.Policy.{fan_safety_adjust_percent}
use acer_nitro_sense_linux.Fan.Safety.{fan_write_percent_raw, set_fan_percent}
use acer_nitro_sense_linux.Fan.State.{FanState, Reason}
use acer_nitro_sense_linux.Machine.{Machine}
use acer_nitro_sense_linux.Platform.FanMode.{
  FanMode, apply_daemon_control_fan_mode, apply_fan_mode, apply_firmware_auto_fan_mode, auto,
  fan_mode_values, manual, write_both,
}
use acer_nitro_sense_linux.Prelude.{
  All, Bool, Bytes, List, Option, [], arith, if_cases, if_elim, none, refl, some, true, ℤ, ◌∷◌, ◌≡◌,
}
use acer_nitro_sense_linux.Util.Number.{clamp_int_bounds}
use mathlib.Core.List.{Memᴰ}

-- A pair of a register and a value that the profile provides for.
pub data Permitted (cfg : AnsConfig) : ℤ → ℤ → Type 0 where
  fan_speed :
      {fan : FanConfig} {value : ℤ}
      → Memᴰ fan cfg.fans
      → IsWithin fan.write_min fan.write_max value
      → Permitted cfg fan.write_register value
  cpu_mode :
      (mode : FanMode)
      → cfg.fan_modes.available ≡ true
      → Permitted cfg cfg.fan_modes.cpu_reg (fan_mode_values cfg.fan_modes mode).0
  gpu_mode :
      (mode : FanMode)
      → cfg.fan_modes.available ≡ true
      → Permitted cfg cfg.fan_modes.gpu_reg (fan_mode_values cfg.fan_modes mode).1

shift_members :
    {A : Type 0} (xs : List A) (ys : List A) (y : A)
    → All (λ x. Memᴰ x ys) xs
    → All (λ x. Memᴰ x (y ∷ ys)) xs
shift_members [] ys y h = tt
shift_members (x ∷ xs) ys y (h, hs) = (Memᴰ.tail h, shift_members xs ys y hs)

pub own_members : {A : Type 0} (xs : List A) → All (λ x. Memᴰ x xs) xs
own_members [] = tt
own_members (x ∷ xs) = (Memᴰ.head refl, shift_members xs xs x (own_members xs))

-- A property of the world that reading keeps, and so does every permitted write.
pub record IsKept (M : Machine) (cfg : AnsConfig) (P : M.World → Type 0) : Type 0 where
  pub read_keeps : (reg : ℤ) (w : M.World) → P w → P (M.ec_read_byte reg w).1
  pub sensor_keeps : (group : Bytes) (w : M.World) → P w → P (M.sensor_read_group_max_c group w).1
  pub write_keeps :
      (reg value : ℤ) (w : M.World)
      → Permitted cfg reg value
      → P w
      → P (M.ec_write_byte reg value w).1

module _ (M : Machine) (cfg : AnsConfig) (P : M.World → Type 0) (k : IsKept M cfg P) where
  open M use {World}

  -- The world that a Boolean or a number comes with.
  abbrev pub BoolKept : Bool × World → Type 0
  BoolKept r = P r.1

  abbrev pub IntKept : ℤ × World → Type 0
  IntKept r = P r.1

  set-world :
      (fan : FanConfig) (s : FanState) (p : ℤ) (forced : Reason) (w : World)
      → (set_fan_percent M cfg fan s p forced w).2
        ≡ (fan_write_percent_raw M fan (fan_safety_adjust_percent cfg fan s p forced).percent w).1
  unfolding set_fan_percent
  set-world fan s p forced w = ground arith

  write_raw_keeps :
      (fan : FanConfig) (p : ℤ) (w : World)
      → IsValidFan fan
      → Memᴰ fan cfg.fans
      → P w
      → P (fan_write_percent_raw M fan p w).1
  unfolding fan_write_percent_raw
  write_raw_keeps fan p w v m h =
      k.write_keeps _ _ w
        (fan_speed m (clamp_int_bounds p fan.write_min fan.write_max (omega (arith, v)))) h

  pub set_keeps :
      (fan : FanConfig) (s : FanState) (p : ℤ) (forced : Reason) (w : World)
      → IsValidFan fan
      → Memᴰ fan cfg.fans
      → P w
      → P (set_fan_percent M cfg fan s p forced w).2
  set_keeps fan s p forced w v m h = rw (set-world fan s p forced w) (write_raw_keeps fan _ w v m h)

  both_keep :
      (mode : FanMode) (w : World)
      → cfg.fan_modes.available ≡ true
      → P w
      → let (cpu_value, gpu_value) = fan_mode_values cfg.fan_modes mode in
        P (write_both M cfg.fan_modes.cpu_reg cpu_value cfg.fan_modes.gpu_reg gpu_value w).1
  unfolding write_both
  both_keep mode w a h =
      let (cpu_value, gpu_value) = fan_mode_values cfg.fan_modes mode in
      let w1 = (M.ec_write_byte cfg.fan_modes.cpu_reg cpu_value w).1 in
      let first = k.write_keeps _ _ w (cpu_mode mode a) h in
      if_elim BoolKept _ (k.write_keeps _ _ w1 (gpu_mode mode a) first) first

  pub mode_keeps : (mode : Option FanMode) (w : World) → P w → P (apply_fan_mode M cfg mode w).1
  unfolding apply_fan_mode
  mode_keeps none w h = h
  mode_keeps (some mode) w h =
      if_cases BoolKept cfg.fan_modes.available (λ a. both_keep mode w a h) (λ _. h)

  pub daemon_mode_keeps : (w : World) → P w → P (apply_daemon_control_fan_mode M cfg w).1
  unfolding apply_daemon_control_fan_mode
  daemon_mode_keeps w h = if_elim BoolKept cfg.fan_modes.available (mode_keeps (some manual) w h) h

  pub firmware_mode_keeps : (w : World) → P w → P (apply_firmware_auto_fan_mode M cfg w).1
  unfolding apply_firmware_auto_fan_mode
  firmware_mode_keeps w h = if_elim BoolKept cfg.fan_modes.available (mode_keeps (some auto) w h) h
