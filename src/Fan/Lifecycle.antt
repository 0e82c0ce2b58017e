-- ===== src/Fan/Lifecycle.antt =====
-- fan/lifecycle.c: the EC writes at start and at the end of the daemon.
use acer_nitro_sense_linux.Config.Types.{AnsConfig, EcWriteConfig, FanConfig}
use acer_nitro_sense_linux.Fan.Safety.{fan_write_percent_raw}
use acer_nitro_sense_linux.Machine.{Machine}
use acer_nitro_sense_linux.Prelude.{List, [], ◌∷◌}

module _ (M : Machine) where
  open M use {World, ec_write_byte}

  unfoldable pub init_writes_from : List EcWriteConfig → World → World
  init_writes_from [] w = w
  init_writes_from (x ∷ xs) w = init_writes_from xs (ec_write_byte x.reg x.value w).1

  unfoldable pub apply_init_writes : AnsConfig → World → World
  unfolding init_writes_from
  apply_init_writes cfg w = init_writes_from cfg.init_writes w

  -- The two loops run from the last entry to the first.
  unfoldable pub reset_fans_from : List FanConfig → World → World
  reset_fans_from [] w = w
  reset_fans_from (fan ∷ fans) w =
      (fan_write_percent_raw M fan fan.reset_speed (reset_fans_from fans w)).1

  unfoldable pub reset_writes_from : List EcWriteConfig → World → World
  reset_writes_from [] w = w
  reset_writes_from (x ∷ xs) w = (ec_write_byte x.reg x.reset_value (reset_writes_from xs w)).1

  unfoldable pub apply_reset_writes : AnsConfig → World → World
  unfolding reset_fans_from reset_writes_from
  apply_reset_writes cfg w = reset_writes_from cfg.init_writes (reset_fans_from cfg.fans w)
