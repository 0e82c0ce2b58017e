-- ===== src/Machine.antt =====
-- What the control code reaches outside itself: the embedded controller, as ec/ec.h offers it, and
-- the sensors, as sensors/sensors.h does. The state of all that is the `World`, which each call
-- takes and returns. A read answers a byte or a negative number, a write 0 or a negative number.
use acer_nitro_sense_linux.Prelude.{Bytes, ℤ}

pub record Machine : Type 1 where
  pub World : Type 0
  pub ec_read_byte : ℤ → World → ℤ × World
  pub ec_write_byte : ℤ → ℤ → World → ℤ × World
  pub sensor_read_group_max_c : Bytes → World → ℤ × World
