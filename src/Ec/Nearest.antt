-- ===== src/Ec/Nearest.antt =====
-- The byte that ec/file.c and ec/io_ports.c write for a value.
use acer_nitro_sense_linux.Ec.Types.{to_byte}
use acer_nitro_sense_linux.Prelude.{arith, pos, pos_part, ℤ, ◌≡◌}
use acer_nitro_sense_linux.Util.Number.{clamp_int}

pub clamped_byte :
    (value : ℤ)
    → to_byte (clamp_int value (pos 0) (pos 255)) ≡ pos_part (clamp_int value (pos 0) (pos 255))
unfolding to_byte clamp_int
clamped_byte value = ground arith
