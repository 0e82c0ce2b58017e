-- ===== src/Ec/Word.antt =====
-- The part of ec/ec.c that needs no backend: `ec_read_word`.
use acer_nitro_sense_linux.Machine.{Machine}
use acer_nitro_sense_linux.Prelude.{
  if◌then◌else◌, ltb_ℤ, minus_one, pos, pos_part, ℤ, ◌*◌, ◌+ℤ◌, ◌^◌,
}
use Prim.Native.Nat.{bit_or}

module _ (M : Machine) where
  open M use {World, ec_read_byte}

  -- `low | (high << 8)`, where neither is negative any more.
  unfoldable pub ec_read_word : ℤ → World → ℤ × World
  ec_read_word reg w =
      let (low, w1) = ec_read_byte reg w in
      let (high, w2) = ec_read_byte (reg +ℤ pos 1) w1 in
      if ltb_ℤ low (pos 0)
      then (minus_one, w1)
      else if ltb_ℤ high (pos 0)
      then (minus_one, w2)
      else (pos (bit_or (pos_part low) (pos_part high * 2 ^ 8)), w2)
