-- ===== src/Ec/Fake.antt =====
-- ec/fake.c: the embedded controller as an array of 256 bytes.
use acer_nitro_sense_linux.Ec.Types.{EcDevice, Os, ec_name_len, fake, fake_regs_len, to_byte}
use acer_nitro_sense_linux.Prelude.{
  Bool, Bytes, List, Option, codes, eqb_ℤ, false, get_elem?, if◌then◌else◌, leb_ℤ, ltb_ℤ, minus_one,
  negsuc, none, not, pos, set, some, str_eq, text_has_value, true, ℕ, ℤ, ◌%◌, ◌&&◌, ◌+ℤ◌, ◌/◌, ◌||◌,
}
use acer_nitro_sense_linux.Util.Number.{clamp_int}
use acer_nitro_sense_linux.Util.Strtol.{strtol}
use acer_nitro_sense_linux.Util.Text.{string_copy}

-- `set` of a number that may be negative; the callers have checked the range.
unfoldable pub store : List ℕ → ℤ → ℕ → List ℕ
store regs (pos reg) v = set regs reg v
store regs (negsuc n) v = regs

unfoldable pub fetch : List ℕ → ℤ → ℤ
fetch regs (pos reg) = elim (get_elem? regs reg) [ none ↦ minus_one | some v ↦ pos v ]
fetch regs (negsuc n) = minus_one

-- `reg < 0 || reg >= (int)sizeof(ec->fake_regs)`
unfoldable pub outside_fake_regs : ℤ → Bool
outside_fake_regs reg = ltb_ℤ reg (pos 0) || leb_ℤ (pos fake_regs_len) reg

-- The words that ec_open_fake sets are not negative, so `>> 8` is a division.
unfoldable pub fake_set_word : EcDevice → ℤ → ℕ → EcDevice
fake_set_word ec reg value =
    if ltb_ℤ reg (pos 0) || leb_ℤ (pos fake_regs_len) (reg +ℤ pos 1) then ec else record ec {
      fake_regs = store (store ec.fake_regs reg (value % 256)) (reg +ℤ pos 1) (value / 256 % 256);
    }

unfoldable pub ec_open_fake : EcDevice → EcDevice
ec_open_fake ec =
    let opened = record ec {
      fd = minus_one;
      backend = fake;
      name = (string_copy ec.name ec_name_len (some (codes "fake"))).1;
    } in
    fake_set_word (fake_set_word opened (pos 0x13) 3000) (pos 0x15) 2600

unfoldable pub ec_fake_read_byte : EcDevice → ℤ → ℤ
ec_fake_read_byte ec reg = if outside_fake_regs reg then minus_one else fetch ec.fake_regs reg

-- The register whose writes fail, by the environment.
unfoldable pub fake_ec_write_should_fail : Option Bytes → ℤ → Bool
fake_ec_write_should_fail none reg = false
fake_ec_write_should_fail (some fail_reg) reg =
    let parsed = strtol fail_reg 0 in
    if not (text_has_value fail_reg)
    then false
    else if str_eq fail_reg (codes "all")
    then true
    else parsed.found && not (text_has_value parsed.rest) && eqb_ℤ parsed.value reg

module _ (O : Os) where
  abbrev pub write_fails : ℤ → Bool
  write_fails reg = fake_ec_write_should_fail (O.getenv (codes "ANS_FAKE_EC_WRITE_FAIL_REG")) reg

  unfoldable pub ec_fake_write_byte : EcDevice → ℤ → ℤ → ℤ × EcDevice
  ec_fake_write_byte ec reg value =
      let stored = store ec.fake_regs reg (to_byte (clamp_int value (pos 0) (pos 255))) in
      if outside_fake_regs reg
      then (minus_one, ec)
      else if write_fails reg
      then (minus_one, ec)
      else (pos 0, record ec { fake_regs = stored })
