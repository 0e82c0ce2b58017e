-- ===== src/Util/Strtol.antt =====
-- `strtol` of the C library, on a 64-bit `long`, and `parse_int_range` of util/number.c.
use acer_nitro_sense_linux.Config.Valid.{IsWithin}
use acer_nitro_sense_linux.Prelude.{
  Bool, Bytes, Option, [], arith, false, if◌then◌else◌, leb, ltb, ltb_ℤ, negsuc, none, not, pos,
  some, sub_ℕ, text_has_value, true, ℕ, ℤ, ◌&&◌, ◌*◌, ◌+◌, ◌-◌, ◌==◌, ◌^◌, ◌||◌, ◌∷◌, ◌≡◌,
}

-- `isspace` of the C locale, which `strtol` skips.
abbrev pub is_c_space : ℕ → Bool
is_c_space c = c == b' ' || (leb 9 c && leb c 13)

unfoldable pub skip_c_space : Bytes → Bytes
skip_c_space [] = []
skip_c_space (c ∷ s) = let rest = skip_c_space s in if is_c_space c then rest else c ∷ s

-- The value of a digit in bases up to 16; 16 where there is none.
unfoldable pub digit_value : ℕ → ℕ
digit_value c =
    if leb b'0' c && leb c b'9'
    then c - b'0'
    else if leb b'a' c && leb c b'f'
    then c - b'a' + 10
    else if leb b'A' c && leb c b'F'
    then c - b'A' + 10
    else 16

-- The digits at the front: the value so far, and what follows them.
unfoldable pub read_digits : ℕ → ℕ → Bytes → ℕ × Bytes
unfolding digit_value
read_digits base acc [] = (acc, [])
read_digits base acc (c ∷ s) =
    let rest = read_digits base (acc * base + digit_value c) s in
    if ltb (digit_value c) base then rest else (acc, c ∷ s)

abbrev starts_with_digit : ℕ → Bytes → Bool
starts_with_digit base [] = false
starts_with_digit base (c ∷ s) = ltb (digit_value c) base

-- The base and the text after its prefix: "0x" counts only before a hexadecimal digit.
unfoldable pub strip_prefix : ℕ → Bytes → ℕ × Bytes
unfolding digit_value
strip_prefix base (z ∷ x ∷ s) =
    if (base == 0 || base == 16) && z == b'0' && (x == b'x' || x == b'X') && starts_with_digit 16 s
    then (16, s)
    else if base == 0
    then (if z == b'0' then (8, z ∷ x ∷ s) else (10, z ∷ x ∷ s))
    else (base, z ∷ x ∷ s)
strip_prefix base (z ∷ []) = (if base == 0 then (if z == b'0' then 8 else 10) else base, z ∷ [])
strip_prefix base [] = (if base == 0 then 10 else base, [])

-- The value, the text at `*end`, whether a number was found (`end != text`), and whether it fits
-- (`errno == 0`).
pub record Parsed : Type 0 where
  pub value : ℤ
  pub rest : Bytes
  pub found : Bool
  pub fits : Bool

abbrev pub long_max : ℕ
long_max = 2 ^ 63 - 1

abbrev signed_value : Bool → ℕ → Bytes → Parsed
signed_value false n rest = record {
  value = if leb n long_max then pos n else pos long_max;
  rest = rest;
  found = true;
  fits = leb n long_max;
}
signed_value true n rest = record {
  value = if leb n (long_max + 1) then sub_ℕ 0 n else negsuc long_max;
  rest = rest;
  found = true;
  fits = leb n (long_max + 1);
}

abbrev split_sign : Bytes → Bool × Bytes
split_sign [] = (false, [])
split_sign (c ∷ s) =
    if c == b'-' then (true, s) else if c == b'+' then (false, s) else (false, c ∷ s)

unfoldable pub strtol : Bytes → ℕ → Parsed
unfolding skip_c_space strip_prefix read_digits
strtol text base =
    let (negative, s) = split_sign (skip_c_space text) in
    let (b, digits) = strip_prefix base s in
    let (n, rest) = read_digits b 0 digits in
    if starts_with_digit b digits
    then signed_value negative n rest
    else record { value = pos 0; rest = text; found = false; fits = true }

-- The value that `*value` gets, if the function returns true.
unfoldable pub parse_int_range : Bytes → ℤ → ℤ → ℕ → Option ℤ
parse_int_range text min_value max_value base =
    let p = strtol text base in
    if not p.fits
      || not p.found
      || text_has_value p.rest
      || ltb_ℤ p.value min_value
      || ltb_ℤ max_value p.value
    then none
    else some p.value

-- Whatever is accepted lies in the range that the caller asked for.
pub parse_int_range_in :
    (text : Bytes) (lo hi : ℤ) (base : ℕ) {v : ℤ}
    → parse_int_range text lo hi base ≡ some v
    → IsWithin lo hi v
unfolding parse_int_range
parse_int_range_in text lo hi base h = ground arith
