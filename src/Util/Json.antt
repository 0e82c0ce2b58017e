-- ===== src/Util/Json.antt =====
-- util/json.c and util/json_scan.c: the key scanner of the model profiles and of the saved state.
-- A pointer into the JSON text is the text from there on; a pair of pointers is the bytes between.
pub mod Scan
use acer_nitro_sense_linux.Prelude.{
  Bool, Bytes, Option, [], codes, false, guard, if◌then◌else◌, is_some, leb, length, ltb, ltb_ℤ,
  negsuc, none, not, pos, some, take, text_has_value, true, ℕ, ℤ, ◌&&◌, ◌++◌, ◌-◌, ◌==◌, ◌>>=◌,
  ◌>>◌, ◌^◌, ◌||◌, ◌∷◌,
}
use acer_nitro_sense_linux.Util.Strtol.{strtol}
use acer_nitro_sense_linux.Util.Text.{skip_space}

-- `strncmp(s, prefix, len) == 0`: what follows the prefix, if it is there.
unfoldable pub after_prefix : Bytes → Bytes → Option Bytes
after_prefix [] s = some s
after_prefix (c ∷ prefix) [] = none
after_prefix (c ∷ prefix) (d ∷ s) =
    let rest = after_prefix prefix s in if c == d then rest else none

-- `strstr`: the text from the first occurrence on.
unfoldable pub strstr : Bytes → Bytes → Option Bytes
unfolding after_prefix
strstr [] needle = if text_has_value needle then none else some []
strstr (c ∷ s) needle =
    let later = strstr s needle in
    if is_some (after_prefix needle (c ∷ s)) then some (c ∷ s) else later

-- `strchr` with the byte taken off: the bytes before it and the text after it.
unfoldable pub split_at : ℕ → Bytes → Option (Bytes × Bytes)
split_at b [] = none
split_at b (c ∷ s) =
    let rest = split_at b s in
    if c == b
    then some ([], s)
    else elim rest [ none ↦ none | some (before, after) ↦ some (c ∷ before, after) ]

-- `snprintf(needle, sizeof(needle), "\"%s\"", key)` cuts the needle to its buffer of 96 bytes.
unfoldable pub json_find_key : Bytes → Bytes → Option Bytes
unfolding strstr
json_find_key json key = strstr json (take 95 (b'"' ∷ (key ++ b'"' ∷ [])))

unfoldable pub json_after_colon : Bytes → Option Bytes
unfolding split_at skip_space
json_after_colon p = elim (split_at b':' p) [
  | none ↦ none
  | some (before, after) ↦ some (skip_space after)
]

-- `json_value_ended`: the end of the text, a comma or a closing bracket comes next.
abbrev ends_value : Bytes → Bool
ends_value [] = true
ends_value (c ∷ s) = c == b',' || c == b'}' || c == b']'

unfoldable pub json_value_ended : Bytes → Bool
unfolding skip_space
json_value_ended p = ends_value (skip_space p)

abbrev is_digit : ℕ → Bool
is_digit c = leb b'0' c && leb c b'9'

-- A digit first, and no digit after a leading zero.
abbrev digits_valid : Bytes → Bool
digits_valid [] = false
digits_valid (c ∷ []) = is_digit c
digits_valid (c ∷ d ∷ s) = is_digit c && not (c == b'0' && is_digit d)

abbrev skip_minus : Bytes → Bytes
skip_minus [] = []
skip_minus (c ∷ s) = if c == b'-' then s else c ∷ s

abbrev pub int_min : ℤ
int_min = negsuc (2 ^ 31 - 1)

abbrev pub int_max : ℤ
int_max = pos (2 ^ 31 - 1)

-- The checks of `json_int_key_checked` on the text of a value.
unfoldable pub json_int : Bytes → Option ℤ
unfolding strtol json_value_ended
json_int p =
    let n = strtol p 10 in
    if not (digits_valid (skip_minus p))
    then none
    else if not n.fits
        || not n.found
        || ltb_ℤ n.value int_min
        || ltb_ℤ int_max n.value
        || not (json_value_ended n.rest)
    then none
    else some n.value

unfoldable pub json_int_key_checked : Bytes → Bytes → Option ℤ
unfolding json_find_key json_after_colon json_int
json_int_key_checked json key = do
  at_key ← json_find_key json key
  p ← json_after_colon at_key
  json_int p

abbrev pub or_else {ℓ} : {A : Type ℓ} → Option A → A → A
or_else none d = d
or_else (some a) d = a

unfoldable pub json_int_key : Bytes → Bytes → ℤ → ℤ
unfolding json_int_key_checked
json_int_key json key fallback = or_else (json_int_key_checked json key) fallback

-- A literal that the value starts with, and that ends it.
abbrev is_literal : Bytes → Option Bytes → Bool
is_literal p none = false
is_literal p (some rest) = json_value_ended rest

unfoldable pub json_bool : Bytes → Option Bool
unfolding after_prefix json_value_ended
json_bool p =
    if is_literal p (after_prefix (codes "true") p)
    then some true
    else if is_literal p (after_prefix (codes "false") p)
    then some false
    else none

unfoldable pub json_bool_key_checked : Bytes → Bytes → Option Bool
unfolding json_find_key json_after_colon json_bool
json_bool_key_checked json key = do
  at_key ← json_find_key json key
  p ← json_after_colon at_key
  json_bool p

unfoldable pub json_bool_key : Bytes → Bytes → Bool → Bool
unfolding json_bool_key_checked
json_bool_key json key fallback = or_else (json_bool_key_checked json key) fallback

-- The bytes that the string reader takes as they are.
unfoldable pub plain_bytes : Bytes → Bool
plain_bytes [] = true
plain_bytes (c ∷ s) = not (c == b'\\' || ltb c 0x20) && plain_bytes s

abbrev after_quote : Bytes → Option Bytes
after_quote [] = none
after_quote (c ∷ s) = if c == b'"' then some s else none

-- The text of a string value, before it is cut to the caller's buffer.
unfoldable pub json_string : Bytes → Option Bytes
unfolding split_at plain_bytes json_value_ended
json_string p = do
  body ← after_quote p
  (text, rest) ← split_at b'"' body
  guard (plain_bytes text)
  guard (json_value_ended rest)
  some text

unfoldable pub json_string_at : Bytes → Bytes → Option Bytes
unfolding json_find_key json_after_colon json_string
json_string_at json key = do
  at_key ← json_find_key json key
  p ← json_after_colon at_key
  json_string p

-- `json_string_key_checked`: the result, and the text that `out` holds afterwards. A text that is
-- too long is cut, and reported as a failure.
unfoldable pub json_string_key_checked : Bytes → Bytes → Bytes → ℕ → Bool × Bytes
unfolding json_string_at
json_string_key_checked json key out out_len = elim (json_string_at json key) [
  | none ↦ (false, out)
  | some text ↦
      if out_len == 0
      then (false, out)
      else if leb out_len (length text)
      then (false, take (out_len - 1) text)
      else (true, text)
]

unfoldable pub json_string_key : Bytes → Bytes → Bytes → ℕ → Bytes
unfolding json_string_key_checked
json_string_key json key out out_len = (json_string_key_checked json key out out_len).1
