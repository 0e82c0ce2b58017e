-- ===== src/Config/Parse.antt =====
-- config/parse.c: the fields of a section. A parser returns the field's value, or `none` where the
-- code returns false; what a failing parser leaves in the profile is not modelled, since every
-- caller then gives the whole profile up.
use acer_nitro_sense_linux.Config.Valid.{IsWithin}
use acer_nitro_sense_linux.Prelude.{
  >>=-eq-some, Bool, Bytes, Option, [], arith, guard, if◌then◌else◌, is_some, leb_ℤ, none, pos,
  some, text_has_value, ℕ, ℤ, ◌&&◌, ◌>>=◌, ◌>>◌, ◌≡◌, ◌≤ℤ◌,
}
use acer_nitro_sense_linux.Util.Json.{
  json_bool_key_checked, json_find_key, json_int_key_checked, json_string_key_checked,
}
use acer_nitro_sense_linux.Util.Number.{clamp_int, clamp_int_bounds}

abbrev pub config_key_present : Bytes → Bytes → Bool
config_key_present json key = is_some (json_find_key json key)

unfoldable pub config_int_value_valid : ℤ → ℤ → ℤ → Bool
config_int_value_valid value lo hi = leb_ℤ lo value && leb_ℤ value hi

unfoldable pub config_byte_value_valid : ℤ → Bool
unfolding config_int_value_valid
config_byte_value_valid value = config_int_value_valid value (pos 0) (pos 255)

unfoldable pub config_percent_value_valid : ℤ → Bool
unfolding config_int_value_valid
config_percent_value_valid value = config_int_value_valid value (pos 1) (pos 100)

unfoldable pub config_speed_value_valid : ℤ → Bool
unfolding config_int_value_valid
config_speed_value_valid value = config_int_value_valid value (pos 0) (pos 100)

unfoldable pub config_optional_int_key : Bytes → Bytes → ℤ → Option ℤ
config_optional_int_key json key value =
    if config_key_present json key then json_int_key_checked json key else some value

unfoldable pub config_optional_bool_key : Bytes → Bytes → Bool → Option Bool
config_optional_bool_key json key value =
    if config_key_present json key then json_bool_key_checked json key else some value

-- The text, if the reader reports success.
abbrev pub checked_text : Bool × Bytes → Option Bytes
checked_text (success, text) = if success then some text else none

unfoldable pub config_optional_string_key : Bytes → Bytes → Bytes → ℕ → Option Bytes
config_optional_string_key json key out out_len =
    if config_key_present json key
    then checked_text (json_string_key_checked json key out out_len)
    else some out

unfoldable pub config_optional_clamped_int_key : Bytes → Bytes → ℤ → ℤ → ℤ → Option ℤ
config_optional_clamped_int_key json key value lo hi = do
  v ← config_optional_int_key json key value
  some (clamp_int v lo hi)

unfoldable pub config_required_int_key : Bytes → Bytes → Option ℤ
config_required_int_key json key = json_int_key_checked json key

unfoldable pub config_required_string_key : Bytes → Bytes → ℕ → Option Bytes
config_required_string_key json key out_len = do
  text ← checked_text (json_string_key_checked json key [] out_len)
  guard (text_has_value text)
  some text

-- A clamped field lies in its range, whatever the profile says, if the range is not empty.
pub clamped_key_in :
    (json key : Bytes) (value lo hi : ℤ) {v : ℤ}
    → lo ≤ℤ hi
    → config_optional_clamped_int_key json key value lo hi ≡ some v
    → IsWithin lo hi v
unfolding config_optional_clamped_int_key
clamped_key_in json key value lo hi le h =
    let (u, _, e) = >>=-eq-some (config_optional_int_key json key value) _ h in
    ground (arith, clamp_int_bounds u lo hi)
