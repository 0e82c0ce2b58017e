-- ===== src/State/Buffer.antt =====
-- util/format.c: a bounded text, and numbers and strings in it.
use acer_nitro_sense_linux.Prelude.{
  Bool, Bytes, List, [], codes, false, if◌then◌else◌, leb, length, ltb, negsuc, not, pos, suc, take,
  true, zero, ℕ, ℤ, ◌%◌, ◌++◌, ◌+◌, ◌-◌, ◌/◌, ◌==◌, ◌∷◌,
}

-- `text_buffer`, with the text up to its NUL.
pub record TextBuffer : Type 0 where
  pub content : Bytes
  pub cap : ℕ
  pub truncated : Bool

unfoldable pub text_buffer_init : ℕ → TextBuffer
text_buffer_init size = record { content = []; cap = size; truncated = false }

-- The result of vsnprintf is `text`.
unfoldable pub text_buffer_append : TextBuffer → Bytes → Bool × TextBuffer
text_buffer_append buf text =
    if leb buf.cap (length buf.content)
    then (false, record buf { truncated = true })
    else if leb (buf.cap - length buf.content) (length text)
    then (
      false,
      record buf { content = take (buf.cap - 1) (buf.content ++ text); truncated = true },
    )
    else (true, record buf { content = buf.content ++ text })

unfoldable pub text_buffer_ok : TextBuffer → Bool
text_buffer_ok buf = not buf.truncated

-- The appends of a caller that does not look at their results.
unfoldable pub append_all : TextBuffer → List Bytes → TextBuffer
append_all buf [] = buf
append_all buf (text ∷ texts) = append_all (text_buffer_append buf text).1 texts

-- The digits of `%d` before `acc`; the fuel bounds their number.
unfoldable pub decimal_digits : ℕ → ℕ → Bytes → Bytes
decimal_digits zero n acc = acc
decimal_digits (suc fuel) n acc =
    let digit = b'0' + n % 10 in
    let more = decimal_digits fuel (n / 10) (digit ∷ acc) in
    if n / 10 == 0 then digit ∷ acc else more

unfoldable pub decimal : ℤ → Bytes
decimal (pos n) = decimal_digits (suc n) n []
decimal (negsuc n) = b'-' ∷ decimal_digits (suc (suc n)) (suc n) []

-- A digit of `%04x`.
abbrev hex_digit : ℕ → ℕ
hex_digit d = if ltb d 10 then b'0' + d else b'a' + (d - 10)

-- What `json_append_string` writes for one byte.
unfoldable pub json_escape : ℕ → Bytes
json_escape c =
    if c == b'"'
    then b'\\' ∷ b'"' ∷ []
    else if c == b'\\'
    then b'\\' ∷ b'\\' ∷ []
    else if c == 8
    then codes "\\b"
    else if c == 12
    then codes "\\f"
    else if c == 10
    then codes "\\n"
    else if c == 13
    then codes "\\r"
    else if c == 9
    then codes "\\t"
    else if ltb c 0x20
    then codes "\\u00" ++ (hex_digit (c / 16) ∷ hex_digit (c % 16) ∷ [])
    else c ∷ []

-- An append that fails ends the string.
unfoldable pub append_escaped : TextBuffer → Bytes → Bool × TextBuffer
append_escaped buf [] = text_buffer_append buf (b'"' ∷ [])
append_escaped buf (c ∷ s) =
    let (fits, buf1) = text_buffer_append buf (json_escape c) in
    let rest = append_escaped buf1 s in if not fits then (false, buf1) else rest

unfoldable pub json_append_string : TextBuffer → Bytes → Bool × TextBuffer
json_append_string buf value =
    let (fits, buf1) = text_buffer_append buf (b'"' ∷ []) in
    let rest = append_escaped buf1 value in if not fits then (false, buf1) else rest
