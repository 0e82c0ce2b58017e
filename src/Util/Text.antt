-- ===== src/Util/Text.antt =====
-- util/string.c: bounded copies, trimming and the case-insensitive search.
use acer_nitro_sense_linux.Prelude.{
  Bool, Bytes, Option, [], ap, arith, false, if_cases, if◌then◌else◌, leb, length, length-take,
  none, refl, some, take, true, ℕ, ◌&&◌, ◌+◌, ◌-◌, ◌<◌, ◌==◌, ◌||◌, ◌↔◌, ◌∷◌, ◌≡◌,
}

-- The white space of `trim_ascii`, `command_skip_space` and `skip_json_space`.
abbrev pub is_space : ℕ → Bool
is_space c = c == b' ' || c == b'\t' || c == b'\n' || c == b'\r'

-- `tolower` of the C locale.
abbrev tolower : ℕ → ℕ
tolower c = if leb b'A' c && leb c b'Z' then c + 32 else c

-- The inner loop of `string_contains_case`: the needle stands at the front.
unfoldable pub starts_with_case : Bytes → Bytes → Bool
starts_with_case h [] = true
starts_with_case [] (n ∷ needle) = false
starts_with_case (c ∷ h) (n ∷ needle) = tolower c == tolower n && starts_with_case h needle

unfoldable pub contains_case_at : Bytes → Bytes → Bool
unfolding starts_with_case
contains_case_at [] needle = false
contains_case_at (c ∷ h) needle = starts_with_case (c ∷ h) needle || contains_case_at h needle

unfoldable pub string_contains_case : Bytes → Bytes → Bool
unfolding contains_case_at
string_contains_case haystack [] = true
string_contains_case haystack (n ∷ needle) = contains_case_at haystack (n ∷ needle)

-- The result, and the text that `out` holds afterwards; `none` is a null pointer.
unfoldable pub string_copy : Bytes → ℕ → Option Bytes → Bool × Bytes
string_copy out out_len none = if out_len == 0 then (false, out) else (true, [])
string_copy out out_len (some text) =
    if out_len == 0
    then (false, out)
    else if leb out_len (length text)
    then (false, take (out_len - 1) text)
    else (true, text)

-- The span is the list of its bytes.
unfoldable pub string_copy_span : Bytes → ℕ → Option Bytes → Bool × Bytes
string_copy_span out out_len none = if out_len == 0 then (false, out) else (true, [])
string_copy_span out out_len (some span) =
    if out_len == 0
    then (false, out)
    else if leb out_len (length span)
    then (false, take (out_len - 1) span)
    else (true, span)

unfoldable pub skip_space : Bytes → Bytes
skip_space [] = []
skip_space (c ∷ s) = let rest = skip_space s in if is_space c then rest else c ∷ s

-- The second loop of `trim_ascii`: white space at the end is cut.
abbrev keep_char : ℕ → Bytes → Bytes
keep_char c [] = if is_space c then [] else c ∷ []
keep_char c (d ∷ s) = c ∷ d ∷ s

-- The second loop of `trim_ascii`: white space at the end is cut.
unfoldable pub trim_end : Bytes → Bytes
trim_end [] = []
trim_end (c ∷ s) = keep_char c (trim_end s)

unfoldable pub trim_ascii : Bytes → Bytes
unfolding skip_space trim_end
trim_ascii s = trim_end (skip_space s)

-- A copy succeeds exactly when the text and its NUL fit; it is then the text, and else its front.
pub string_copy-fits :
    (out : Bytes) (out_len : ℕ) (text : Bytes)
    → length text < out_len
    → string_copy out out_len (some text) ≡ (true, text)
unfolding string_copy
string_copy-fits out out_len text h = ground arith

-- Into a buffer that is not empty, `string_copy` leaves a text shorter than the buffer, and
-- reports success exactly if that is the whole text.
pub string_copy_lem :
    (out : Bytes) (out_len : ℕ) (text : Bytes)
    → 0 < out_len
    → let (fits, copied) = string_copy out out_len (some text) in
      (length copied < out_len) × ((fits ≡ true) ↔ (copied ≡ text))
unfolding string_copy
string_copy_lem out out_len text h =
    if_cases IsCopy (out_len == 0) (λ e. absurd (ground arith))
      λ _.
        if_cases IsCopy (leb out_len (length text))
          (λ big. (
            ground (arith, length-take (out_len - 1) text),
            ((λ e. cc), λ e. absurd (ground (arith, ap length e, length-take (out_len - 1) text))),
          ))
          (λ small. (ground arith, ((λ _. refl), λ _. refl)))
  where
    IsCopy : Bool × Bytes → Type 0
    IsCopy (fits, copied) = (length copied < out_len) × ((fits ≡ true) ↔ (copied ≡ text))
