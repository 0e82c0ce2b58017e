-- ===== src/Command/Tokens/Grammar.antt =====
-- The grammar of the command lines of src/commands/parser/tokens.c: words between white space.
use acer_nitro_sense_linux.Command.Tokens.{
  command_has_only_trailing_space, command_read_token, word,
}
use acer_nitro_sense_linux.Prelude.{
  All, Bool-cases, Bytes, List, [], ap, arith, false, if_cases, inl, inr, length, refl, some, true,
  ℕ, ◌++◌, ◌<◌, ◌↔◌, ◌∙◌, ◌∷◌, ◌≡◌, ◌≢◌,
}
use acer_nitro_sense_linux.Util.Text.{is_space, skip_space}

abbrev pub Spaces : Bytes → Type 0
Spaces s = All (λ c. is_space c ≡ true) s

abbrev pub IsWord : Bytes → Type 0
IsWord w = (w ≢ []) × All (λ c. is_space c ≡ false) w

-- Where a word may end: at white space, or at the end of the text.
abbrev pub EndsWord : Bytes → Type 0
EndsWord [] = Unit
EndsWord (c ∷ s) = is_space c ≡ true

-- `cur` is some white space, the word `w`, and `rest`.
pub record Token (cur w rest : Bytes) : Type 0 where
  pub gap : Bytes
  pub spaces : Spaces gap
  pub is_word : IsWord w
  pub stop : EndsWord rest
  pub split : cur ≡ gap ++ (w ++ rest)

-- A line of exactly these words.
abbrev pub Line : Bytes → List Bytes → Type 0
Line cur [] = Spaces cur
Line cur (w ∷ words) = (rest : Bytes) × Token cur w rest × Line rest words

skip_space-append : (gap s : Bytes) → Spaces gap → skip_space (gap ++ s) ≡ skip_space s
unfolding skip_space
skip_space-append [] s h = refl
skip_space-append (c ∷ gap) s (h, hs) = rw h (skip_space-append gap s hs)

word-append :
    (w rest : Bytes)
    → All (λ c. is_space c ≡ false) w
    → EndsWord rest
    → word (w ++ rest) ≡ (w, rest)
unfolding word
word-append [] [] h e = refl
word-append [] (c ∷ rest) h e = rw e
word-append (c ∷ w) rest (h, hs) e = rw (h, word-append w rest hs e)

-- What `skip_space` takes off, and what it leaves.
skip_space-split : (s : Bytes) → (gap : Bytes) × Spaces gap × (s ≡ gap ++ skip_space s)
unfolding skip_space
skip_space-split [] = ([], tt, refl)
skip_space-split (c ∷ s) = elim (Bool-cases (is_space c)) [
  | inl e ↦ let (gap, h, same) = skip_space-split s in (c ∷ gap, (e, h), rw e (ap (◌∷◌ c) same))
  | inr e ↦ ([], tt, rw e refl)
]

abbrev StartsWord : Bytes → Type 0
StartsWord [] = Unit
StartsWord (c ∷ s) = is_space c ≡ false

skip_space-StartsWord : (s : Bytes) → StartsWord (skip_space s)
unfolding skip_space
skip_space-StartsWord [] = tt
skip_space-StartsWord (c ∷ s) =
    if_cases StartsWord (is_space c) (λ _. skip_space-StartsWord s) (λ e. e)

word-split :
    (s : Bytes)
    → (s ≡ (word s).0 ++ (word s).1)
      × All (λ c. is_space c ≡ false) (word s).0
      × EndsWord (word s).1
unfolding word
word-split [] = (refl, tt, tt)
word-split (c ∷ s) = elim (Bool-cases (is_space c)) [
  | inl e ↦ rw e (refl, tt, e)
  | inr e ↦ let (same, h, stop) = word-split s in rw e (ap (◌∷◌ c) same, (e, h), stop)
]

skip_space-Token : {cur w rest : Bytes} → Token cur w rest → skip_space cur ≡ w ++ rest
unfolding skip_space
skip_space-Token {w = []} t = absurd (t.is_word.0 refl)
skip_space-Token {w = c ∷ w} {rest} t =
    rw t.split (skip_space-append t.gap (c ∷ (w ++ rest)) t.spaces ∙ rw t.is_word.1.0)

fitting_word_reads :
    (cur : Bytes) (len : ℕ) (w rest : Bytes)
    → Token cur w rest
    → length w < len
    → command_read_token cur len ≡ some (w, rest)
unfolding command_read_token
fitting_word_reads cur len [] rest t fits = absurd (t.is_word.0 refl)
fitting_word_reads cur len (c ∷ w) rest t fits =
    rw (skip_space-Token t, word-append (c ∷ w) rest t.is_word.1 t.stop) (ground arith)

read_token_parts :
    (cur : Bytes) (len : ℕ) (w rest : Bytes)
    → command_read_token cur len ≡ some (w, rest)
    → ((word (skip_space cur)).0 ≡ w)
      × ((word (skip_space cur)).1 ≡ rest)
      × (0 < length w)
      × (length w < len)
unfolding command_read_token
read_token_parts cur len w rest h = ground arith

Token-read :
    (cur : Bytes) (len : ℕ) (w rest : Bytes)
    → command_read_token cur len ≡ some (w, rest)
    → Token cur w rest
Token-read cur len w rest h =
    let (same_w, same_rest, pos_len, _) = read_token_parts cur len w rest h in
    let (gap, spaces, cut) = skip_space-split cur in
    let (parts, chars, stop) = word-split (skip_space cur) in
    record {
      gap = gap;
      spaces = spaces;
      is_word = ((λ e. absurd (omega (arith, ap length e))), rw same_w at chars);
      stop = rw same_rest at stop;
      split = cut ∙ ap (λ p. gap ++ p) (rw (same_w, same_rest) at parts);
    }

-- `command_read_token` answers a word and a rest exactly if the cursor is white space, that word
-- and that rest, the word ends at white space or at the end, and it fits the buffer.
pub command_read_token_iff :
    (cur : Bytes) (len : ℕ) (w rest : Bytes)
    → (command_read_token cur len ≡ some (w, rest)) ↔ Token cur w rest × (length w < len)
command_read_token_iff cur len w rest = (
  (λ h. (Token-read cur len w rest h, (read_token_parts cur len w rest h).3)),
  λ h. fitting_word_reads cur len w rest h.0 h.1,
)

pub trailing_space_iff : (s : Bytes) → (command_has_only_trailing_space s ≡ true) ↔ Spaces s
unfolding command_has_only_trailing_space skip_space
trailing_space_iff [] = ((λ _. tt), λ _. refl)
trailing_space_iff (c ∷ s) = elim (Bool-cases (is_space c)) [
  | inl e ↦
      let (to, from) = trailing_space_iff s in ((λ h. (e, to (rw e at h))), λ h. rw e (from h.1))
  | inr e ↦ ((λ h. cc (rw e at h)), λ h. cc h.0)
]
