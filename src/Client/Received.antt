-- ===== src/Client/Received.antt =====
-- A line of the client as control/protocol.c reads it: up to its newline.
use acer_nitro_sense_linux.Client.Accepted.{spaced_Token, token_in-All, word_Token}
use acer_nitro_sense_linux.Client.Decimal.{
  IsDigit, decimal-IsDigit, decimal-IsWord, parse_int_range-decimal,
}
use acer_nitro_sense_linux.Client.Fan.{set_fans, set_line}
use acer_nitro_sense_linux.Command.Parser.{parse_set_command}
use acer_nitro_sense_linux.Command.Parser.Laws.{parse_set_command_iff}
use acer_nitro_sense_linux.Command.Tokens.{command_parse_percent_token, command_token_in}
use acer_nitro_sense_linux.Command.Tokens.Grammar.{IsWord, Line}
use acer_nitro_sense_linux.Config.Valid.{IsWithin}
use acer_nitro_sense_linux.Daemon.Protocol.{control_read_command, read_command_bytes, until_nul}
use acer_nitro_sense_linux.Prelude.{
  All, Bytes, [], ap, append-nil, append_assoc, arith, codes, false, inr, length, length-append,
  map, negsuc, pos, refl, some, suc, sym, text_has_value, true, zero, ℕ, ℤ, ◌++◌, ◌<◌, ◌==◌, ◌∙◌,
  ◌∷◌, ◌≡◌,
}
use acer_nitro_sense_linux.State.Buffer.{decimal}

-- Neither a newline nor a NUL.
abbrev pub IsPlain : ℕ → Type 0
IsPlain c = (c == b'\n' ≡ false) × (c == 0 ≡ false)

until_nul-IsPlain : (s : Bytes) → All IsPlain s → until_nul s ≡ s
unfolding until_nul
until_nul-IsPlain [] h = refl
until_nul-IsPlain (c ∷ s) ((_, solid), hs) = rw (solid, until_nul-IsPlain s hs) refl

read_command_bytes-line :
    (room : ℕ) (s : Bytes)
    → length s < room
    → All IsPlain s
    → read_command_bytes room (map some (s ++ codes "\n")) ≡ some s
unfolding read_command_bytes
read_command_bytes-line zero s fits h = absurd (omega (arith, fits))
read_command_bytes-line (suc room) [] fits h = refl
read_command_bytes-line (suc room) (c ∷ s) fits ((solid, _), hs) =
    rw (solid, read_command_bytes-line room s (omega (arith, fits)) hs) refl

-- A line without a newline or a NUL in it, of at most 254 bytes, is read as its text.
pub control_read_command-line :
    (s : Bytes)
    → text_has_value s ≡ true
    → length s < 255
    → All IsPlain s
    → control_read_command (map some (s ++ codes "\n")) 256 ≡ some s
unfolding control_read_command
control_read_command-line s filled fits h =
    rw (control_read_command, read_command_bytes-line 255 s fits h, filled, until_nul-IsPlain s h)
      refl

append-IsPlain : (s t : Bytes) → All IsPlain s → All IsPlain t → All IsPlain (s ++ t)
append-IsPlain [] t h k = k
append-IsPlain (c ∷ s) t (h, hs) k = (h, append-IsPlain s t hs k)

-- The text of `set`, without the newline.
abbrev pub set_text : Bytes → ℤ → Bytes
set_text fan percent = codes "set " ++ (fan ++ (codes " " ++ decimal percent))

pub set_text-line :
    (fan : Bytes) (percent : ℤ) → set_line fan percent ≡ set_text fan percent ++ codes "\n"
set_text-line fan percent =
    ap (λ s. codes "set " ++ s) (sym (append_assoc fan (codes " " ++ decimal percent) (codes "\n")))

-- What the text needs of the name of a fan.
abbrev pub IsFanName : Bytes → Type 0
IsFanName fan = IsWord fan × (length fan < 32) × All IsPlain fan

fan-IsFanName : (fan : Bytes) → command_token_in fan set_fans ≡ true → IsFanName fan
unfolding set_fans
fan-IsFanName fan h =
    token_in-All IsFanName fan set_fans
      (
        (ground arith, omega arith, ((refl, refl), ((refl, refl), ((refl, refl), tt)))),
        (
          (ground arith, omega arith, ((refl, refl), ((refl, refl), ((refl, refl), tt)))),
          ((ground arith, omega arith, ((refl, refl), ((refl, refl), ((refl, refl), tt)))), tt),
        ),
      )
      h

set_text-IsPlain :
    (fan : Bytes) (n : ℕ) → All IsPlain fan → n < 1000 → All IsPlain (set_text fan (pos n))
set_text-IsPlain fan n h k =
    let digits = digits-IsPlain (decimal (pos n)) (decimal-IsDigit n k) in
    (
      (refl, refl),
      (
        (refl, refl),
        (
          (refl, refl),
          (
            (refl, refl),
            append-IsPlain fan (codes " " ++ decimal (pos n)) h ((refl, refl), digits),
          ),
        ),
      ),
    )
  where
    digits-IsPlain : (s : Bytes) → All IsDigit s → All IsPlain s
    digits-IsPlain [] h = tt
    digits-IsPlain (c ∷ s) (h, hs) = (ground arith, digits-IsPlain s hs)

set_text-Line :
    (fan : Bytes) (n : ℕ)
    → IsWord fan
    → n < 1000
    → Line (set_text fan (pos n)) (codes "set" ∷ fan ∷ decimal (pos n) ∷ [])
set_text-Line fan n is_word h =
    let tail = codes " " ++ decimal (pos n) in
    let last = spaced_Token (decimal (pos n)) [] (decimal-IsWord n h).0 tt in
    (
      codes " " ++ (fan ++ tail),
      word_Token (codes "set") _ (ground arith) refl,
      (
        tail,
        spaced_Token fan tail is_word refl,
        ([], rw (append-nil (decimal (pos n))) at last, tt),
      ),
    )

-- The daemon reads the line of `set` as its text, and from that the fan and the percentage.
pub set_received :
    (fan : Bytes) (percent : ℤ)
    → command_token_in fan set_fans ≡ true
    → IsWithin (pos 1) (pos 100) percent
    → (control_read_command (map some (set_line fan percent)) 256 ≡ some (set_text fan percent))
      × (parse_set_command (set_text fan percent) 32 ≡ some (fan, percent))
unfolding command_parse_percent_token
set_received fan (negsuc n) h inside = absurd (ground arith)
set_received fan (pos n) h inside =
    let (is_word, fits, plain) = fan-IsFanName fan h in
    let small : n < 1000 = omega (arith, inside.1) in
    let (_, short) = decimal-IsWord n small in
    let text = set_text fan (pos n) in
    let len : length text < 255 =
      omega (arith, length-append fan (codes " " ++ decimal (pos n)), fits, short) in
    (
      ap (λ line. control_read_command (map some line) 256) (set_text-line fan (pos n))
          ∙ control_read_command-line text refl len (set_text-IsPlain fan n plain small),
      (parse_set_command_iff text 32 fan (pos n)).1 (
        decimal (pos n),
        set_text-Line fan n is_word small,
        fits,
        omega (arith, short),
        parse_int_range-decimal (pos n) (pos 100) 1 10 (inr refl) inside (ground arith),
      ),
    )
