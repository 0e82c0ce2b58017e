-- ===== src/Client/Accepted.antt =====
-- The lines that commands/client/fan.c and platform.c send are lines of the grammar that
-- commands/parser/tokens.c reads.
use acer_nitro_sense_linux.Client.Fan.{client_handle_set_command, set_fans, set_line}
use acer_nitro_sense_linux.Client.Parse.{client_parse_percent}
use acer_nitro_sense_linux.Client.Transport.{client_send_commandf}
use acer_nitro_sense_linux.Client.Types.{argv_at, sends}
use acer_nitro_sense_linux.Command.Tokens.{command_token_in}
use acer_nitro_sense_linux.Command.Tokens.Grammar.{EndsWord, IsWord, Token}
use acer_nitro_sense_linux.Prelude.{
  All, Bool-cases, Bytes, List, Option-cases, [], arith, codes, inl, inr, length, refl, some,
  str_eq, str_eq_iff, true, ℤ, ◌++◌, ◌<◌, ◌∷◌, ◌≡◌,
}

-- What is sent is the text, which fits the buffer.
pub sent_text :
    (text : Bytes) {cmd : Bytes}
    → client_send_commandf text ≡ sends cmd
    → (text ≡ cmd) × (length cmd < 256)
unfolding client_send_commandf
sent_text text h = ground arith

-- A word at the front, and one after a space.
pub word_Token : (w rest : Bytes) → IsWord w → EndsWord rest → Token (w ++ rest) w rest
word_Token w rest is_word stop = record {
  gap = [];
  spaces = tt;
  is_word = is_word;
  stop = stop;
  split = refl;
}

pub spaced_Token :
    (w rest : Bytes) → IsWord w → EndsWord rest → Token (codes " " ++ (w ++ rest)) w rest
spaced_Token w rest is_word stop = record {
  gap = codes " ";
  spaces = (refl, tt);
  is_word = is_word;
  stop = stop;
  split = refl;
}

-- What holds of every listed word holds of a token that is listed.
pub token_in-All {κ} :
    (P : Bytes → Type κ) (token : Bytes) (values : List Bytes)
    → All P values
    → command_token_in token values ≡ true
    → P token
unfolding command_token_in
token_in-All P token [] h e = absurd (ground arith)
token_in-All P token (v ∷ values) (h, hs) e = elim (Bool-cases (str_eq token v)) [
  | inl same ↦ rw (← (str_eq_iff token v).0 same) at h
  | inr other ↦ token_in-All P token values hs (rw other at e)
]

-- What `set` sends, as the fan and the percentage that were given.
pub set_sends :
    (argv : List Bytes) {cmd : Bytes}
    → client_handle_set_command argv ≡ sends cmd
    → (percent : ℤ) × (client_parse_percent (argv_at argv 3) ≡ some percent)
      × (command_token_in (argv_at argv 2) set_fans ≡ true)
      × (set_line (argv_at argv 2) percent ≡ cmd)
unfolding client_handle_set_command client_send_commandf
set_sends argv h = elim (Option-cases (client_parse_percent (argv_at argv 3))) [
  | inl e ↦ absurd (ground arith)
  | inr (percent, e) ↦ (percent, e, ground arith, ground arith)
]
