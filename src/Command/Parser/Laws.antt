-- ===== src/Command/Parser/Laws.antt =====
-- The commands that the parsers accept, by the grammar of `Command.Tokens.Grammar`.
use acer_nitro_sense_linux.Command.Parser.{parse_ec_dump_command, parse_set_command}
use acer_nitro_sense_linux.Command.Tokens.{
  command_has_only_trailing_space, command_parse_action, command_parse_int_token,
  command_parse_percent_token, command_read_token, expect_token,
}
use acer_nitro_sense_linux.Command.Tokens.Grammar.{
  Line, Token, command_read_token_iff, trailing_space_iff,
}
use acer_nitro_sense_linux.Config.Valid.{IsWithin}
use acer_nitro_sense_linux.Prelude.{
  +ℤ_parts, >>=-eq-some, Bytes, [], arith, codes, guard-eq-some, leb_ℤ, length, pos, refl, some,
  str_eq, str_eq_iff, true, ℕ, ℤ, ◌&&◌, ◌+ℤ◌, ◌-ℤ◌, ◌<◌, ◌↔◌, ◌∷◌, ◌≡◌, ◌≤ℤ◌, -ℤ_parts,
}
use acer_nitro_sense_linux.Util.Strtol.{parse_int_range, parse_int_range_in}

-- The command names are shorter than the buffers that the parsers read them into.
pub expect_token_iff :
    (cur name : Bytes) (len : ℕ) (rest : Bytes)
    → length name < len
    → (expect_token cur name len ≡ some rest) ↔ Token cur name rest
unfolding expect_token
expect_token_iff cur name len rest short = (
  (λ h.
      let (t, read, h') = >>=-eq-some (command_read_token cur len) _ h in
      let (same, last) = guard-eq-some (str_eq t.0 name) (some t.1) h' in
      let both : t ≡ (name, rest) = ground (arith, (str_eq_iff t.0 name).0 same) in
      ((command_read_token_iff cur len name rest).0 (rw both at read)).0),
  λ t. rw ((command_read_token_iff cur len name rest).1 (t, short), (str_eq_iff name name).1 refl),
)

-- For a command name of at most 31 bytes, `command_parse_action` answers an action exactly for a
-- line of the name and that action, where the action fits the caller's buffer.
pub command_parse_action_iff :
    (cmd name : Bytes) (len : ℕ) (action : Bytes)
    → length name < 32
    → (command_parse_action cmd name len ≡ some action)
      ↔ Line cmd (name ∷ action ∷ []) × (length action < len)
unfolding command_parse_action
command_parse_action_iff cmd name len action short = (
  (λ h.
      let (cur, first, h1) = >>=-eq-some (expect_token cmd name 32) _ h in
      let (t, second, h2) = >>=-eq-some (command_read_token cur len) _ h1 in
      let (blank, last) = guard-eq-some (command_has_only_trailing_space t.1) (some t.0) h2 in
      let same : t.0 ≡ action = ground arith in
      let read = (command_read_token_iff cur len t.0 t.1).0 second in
      (
        (
          cur,
          (expect_token_iff cmd name 32 cur short).0 first,
          (t.1, rw same at read.0, (trailing_space_iff t.1).0 blank),
        ),
        rw same at read.1,
      )),
  λ ((cur, first, (rest, second, blank)), fits). rw (
    (expect_token_iff cmd name 32 cur short).1 first,
    (command_read_token_iff cur len action rest).1 (second, fits),
    (trailing_space_iff rest).1 blank,
  ),
)

-- `parse_set_command` answers a fan and a percentage exactly for a line of the three words `set`,
-- the fan and a number, where the fan fits the caller's buffer and the number has at most 15
-- bytes and reads as that percentage.
pub parse_set_command_iff :
    (cmd : Bytes) (len : ℕ) (fan : Bytes) (percent : ℤ)
    → (parse_set_command cmd len ≡ some (fan, percent)) ↔ (
        (text : Bytes) × Line cmd (codes "set" ∷ fan ∷ text ∷ [])
        × (length fan < len)
        × (length text < 16)
        × (command_parse_percent_token text ≡ some percent))
unfolding parse_set_command
parse_set_command_iff cmd len fan percent = (
  (λ h.
      let (cur, first, h1) = >>=-eq-some (expect_token cmd (codes "set") 16) _ h in
      let (t, second, h2) = >>=-eq-some (command_read_token cur len) _ h1 in
      let (u, third, h3) = >>=-eq-some (command_read_token t.1 16) _ h2 in
      let (blank, h4) = guard-eq-some (command_has_only_trailing_space u.1) _ h3 in
      let (p, number, h5) = >>=-eq-some (command_parse_percent_token u.0) _ h4 in
      let same : t.0 ≡ fan = ground arith in
      let same_p : p ≡ percent = ground arith in
      let read = (command_read_token_iff cur len t.0 t.1).0 second in
      let read' = (command_read_token_iff t.1 16 u.0 u.1).0 third in
      (
        u.0,
        (
          cur,
          (expect_token_iff cmd (codes "set") 16 cur (omega arith)).0 first,
          (t.1, rw same at read.0, (u.1, read'.0, (trailing_space_iff u.1).0 blank)),
        ),
        rw same at read.1,
        read'.1,
        rw same_p at number,
      )),
  λ (text, (cur, first, (mid, second, (rest, third, blank))), fan_fits, text_fits, number). rw (
    (expect_token_iff cmd (codes "set") 16 cur (omega arith)).1 first,
    (command_read_token_iff cur len fan mid).1 (second, fan_fits),
    (command_read_token_iff mid 16 text rest).1 (third, text_fits),
    (trailing_space_iff rest).1 blank,
    number,
  ),
)

dump_bounds :
    (a b : ℤ) {first last : ℤ}
    → a ≡ first
    → b ≡ last
    → IsWithin (pos 0) (pos 255) a
    → IsWithin (pos 0) (pos 255) b
    → (leb_ℤ a b && leb_ℤ (b -ℤ a) (pos 127)) ≡ true
    → (pos 0 ≤ℤ first) × (first ≤ℤ last) × (last ≤ℤ pos 255) × (last ≤ℤ first +ℤ pos 127)
dump_bounds a b {first} {last} p q low high fits =
    rw (← p, ← q) (ground (arith, -ℤ_parts b a, +ℤ_parts a (pos 127)))

-- An `ec-dump` command that is accepted names a range within the 256 registers, in order and of
-- at most 128 registers.
pub parse_ec_dump_command_in :
    (cmd : Bytes) {first last : ℤ}
    → parse_ec_dump_command cmd ≡ some (first, last)
    → (pos 0 ≤ℤ first) × (first ≤ℤ last) × (last ≤ℤ pos 255) × (last ≤ℤ first +ℤ pos 127)
unfolding parse_ec_dump_command command_parse_int_token
parse_ec_dump_command_in cmd {first} {last} h =
    let (cur, _, h1) = >>=-eq-some (expect_token cmd (codes "ec-dump") 16) _ h in
    let (t, _, h2) = >>=-eq-some (command_read_token cur 16) _ h1 in
    let (u, _, h3) = >>=-eq-some (command_read_token t.1 16) _ h2 in
    let (_, h4) = guard-eq-some (command_has_only_trailing_space u.1) _ h3 in
    let (a, low, h5) = >>=-eq-some (parse_int_range t.0 (pos 0) (pos 255) 0) _ h4 in
    let (b, high, h6) = >>=-eq-some (parse_int_range u.0 (pos 0) (pos 255) 0) _ h5 in
    let (fits, h7) = guard-eq-some (leb_ℤ a b && leb_ℤ (b -ℤ a) (pos 127)) _ h6 in
    dump_bounds a b (ground arith) (ground arith) (parse_int_range_in t.0 (pos 0) (pos 255) 0 low)
      (parse_int_range_in u.0 (pos 0) (pos 255) 0 high) fits
