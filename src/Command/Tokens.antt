-- ===== src/Command/Tokens.antt =====
-- commands/parser/tokens.c: tokens and the shapes of a command. A cursor is the text that is left.
-- A parser returns what it writes to its output arguments if it returns true; where it returns
-- false no caller looks at them.
pub mod Grammar
use acer_nitro_sense_linux.Prelude.{
  Bool, Bytes, List, Option, [], eqb_ℤ, false, guard, if◌then◌else◌, leb, length, none, not, pos,
  some, str_eq, text_has_value, ℕ, ℤ, ◌==◌, ◌>>=◌, ◌>>◌, ◌||◌, ◌∷◌,
}
use acer_nitro_sense_linux.Util.Strtol.{parse_int_range}
use acer_nitro_sense_linux.Util.Text.{is_space, skip_space}

-- The bytes up to the next white space, and what follows them.
unfoldable pub word : Bytes → Bytes × Bytes
word [] = ([], [])
word (c ∷ s) = let (token, rest) = word s in if is_space c then ([], c ∷ s) else (c ∷ token, rest)

-- The token and the new cursor. `out_len` is the size of the caller's buffer.
unfoldable pub command_read_token : Bytes → ℕ → Option (Bytes × Bytes)
command_read_token cursor out_len =
    let p = skip_space cursor in
    let (token, rest) = word p in
    if not (text_has_value p)
    then none
    else if length token == 0 || leb out_len (length token)
    then none
    else some (token, rest)

unfoldable pub command_token_in : Bytes → List Bytes → Bool
command_token_in token [] = false
command_token_in token (v ∷ values) = str_eq token v || command_token_in token values

unfoldable pub command_int_in : ℤ → List ℤ → Bool
command_int_in value [] = false
command_int_in value (v ∷ values) = eqb_ℤ value v || command_int_in value values

unfoldable pub command_first_token : Bytes → ℕ → Option Bytes
command_first_token cmd token_len = do (token, _) ← command_read_token cmd token_len; some token

unfoldable pub command_second_token : Bytes → ℕ → Option Bytes
command_second_token cmd token_len = do
  (_, cursor) ← command_read_token cmd 32
  (token, _) ← command_read_token cursor token_len
  some token

unfoldable pub command_has_only_trailing_space : Bytes → Bool
command_has_only_trailing_space p = not (text_has_value (skip_space p))

unfoldable pub command_parse_percent_token : Bytes → Option ℤ
command_parse_percent_token text = parse_int_range text (pos 1) (pos 100) 10

unfoldable pub command_parse_int_token : Bytes → ℤ → ℤ → Option ℤ
command_parse_int_token text min_value max_value = parse_int_range text min_value max_value 0

-- The first token, which must be `expected` in a buffer of `len` bytes.
unfoldable pub expect_token : Bytes → Bytes → ℕ → Option Bytes
expect_token cursor expected len = do
  (token, rest) ← command_read_token cursor len
  guard (str_eq token expected)
  some rest

unfoldable pub command_parse_action : Bytes → Bytes → ℕ → Option Bytes
command_parse_action cmd expected_command action_len = do
  cursor ← expect_token cmd expected_command 32
  (action, cursor') ← command_read_token cursor action_len
  guard (command_has_only_trailing_space cursor')
  some action

unfoldable pub command_parse_enum_action : Bytes → Bytes → List Bytes → ℕ → Option Bytes
command_parse_enum_action cmd expected_command values action_len = do
  action ← command_parse_action cmd expected_command action_len
  guard (command_token_in action values)
  some action

unfoldable pub command_parse_sub_action : Bytes → Bytes → Bytes → ℕ → Option Bytes
command_parse_sub_action cmd expected_command expected_action value_len = do
  cursor ← expect_token cmd expected_command 32
  cursor' ← expect_token cursor expected_action 16
  (value, cursor'') ← command_read_token cursor' value_len
  guard (command_has_only_trailing_space cursor'')
  some value

unfoldable pub command_parse_int_action : Bytes → Bytes → ℤ → ℤ → Option ℤ
command_parse_int_action cmd expected_command min_value max_value = do
  text ← command_parse_action cmd expected_command 16
  command_parse_int_token text min_value max_value

unfoldable pub command_parse_int_sub_action : Bytes → Bytes → Bytes → ℤ → ℤ → Option ℤ
command_parse_int_sub_action cmd expected_command expected_action min_value max_value = do
  text ← command_parse_sub_action cmd expected_command expected_action 16
  command_parse_int_token text min_value max_value
