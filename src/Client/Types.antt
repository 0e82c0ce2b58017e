-- ===== src/Client/Types.antt =====
-- client/status.h and commands/client/*.h: the arguments of the client, and what a handler ends in.
use acer_nitro_sense_linux.Command.Tokens.{word}
use acer_nitro_sense_linux.Prelude.{Bool, Bytes, List, [], if◌then◌else◌, str_eq, suc, zero, ℕ, ◌∷◌}

-- `temp_unit`
pub data TempUnit : Type 0 where
  celsius fahrenheit : TempUnit

-- The call in which a handler ends, which gives its exit status.
pub data ClientCall : Type 0 where
  -- `client_usage(stderr)` and 2
  prints_usage : ClientCall
  -- a message on stderr, and 2
  complains : ClientCall
  -- `client_send_command(command, false)`
  sends : Bytes → ClientCall
  -- the same, and `client_run_systemctl` where it fails
  sends_or_systemctl : Bytes → Bytes → ClientCall
  -- `client_run_systemctl(action)`
  runs_systemctl : Bytes → ClientCall
  -- `client_print_status(unit, json)`
  prints_status : TempUnit → Bool → ClientCall
  -- `client_print_coolboost_status()`
  prints_coolboost : ClientCall
  -- `client_validate_model()`
  validates_model : ClientCall
  -- `client_doctor()`
  runs_doctor : ClientCall

-- `argv[i]`, which the handlers read only below `argc`.
abbrev pub argv_at : List Bytes → ℕ → Bytes
argv_at [] i = []
argv_at (word ∷ words) zero = word
argv_at (word ∷ words) (suc i) = argv_at words i

-- A row of a table of commands.
pub record ClientCommand : Type 0 where
  pub client_name : Bytes
  pub client_handler : List Bytes → ClientCall

abbrev pub entry : Bytes → (List Bytes → ClientCall) → ClientCommand
entry name handler = record { client_name = name; client_handler = handler }

-- The handler of the row with this name, else `otherwise`.
unfoldable pub call_entry : List ClientCommand → Bytes → List Bytes → ClientCall → ClientCall
call_entry [] name argv otherwise = otherwise
call_entry (c ∷ commands) name argv otherwise =
    let later = call_entry commands name argv otherwise in
    if str_eq name c.client_name then c.client_handler argv else later
