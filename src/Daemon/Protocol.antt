-- ===== src/Daemon/Protocol.antt =====
-- control/protocol.c: the command that is read from a connection.
use acer_nitro_sense_linux.Prelude.{
  Bytes, List, Option, [], if◌then◌else◌, none, some, suc, text_has_value, zero, ℕ, ◌-◌, ◌==◌, ◌∷◌,
}

-- Up to the first NUL, where the readers of a text stop.
unfoldable pub until_nul : Bytes → Bytes
until_nul [] = []
until_nul (c ∷ s) = let rest = until_nul s in if c == 0 then [] else c ∷ rest

-- The loop, with room for `room` bytes and none where it has used them all. A read from the
-- connection gives a byte or fails; after the last one the peer has closed it.
unfoldable pub read_command_bytes : ℕ → List (Option ℕ) → Option Bytes
read_command_bytes zero reads = none
read_command_bytes (suc room) [] = some []
read_command_bytes (suc room) (none ∷ reads) = none
read_command_bytes (suc room) (some ch ∷ reads) =
    let rest = read_command_bytes room reads in
    if ch == b'\n' then some [] else (elim rest [ none ↦ none | some s ↦ some (ch ∷ s) ])

-- `out`, if the function returns 0.
unfoldable pub control_read_command : List (Option ℕ) → ℕ → Option Bytes
control_read_command reads out_len = elim (read_command_bytes (out_len - 1) reads) [
  | none ↦ none
  | some s ↦ if text_has_value s then some (until_nul s) else none
]
