-- ===== src/Client/Transport.antt =====
-- client/transport.c: the command text, and what is kept of a reply.
use acer_nitro_sense_linux.Client.Types.{ClientCall, complains, sends}
use acer_nitro_sense_linux.Prelude.{
  Bytes, List, [], if◌then◌else◌, leb, length, take, ℕ, ◌++◌, ◌-◌, ◌==◌, ◌||◌, ◌∷◌,
}

-- The result of vsnprintf is `text`; it must fit the 256 bytes with its NUL.
unfoldable pub client_send_commandf : Bytes → ClientCall
client_send_commandf text = if leb 256 (length text) then complains else sends text

-- `out`, whose length is `*used`, after one more text.
unfoldable pub append_capture_output : ℕ → Bytes → Bytes → Bytes
append_capture_output out_len out text =
    if out_len == 0 || leb (out_len - 1) (length out)
    then out
    else out ++ take (out_len - length out - 1) text

-- The loop over the reads from the socket, each a text of its own.
unfoldable pub capture_replies : ℕ → Bytes → List Bytes → Bytes
capture_replies out_len out [] = out
capture_replies out_len out (text ∷ texts) =
    capture_replies out_len (append_capture_output out_len out text) texts
