-- ===== src/State/Saved.antt =====
-- The text that state_persist.c saves starts with its head.
use acer_nitro_sense_linux.Config.Types.{AnsConfig}
use acer_nitro_sense_linux.Daemon.Types.{Service}
use acer_nitro_sense_linux.Prelude.{
  Bool-cases, Bytes, List, [], append-nil, append_assoc, false, inl, inr, leb, length, refl, some,
  some-injective, sym, true, ℤ, ◌++◌, ◌-◌, ◌∙◌, ◌∷◌, ◌≡◌, ◌⊎◌,
}
use acer_nitro_sense_linux.State.Buffer.{
  TextBuffer, append_all, text_buffer_append, text_buffer_init, text_buffer_ok,
}
use acer_nitro_sense_linux.State.Write.{control_state_pieces, state_head, write_control_state}

-- The two ends of an append.
append_step :
    (buf : TextBuffer) (text : Bytes)
    → ((text_buffer_append buf text).1.truncated ≡ true)
      ⊎ ((text_buffer_append buf text).1 ≡ record buf { content = buf.content ++ text })
unfolding text_buffer_append
append_step buf text = elim (Bool-cases (leb buf.cap (length buf.content))) [
  | inl full ↦ inl (rw full refl)
  | inr room ↦ elim (Bool-cases (leb (buf.cap - length buf.content) (length text))) [
    | inl cut ↦ inl (rw (room, cut) refl)
    | inr fits ↦ inr (rw (room, fits) refl)
  ]
]

append_keeps_truncated :
    (buf : TextBuffer) (text : Bytes)
    → buf.truncated ≡ true
    → (text_buffer_append buf text).1.truncated ≡ true
append_keeps_truncated buf text h = elim (append_step buf text) [
  | inl cut ↦ cut
  | inr fits ↦ rw fits h
]

truncated_stays :
    (texts : List Bytes) (buf : TextBuffer)
    → buf.truncated ≡ true
    → (append_all buf texts).truncated ≡ true
unfolding append_all
truncated_stays [] buf h = h
truncated_stays (text ∷ texts) buf h =
    truncated_stays texts (text_buffer_append buf text).1 (append_keeps_truncated buf text h)

flat : List Bytes → Bytes
flat [] = []
flat (text ∷ texts) = text ++ flat texts

-- A buffer that nothing was cut from holds all that was appended.
whole_text :
    (texts : List Bytes) (buf : TextBuffer)
    → (append_all buf texts).truncated ≡ false
    → (append_all buf texts).content ≡ buf.content ++ flat texts
unfolding append_all flat
whole_text [] buf h = sym (append-nil buf.content)
whole_text (text ∷ texts) buf h = elim (append_step buf text) [
  | inl cut ↦ cc (truncated_stays texts (text_buffer_append buf text).1 cut, h)
  | inr fits ↦
      let buf1 = record buf { content = buf.content ++ text } in
      rw (append_all, fits)
        (whole_text texts buf1 (rw (append_all, fits) at h)
          ∙ append_assoc buf.content text (flat texts))
]

-- The saved text starts with its head.
pub saved_text :
    (cfg : AnsConfig) (s : Service) (now : ℤ) (json : Bytes)
    → write_control_state true true cfg s now ≡ some json
    → (tail : Bytes) × (json ≡ state_head s now ++ tail)
unfolding write_control_state text_buffer_ok control_state_pieces flat text_buffer_init
saved_text cfg s now json h =
    let texts = control_state_pieces cfg s now in
    let out = append_all (text_buffer_init 1024) texts in
    elim (Bool-cases out.truncated) [
      | inl cut ↦ cc (rw cut at h)
      | inr whole ↦
          let text = whole_text texts (text_buffer_init 1024) whole in
          (_, sym (some-injective (rw whole at h)) ∙ text)
    ]
