-- ===== src/Client/Capture.antt =====
-- client/transport.c: what is kept of a reply that comes in several reads.
use acer_nitro_sense_linux.Client.Transport.{append_capture_output, capture_replies}
use acer_nitro_sense_linux.Prelude.{
  Bytes, List, [], ap, append-nil, append_assoc, arith, if_cases, leb, length, refl, suc, sym, take,
  zero, ℕ, ◌++◌, ◌-◌, ◌<◌, ◌==◌, ◌||◌, ◌∙◌, ◌∷◌, ◌≡◌,
}

take-take-append :
    (n : ℕ) (s t : Bytes) → take n s ++ take (n - length (take n s)) t ≡ take n (s ++ t)
take-take-append zero s t = refl
take-take-append (suc n) [] t =
    let same : suc n - 0 ≡ suc n = omega arith in ap (λ k. take k t) same
take-take-append (suc n) (c ∷ s) t =
    let same : suc n - suc (length (take n s)) ≡ n - length (take n s) = omega arith in
    ap (◌∷◌ c) (ap (λ k. take n s ++ take k t) same ∙ take-take-append n s t)

-- The whole reply.
abbrev pub joined : List Bytes → Bytes
joined [] = []
joined (text ∷ texts) = text ++ joined texts

take-nil : (n : ℕ) → take {A = ℕ} n [] ≡ []
take-nil zero = refl
take-nil (suc n) = refl

-- One read adds as much as there is room for.
append_capture_output-room :
    (room : ℕ) (out text : Bytes)
    → append_capture_output (suc room) out text ≡ out ++ take (room - length out) text
unfolding append_capture_output
append_capture_output-room room out text =
    if_cases (λ r. r ≡ out ++ take (room - length out) text)
      (suc room == 0 || leb (suc room - 1) (length out))
      (λ e.
        let none_left : room - length out ≡ 0 = ground arith in rw none_left (sym (append-nil out)))
      (λ e.
        let same : suc room - length out - 1 ≡ room - length out = omega arith in
        ap (λ k. out ++ take k text) same)

capture_replies-take :
    (room : ℕ) (before : Bytes) (texts : List Bytes)
    → capture_replies (suc room) (take room before) texts ≡ take room (before ++ joined texts)
unfolding capture_replies
capture_replies-take room before [] = ap (take room) (sym (append-nil before))
capture_replies-take room before (text ∷ texts) =
    let kept =
      append_capture_output-room room (take room before) text ∙ take-take-append room before text in
    ap (λ out. capture_replies (suc room) out texts) kept
    ∙ (capture_replies-take room (before ++ text) texts
        ∙ ap (take room) (append_assoc before text (joined texts)))

-- However a reply is cut into reads: a buffer that is not empty keeps the reply from its start,
-- as much of it as fits with a NUL.
pub capture_replies_lem :
    (out_len : ℕ) (texts : List Bytes)
    → 0 < out_len
    → capture_replies out_len [] texts ≡ take (out_len - 1) (joined texts)
capture_replies_lem zero texts h = absurd (omega arith)
capture_replies_lem (suc room) texts h =
    ap (λ out. capture_replies (suc room) out texts) (sym (take-nil room))
    ∙ (capture_replies-take room [] texts ∙ ap (λ k. take k (joined texts)) (omega arith))
