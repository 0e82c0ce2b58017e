-- ===== src/Status/Reply/Laws.antt =====
-- The rows of `ec-dump`.
use acer_nitro_sense_linux.Machine.{Machine}
use acer_nitro_sense_linux.Prelude.{
  Bool-cases, List, Option, [], ap, arith, if◌then◌else◌, inl, inr, leb_ℤ, length, ltb, pos, refl,
  suc, zero, ℕ, ℤ, ◌+ℤ◌, ◌+◌, ◌-ℤ◌, ◌-◌, ◌∷◌, ◌≡◌, ◌≤◌,
}
use acer_nitro_sense_linux.Status.Reply.{dump_row, dump_rows, reply_ec_dump, row_end, row_length}

-- The registers that the rows show.
unfoldable pub shown_bytes : List (ℤ × List (Option ℤ)) → ℕ
shown_bytes [] = 0
shown_bytes ((_, row) ∷ rows) = length row + shown_bytes rows

pos_add : (a k : ℕ) → pos a +ℤ pos k ≡ pos (a + k)
unfolding ◌+ℤ◌
pos_add a k = ground arith

row_length-pos : (a b : ℕ) → row_length (pos a) (pos b) ≡ b + 1 - a
unfolding row_length ◌+ℤ◌ ◌-ℤ◌
row_length-pos a b = ground arith

-- The last register of a row, as a number.
abbrev row_last : ℕ → ℕ → ℕ
row_last a b = if ltb (a + 15) b then a + 15 else b

row_end-pos : (a b : ℕ) → row_end (pos a) (pos b) ≡ pos (row_last a b)
row_end-pos a b = rw (pos_add a 15) (ground arith)

row_split :
    (a b : ℕ)
    → a ≤ b
    → row_length (pos a) (row_end (pos a) (pos b)) + (b + 1 - (a + 16)) ≡ b + 1 - a
row_split a b h = rw (row_end-pos a b, row_length-pos a (row_last a b)) (ground (arith, h))

module _ (M : Machine) where
  open M use {World}

  length-dump_row : (count : ℕ) (reg : ℤ) (w : World) → length (dump_row M count reg w).0 ≡ count
  unfolding dump_row
  length-dump_row zero reg w = refl
  length-dump_row (suc count) reg w = ap suc (length-dump_row count (reg +ℤ pos 1) _)

  shown-dump_rows :
      (fuel a b : ℕ) (w : World)
      → b + 1 - a ≤ fuel
      → shown_bytes (dump_rows M fuel (pos a) (pos b) w).0 ≡ b + 1 - a
  unfolding dump_rows shown_bytes
  shown-dump_rows zero a b w h = omega (arith, h)
  shown-dump_rows (suc fuel) a b w h = elim (Bool-cases (leb_ℤ (pos a) (pos b))) [
    | inl more ↦
        let n = row_length (pos a) (row_end (pos a) (pos b)) in
        let w1 = (dump_row M n (pos a) w).1 in
        let rest : shown_bytes (dump_rows M fuel (pos a +ℤ pos 16) (pos b) w1).0
            ≡ b + 1 - (a + 16) =
          rw (pos_add a 16) (shown-dump_rows fuel (a + 16) b w1 (omega (arith, h))) in
        rw (more, length-dump_row n (pos a) w, rest) (row_split a b (ground (arith, more)))
    | inr done ↦ rw done (ground (arith, done))
  ]

  -- The rows of `ec-dump` from one register to another show as many bytes as there are registers
  -- from the first to the last, both included.
  pub shown-reply_ec_dump :
      (a b : ℕ) (w : World) → shown_bytes (reply_ec_dump M (pos a) (pos b) w).0 ≡ b + 1 - a
  unfolding reply_ec_dump
  shown-reply_ec_dump a b w =
      rw (row_length-pos a b) (shown-dump_rows (b + 1 - a) a b w (omega arith))
