-- ===== src/Ec/Memory.antt =====
-- Memories, and what ec/fake.c does to an array of registers that holds one.
use acer_nitro_sense_linux.Ec.Fake.{fake_set_word, store}
use acer_nitro_sense_linux.Ec.Types.{EcDevice, fake_regs_len}
use acer_nitro_sense_linux.Prelude.{
  List, [], ap, arith, false, get_elem?, if_cases, if◌then◌else◌, leb_ℤ, length, ltb_ℤ, pos, refl,
  replicate, set, some, suc, true, zero, ℕ, ◌%◌, ◌+ℤ◌, ◌/◌, ◌<◌, ◌==◌, ◌||◌, ◌∙◌, ◌∷◌, ◌≡◌, ◌≢◌,
}

-- A byte for each register.
abbrev pub Memory : Type 0
Memory = ℕ → ℕ

unfoldable pub write_memory : Memory → ℕ → ℕ → Memory
write_memory m reg v r = if r == reg then v else m r

get_elem?-set-same :
    {A : Type 0} (xs : List A) (i : ℕ) (v : A) → i < length xs → get_elem? (set xs i v) i ≡ some v
get_elem?-set-same [] i v h = ground (arith, h)
get_elem?-set-same (x ∷ xs) zero v h = refl
get_elem?-set-same (x ∷ xs) (suc i) v h = get_elem?-set-same xs i v (omega (arith, h))

get_elem?-set-other :
    {A : Type 0} (xs : List A) (i j : ℕ) (v : A) → i ≢ j → get_elem? (set xs i v) j ≡ get_elem? xs j
get_elem?-set-other [] i j v h = refl
get_elem?-set-other (x ∷ xs) zero zero v h = elim (h refl) [ ]
get_elem?-set-other (x ∷ xs) zero (suc j) v h = refl
get_elem?-set-other (x ∷ xs) (suc i) zero v h = refl
get_elem?-set-other (x ∷ xs) (suc i) (suc j) v h = get_elem?-set-other xs i j v (λ e. h (ap suc e))

length-set : {A : Type 0} (xs : List A) (i : ℕ) (v : A) → length (set xs i v) ≡ length xs
length-set [] i v = refl
length-set (x ∷ xs) zero v = refl
length-set (x ∷ xs) (suc i) v = ap suc (length-set xs i v)

get_elem?-replicate : {A : Type 0} (n i : ℕ) (a : A) → i < n → get_elem? (replicate n a) i ≡ some a
get_elem?-replicate zero i a h = ground (arith, h)
get_elem?-replicate (suc n) zero a h = refl
get_elem?-replicate (suc n) (suc i) a h = get_elem?-replicate n i a (omega (arith, h))

length-replicate : {A : Type 0} (n : ℕ) (a : A) → length (replicate n a) ≡ n
length-replicate zero a = refl
length-replicate (suc n) a = ap suc (length-replicate n a)

-- The registers hold the memory.
pub record Holds (regs : List ℕ) (m : Memory) : Type 0 where
  pub whole : length regs ≡ 256
  pub same : (r : ℕ) → r < 256 → get_elem? regs r ≡ some (m r)

eq_of_test : (a b : ℕ) → (a == b) ≡ true → a ≡ b
eq_of_test a b h = ground (arith, h)

ne_of_test : (a b : ℕ) → (a == b) ≡ false → b ≢ a
ne_of_test a b h e = ground (arith, h, e)

pub set-Holds :
    (regs : List ℕ) (m : Memory) (reg v : ℕ)
    → reg < 256
    → Holds regs m
    → Holds (set regs reg v) (write_memory m reg v)
unfolding write_memory
set-Holds regs m reg v low h = record {
  whole = length-set regs reg v ∙ h.whole;
  same = λ r below.
      let Q : ℕ → Type 0 = λ x. get_elem? (set regs reg v) r ≡ some x in
      if_cases Q (r == reg)
        (λ e. rw (eq_of_test r reg e) (get_elem?-set-same regs reg v (omega (arith, low, h.whole))))
        (λ e. get_elem?-set-other regs reg r v (ne_of_test r reg e) ∙ h.same r below);
}

pub zeros-Holds : Holds (replicate fake_regs_len 0) (λ r. 0)
unfolding fake_regs_len
zeros-Holds = record {
  whole = let z : ℕ = 0 in length-replicate 256 z;
  same = λ r below. get_elem?-replicate 256 r 0 below;
}

abbrev pub word_memory : Memory → ℕ → ℕ → Memory
word_memory m reg value =
    write_memory (write_memory m reg (value % 256)) (suc reg) (value / 256 % 256)

next_register : (reg : ℕ) → pos reg +ℤ pos 1 ≡ pos (suc reg)
unfolding ◌+ℤ◌
next_register reg = ground arith

word_inside :
    (reg : ℕ)
    → suc reg < 256
    → (ltb_ℤ (pos reg) (pos 0) || leb_ℤ (pos fake_regs_len) (pos (suc reg))) ≡ false
unfolding fake_regs_len
word_inside reg low = ground (arith, low)

pub word-Holds :
    (ec : EcDevice) (m : Memory) (reg value : ℕ)
    → suc reg < 256
    → Holds ec.fake_regs m
    → Holds (fake_set_word ec (pos reg) value).fake_regs (word_memory m reg value)
unfolding fake_set_word store
word-Holds ec m reg value low h =
    rw (next_register reg, word_inside reg low)
      (set-Holds _ _ (suc reg) (value / 256 % 256) low
        (set-Holds ec.fake_regs m reg (value % 256) (omega (arith, low)) h))
