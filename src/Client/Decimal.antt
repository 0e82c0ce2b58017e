-- ===== src/Client/Decimal.antt =====
-- What `%d` prints is what `strtol` reads: util/number.c against the formats of the client.
use acer_nitro_sense_linux.Command.Tokens.Grammar.{IsWord}
use acer_nitro_sense_linux.Config.Valid.{IsWithin}
use acer_nitro_sense_linux.Prelude.{
  All, Bool-cases, Bytes, [], ap, arith, false, inl, inr, leb, length, ltb, negsuc, pos, refl, some,
  suc, true, zero, ℕ, ℤ, ◌%◌, ◌*◌, ◌+◌, ◌/◌, ◌<ℤ◌, ◌<◌, ◌==◌, ◌∙◌, ◌∷◌, ◌≡◌, ◌≤◌, ◌⊎◌,
}
use acer_nitro_sense_linux.State.Buffer.{decimal, decimal_digits}
use acer_nitro_sense_linux.Util.Strtol.{
  digit_value, is_c_space, long_max, parse_int_range, read_digits, skip_c_space, strip_prefix,
  strtol,
}
use acer_nitro_sense_linux.Util.Text.{is_space}

digit_value-digit : (d : ℕ) → d < 10 → digit_value (b'0' + d) ≡ d
unfolding digit_value
digit_value-digit d h = ground arith

digit_reads :
    (acc d : ℕ) (tail : Bytes)
    → d < 10
    → read_digits 10 acc ((b'0' + d) ∷ tail) ≡ read_digits 10 (acc * 10 + d) tail
unfolding read_digits
digit_reads acc d tail h =
    let small : ltb d 10 ≡ true = ground arith in rw (digit_value-digit d h, small) refl

-- The digits in front are read, whatever follows them.
pub read_digits-decimal_digits :
    (fuel n : ℕ) (tail : Bytes)
    → n < fuel
    → read_digits 10 0 (decimal_digits fuel n tail) ≡ read_digits 10 n tail
unfolding decimal_digits
read_digits-decimal_digits zero n tail h = absurd (omega arith)
read_digits-decimal_digits (suc fuel) n tail h =
    let reads = λ (acc : ℕ). digit_reads acc (n % 10) tail (omega arith) in
    elim (Bool-cases (n / 10 == 0)) [
      | inl e ↦
          let same : 0 * 10 + n % 10 ≡ n = ground arith in
          rw e (reads 0 ∙ ap (λ m. read_digits 10 m tail) same)
      | inr e ↦
          let same : n / 10 * 10 + n % 10 ≡ n = omega arith in
          let front =
            read_digits-decimal_digits fuel (n / 10) ((b'0' + n % 10) ∷ tail) (ground arith) in
          rw e (front ∙ (reads (n / 10) ∙ ap (λ m. read_digits 10 m tail) same))
    ]

-- A digit, and a digit other than 0.
abbrev pub IsDigit : ℕ → Type 0
IsDigit c = (b'0' ≤ c) × (c ≤ b'9')

abbrev pub IsLeading : ℕ → Type 0
IsLeading c = (b'1' ≤ c) × (c ≤ b'9')

-- A number in decimal: digits only, the first of them not 0.
abbrev pub IsNumeral : Bytes → Type 0
IsNumeral [] = ⊥
IsNumeral (c ∷ s) = IsLeading c × All IsDigit s

pub decimal_digits-IsNumeral :
    (fuel n : ℕ) (tail : Bytes)
    → 0 < n
    → n < fuel
    → All IsDigit tail
    → IsNumeral (decimal_digits fuel n tail)
unfolding decimal_digits
decimal_digits-IsNumeral zero n tail p h t = absurd (omega arith)
decimal_digits-IsNumeral (suc fuel) n tail p h t = elim (Bool-cases (n / 10 == 0)) [
  | inl e ↦ let here : IsLeading (b'0' + n % 10) = ground arith in rw e (here, t)
  | inr e ↦
      let here : IsDigit (b'0' + n % 10) = ground arith in
      rw e (
        decimal_digits-IsNumeral fuel (n / 10) ((b'0' + n % 10) ∷ tail) (ground arith)
          (ground arith) (here, t))
]

length-decimal_digits_small :
    (fuel n : ℕ) (tail : Bytes) → n < 10 → length (decimal_digits fuel n tail) ≤ 1 + length tail
unfolding decimal_digits
length-decimal_digits_small zero n tail h = omega arith
length-decimal_digits_small (suc fuel) n tail h =
    let one : n / 10 == 0 ≡ true = ground arith in rw one (omega arith)

length-decimal_digits_step :
    (k m : ℕ)
    → ((fuel n : ℕ) (tail : Bytes) → n < m → length (decimal_digits fuel n tail) ≤ k + length tail)
    → 1 ≤ k
    → (fuel n : ℕ) (tail : Bytes) → n < m * 10
    → length (decimal_digits fuel n tail) ≤ suc k + length tail
unfolding decimal_digits
length-decimal_digits_step k m below p zero n tail h = omega arith
length-decimal_digits_step k m below p (suc fuel) n tail h = elim (Bool-cases (n / 10 == 0)) [
  | inl e ↦ rw e (omega arith)
  | inr e ↦ rw e (omega (arith, below fuel (n / 10) ((b'0' + n % 10) ∷ tail) (omega arith)))
]

-- A number below 1000 has three digits at most.
pub length-decimal_digits : (fuel n : ℕ) → n < 1000 → length (decimal_digits fuel n []) ≤ 3
length-decimal_digits fuel n h =
    length-decimal_digits_step 2 100
      (length-decimal_digits_step 1 10 length-decimal_digits_small (omega arith)) (omega arith) fuel
      n [] h

-- The bases of the daemon's and the client's numbers; in base 0 the prefix chooses the base.
abbrev pub IsDecimalBase : ℕ → Type 0
IsDecimalBase base = (base ≡ 0) ⊎ (base ≡ 10)

strip_prefix-numeral :
    (s : Bytes) (base : ℕ) → IsDecimalBase base → IsNumeral s → strip_prefix base s ≡ (10, s)
unfolding strip_prefix
strip_prefix-numeral [] base b h = elim h [ ]
strip_prefix-numeral (c ∷ []) base b ((low, high), t) = ground arith
strip_prefix-numeral (c ∷ d ∷ s) base b ((low, high), t) = ground arith

leading_below_ten : (c : ℕ) → IsLeading c → ltb (digit_value c) 10 ≡ true
unfolding digit_value
leading_below_ten c h = ground arith

-- A numeral is read as its digits say.
pub numeral_strtol :
    (s : Bytes) (base n : ℕ)
    → IsDecimalBase base
    → IsNumeral s
    → read_digits 10 0 s ≡ (n, [])
    → n ≤ 1000
    → strtol s base ≡ record { value = pos n; rest = []; found = true; fits = true }
unfolding strtol skip_c_space
numeral_strtol [] base n b h reads small = elim h [ ]
numeral_strtol (c ∷ s) base n b (lead, t) reads small =
    let solid : is_c_space c ≡ false = ground arith in
    let minus : c == b'-' ≡ false = ground arith in
    let plus : c == b'+' ≡ false = ground arith in
    let short : leb n long_max ≡ true = ground arith in
    rw (
      solid,
      minus,
      plus,
      strip_prefix-numeral (c ∷ s) base b (lead, t),
      reads,
      leading_below_ten c lead,
      short,
    )

zero_strtol :
    (base : ℕ)
    → IsDecimalBase base
    → strtol (decimal (pos 0)) base ≡ record { value = pos 0; rest = []; found = true; fits = true }
unfolding decimal decimal_digits strtol skip_c_space strip_prefix read_digits digit_value
zero_strtol base (inl e) = rw e refl
zero_strtol base (inr e) = rw e refl

strtol-decimal :
    (n base : ℕ)
    → IsDecimalBase base
    → n < 1000
    → strtol (decimal (pos n)) base ≡ record { value = pos n; rest = []; found = true; fits = true }
unfolding decimal read_digits
strtol-decimal zero base b h = zero_strtol base b
strtol-decimal (suc n) base b h =
    numeral_strtol (decimal_digits (suc (suc n)) (suc n) []) base (suc n) b
      (decimal_digits-IsNumeral (suc (suc n)) (suc n) [] (omega arith) (omega arith) tt)
      (read_digits-decimal_digits (suc (suc n)) (suc n) [] (omega arith)) (omega arith)

-- Printing a number of the range and reading it gives it back.
pub parse_int_range-decimal :
    (v hi : ℤ) (lo : ℕ) (base : ℕ)
    → IsDecimalBase base
    → IsWithin (pos lo) hi v
    → hi <ℤ pos 1000
    → parse_int_range (decimal v) (pos lo) hi base ≡ some v
unfolding parse_int_range
parse_int_range-decimal (pos n) hi lo base b inside h =
    rw (strtol-decimal n base b (ground arith)) (ground arith)
parse_int_range-decimal (negsuc n) hi lo base b inside h = absurd (ground arith)

numeral_word : (s : Bytes) → All IsDigit s → All (λ c. is_space c ≡ false) s
numeral_word [] h = tt
numeral_word (c ∷ s) (h, hs) = (ground arith, numeral_word s hs)

numeral-IsWord : (s : Bytes) → IsNumeral s → IsWord s
numeral-IsWord [] h = elim h [ ]
numeral-IsWord (c ∷ s) (lead, t) =
    ((λ e. absurd (omega (arith, ap length e))), numeral_word (c ∷ s) (ground arith, t))

pub decimal-IsWord : (n : ℕ) → n < 1000 → IsWord (decimal (pos n)) × (length (decimal (pos n)) ≤ 3)
unfolding decimal decimal_digits
decimal-IsWord zero h = (((λ e. absurd (omega (arith, ap length e))), (refl, tt)), omega arith)
decimal-IsWord (suc n) h = (
  numeral-IsWord _
      (decimal_digits-IsNumeral (suc (suc n)) (suc n) [] (omega arith) (omega arith) tt),
  length-decimal_digits (suc (suc n)) (suc n) h,
)

numeral-digits : (s : Bytes) → IsNumeral s → All IsDigit s
numeral-digits [] h = elim h [ ]
numeral-digits (c ∷ s) (lead, t) = (ground arith, t)

pub decimal-IsDigit : (n : ℕ) → n < 1000 → All IsDigit (decimal (pos n))
unfolding decimal decimal_digits
decimal-IsDigit zero h = (omega arith, tt)
decimal-IsDigit (suc n) h =
    numeral-digits _
      (decimal_digits-IsNumeral (suc (suc n)) (suc n) [] (omega arith) (omega arith) tt)
