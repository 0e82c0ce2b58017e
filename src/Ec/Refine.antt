-- ===== src/Ec/Refine.antt =====
-- The fake backend against a memory: a function from registers to bytes.
use acer_nitro_sense_linux.Ec.Device.{device_read_byte, device_write_byte, ec_open_rw, fake_write}
use acer_nitro_sense_linux.Ec.Fake.{
  ec_fake_read_byte, ec_fake_write_byte, ec_open_fake, fake_set_word, fetch, outside_fake_regs,
  store, write_fails,
}
use acer_nitro_sense_linux.Ec.Memory.{
  Holds, Memory, set-Holds, word-Holds, word_memory, write_memory, zeros-Holds,
}
use acer_nitro_sense_linux.Ec.Types.{
  EcDevice, Os, closed_device, ec_name_len, fake, fake_regs_len, to_byte,
}
use acer_nitro_sense_linux.Prelude.{
  &&-eq-true, Bool, Bool-cases, List, Option, [], ap, arith, codes, false, get_elem?, if◌then◌else◌,
  inl, inr, ltb, minus_one, negsuc, none, not, pos, pos_part, refl, set, some, str_eq, true, ℕ, ℤ,
  ◌%◌, ◌&&◌, ◌+ℤ◌, ◌/◌, ◌<◌, ◌==◌, ◌∷◌, ◌≡◌,
}
use acer_nitro_sense_linux.Util.Number.{clamp_int}
use acer_nitro_sense_linux.Util.Text.{string_copy}
use Prim.Native.Nat.{min}

-- A caller's accesses, in their order.
pub data Access : Type 0 where
  read_byte : ℤ → Access
  write_byte : ℤ → ℤ → Access

module _ (O : Os) where
  -- What a device answers to each of the accesses.
  unfoldable pub run_device : List Access → EcDevice → O.State → List ℤ
  run_device [] ec s = []
  run_device (read_byte reg ∷ rest) ec s =
      let (value, s1) = device_read_byte O ec reg s in value ∷ run_device rest ec s1
  run_device (write_byte reg value ∷ rest) ec s =
      let (result, ec1, s1) = device_write_byte O ec reg value s in result ∷ run_device rest ec1 s1

-- What a memory of 256 bytes answers: it takes the byte nearest to a value, refuses the registers
-- that `fails` names, and has no register out of range.
unfoldable pub run_memory : (ℤ → Bool) → List Access → Memory → List ℤ
run_memory fails [] m = []
run_memory fails (read_byte (pos reg) ∷ rest) m =
    (if ltb reg 256 then pos (m reg) else minus_one) ∷ run_memory fails rest m
run_memory fails (write_byte (pos reg) value ∷ rest) m =
    let refused_rest = run_memory fails rest m in
    let stored_rest = run_memory fails rest (write_memory m reg (min (pos_part value) 255)) in
    if ltb reg 256 && not (fails (pos reg)) then pos 0 ∷ stored_rest else minus_one ∷ refused_rest
run_memory fails (read_byte (negsuc _) ∷ rest) m = minus_one ∷ run_memory fails rest m
run_memory fails (write_byte (negsuc _) _ ∷ rest) m = minus_one ∷ run_memory fails rest m

-- The memory after opening: the speeds of the two fans, and zeros.
unfoldable pub fresh_memory : Memory
fresh_memory r =
    if r == 0x16
    then 2600 / 256
    else if r == 0x15
    then 2600 % 256
    else if r == 0x14
    then 3000 / 256
    else if r == 0x13
    then 3000 % 256
    else 0

-- The device that ec_open_fake sets the two words of.
abbrev before_words : EcDevice
before_words = record closed_device {
  fd = minus_one;
  backend = fake;
  name = (string_copy (closed_device.name) ec_name_len (some (codes "fake"))).1;
}

fresh-Holds : Holds (ec_open_fake closed_device).fake_regs fresh_memory
unfolding ec_open_fake closed_device fresh_memory write_memory
fresh-Holds =
    word-Holds (fake_set_word before_words (pos 0x13) 3000) (word_memory (λ r. 0) 0x13 3000) 0x15
      2600 (omega arith) (word-Holds before_words (λ r. 0) 0x13 3000 (omega arith) zeros-Holds)

opened-is_fake : (ec_open_fake closed_device).backend ≡ fake
unfolding ec_open_fake fake_set_word fake_regs_len ◌+ℤ◌
opened-is_fake = refl

not-eq-true : (b : Bool) → not b ≡ true → b ≡ false
not-eq-true b h = ground (arith, h)

test_lt : (a b : ℕ) → ltb a b ≡ true → a < b
test_lt a b h = ground (arith, h)

outside_low : (reg : ℕ) → ltb reg 256 ≡ true → outside_fake_regs (pos reg) ≡ false
unfolding outside_fake_regs fake_regs_len
outside_low reg h = ground (arith, h)

outside_high : (reg : ℕ) → ltb reg 256 ≡ false → outside_fake_regs (pos reg) ≡ true
unfolding outside_fake_regs fake_regs_len
outside_high reg h = ground (arith, h)

fetch-some :
    (regs : List ℕ) (reg v : ℕ) → get_elem? regs reg ≡ some v → fetch regs (pos reg) ≡ pos v
unfolding fetch
fetch-some regs reg v h = ap (λ (o : Option ℕ). elim o [ none ↦ minus_one | some x ↦ pos x ]) h

fake_read :
    (ec : EcDevice) (m : Memory) (reg : ℕ)
    → Holds ec.fake_regs m
    → ec_fake_read_byte ec (pos reg) ≡ (if ltb reg 256 then pos (m reg) else minus_one)
unfolding ec_fake_read_byte
fake_read ec m reg h = elim (Bool-cases (ltb reg 256)) [
  | inl low ↦
      rw (low, outside_low reg low)
        (fetch-some ec.fake_regs reg (m reg) (h.same reg (test_lt reg 256 low)))
  | inr high ↦ rw (high, outside_high reg high) refl
]

outside_below : (n : ℕ) → outside_fake_regs (negsuc n) ≡ true
unfolding outside_fake_regs
outside_below n = ground arith

fake_read_below : (ec : EcDevice) (n : ℕ) → ec_fake_read_byte ec (negsuc n) ≡ minus_one
unfolding ec_fake_read_byte outside_fake_regs
fake_read_below ec n = ground arith

stored_byte : (value : ℤ) → to_byte (clamp_int value (pos 0) (pos 255)) ≡ min (pos_part value) 255
unfolding to_byte clamp_int
stored_byte (pos n) = elim (Bool-cases (ltb 255 n)) [
  | inl high ↦ ground (arith, high)
  | inr low ↦ ground (arith, low)
]
stored_byte (negsuc n) = ground arith

module _ (O : Os) where
  fake_write_stored :
      (ec : EcDevice) (reg : ℕ) (value : ℤ)
      → (ltb reg 256 && not (write_fails O (pos reg))) ≡ true
      → ec_fake_write_byte O ec (pos reg) value
        ≡ (pos 0, record ec { fake_regs = set ec.fake_regs reg (min (pos_part value) 255) })
  unfolding ec_fake_write_byte store
  fake_write_stored ec reg value h =
      let (low, works) = (&&-eq-true (ltb reg 256) (not (write_fails O (pos reg)))).0 h in
      rw (outside_low reg low, not-eq-true (write_fails O (pos reg)) works, stored_byte value) refl

  fake_write_refused :
      (ec : EcDevice) (reg : ℕ) (value : ℤ)
      → (ltb reg 256 && not (write_fails O (pos reg))) ≡ false
      → ec_fake_write_byte O ec (pos reg) value ≡ (minus_one, ec)
  unfolding ec_fake_write_byte
  fake_write_refused ec reg value h = elim (Bool-cases (ltb reg 256)) [
    | inl low ↦ elim (Bool-cases (write_fails O (pos reg))) [
      | inl fails ↦ rw (outside_low reg low, fails) refl
      | inr works ↦ cc (low, works, h)
    ]
    | inr high ↦ rw (outside_high reg high) refl
  ]

  fake_write_below :
      (ec : EcDevice) (n : ℕ) (value : ℤ)
      → ec_fake_write_byte O ec (negsuc n) value ≡ (minus_one, ec)
  unfolding ec_fake_write_byte
  fake_write_below ec n value = rw (outside_below n) refl

  read_fake :
      (ec : EcDevice) (reg : ℤ) (s : O.State)
      → ec.backend ≡ fake
      → device_read_byte O ec reg s ≡ (ec_fake_read_byte ec reg, s)
  unfolding device_read_byte
  read_fake ec reg s h = rw h refl

  write_fake :
      (ec : EcDevice) (reg value : ℤ) (s : O.State)
      → ec.backend ≡ fake
      → device_write_byte O ec reg value s ≡ fake_write O ec reg value s
  unfolding device_write_byte
  write_fake ec reg value s h = rw h refl

  -- A fake device whose registers hold the memory.
  record Simulates (ec : EcDevice) (m : Memory) : Type 0 where
    is_fake : ec.backend ≡ fake
    holds : Holds ec.fake_regs m

  stored-Simulates :
      (ec : EcDevice) (m : Memory) (reg v : ℕ)
      → reg < 256
      → Simulates ec m
      → Simulates (record ec { fake_regs = set ec.fake_regs reg v }) (write_memory m reg v)
  stored-Simulates ec m reg v low h = record {
    is_fake = h.is_fake;
    holds = set-Holds ec.fake_regs m reg v low h.holds;
  }

  run-Simulates :
      (accesses : List Access) (ec : EcDevice) (m : Memory) (s : O.State)
      → Simulates ec m
      → run_device O accesses ec s ≡ run_memory (write_fails O) accesses m
  unfolding run_device run_memory fake_write
  run-Simulates [] ec m s h = refl
  run-Simulates (read_byte (pos reg) ∷ rest) ec m s h =
      rw
        (
          read_fake ec (pos reg) s h.is_fake,
          fake_read ec m reg h.holds,
          run-Simulates rest ec m s h,
        )
        refl
  run-Simulates (read_byte (negsuc n) ∷ rest) ec m s h =
      rw (read_fake ec (negsuc n) s h.is_fake, fake_read_below ec n, run-Simulates rest ec m s h)
        refl
  run-Simulates (write_byte (pos reg) value ∷ rest) ec m s h =
      let v = min (pos_part value) 255 in
      let ec1 = record ec { fake_regs = set ec.fake_regs reg v } in
      elim (Bool-cases (ltb reg 256 && not (write_fails O (pos reg)))) [
        | inl stores ↦
            let low =
              test_lt reg 256
                ((&&-eq-true (ltb reg 256) (not (write_fails O (pos reg)))).0 stores).0 in
            rw
              (
                write_fake ec (pos reg) value s h.is_fake,
                fake_write_stored ec reg value stores,
                stores,
                run-Simulates rest ec1 (write_memory m reg v) s (stored-Simulates ec m reg v low h),
              )
              refl
        | inr refuses ↦
            rw
              (
                write_fake ec (pos reg) value s h.is_fake,
                fake_write_refused ec reg value refuses,
                refuses,
                run-Simulates rest ec m s h,
              )
              refl
      ]
  run-Simulates (write_byte (negsuc n) value ∷ rest) ec m s h =
      rw
        (
          write_fake ec (negsuc n) value s h.is_fake,
          fake_write_below ec n value,
          run-Simulates rest ec m s h,
        )
        refl

  -- Opening the path `fake` succeeds, and to any sequence of reads and writes the device answers
  -- what a memory of 256 bytes answers that starts with the speeds of the two fans and zeros: a
  -- write stores the nearest byte, the registers that the environment names refuse it, and a
  -- register out of range answers -1.
  pub fake_device_is_memory :
      (accesses : List Access) (s : O.State)
      → let (opened, ec, s1) = ec_open_rw O (codes "fake") s in
        (opened ≡ pos 0)
        × (run_device O accesses ec s1 ≡ run_memory (write_fails O) accesses fresh_memory)
  unfolding ec_open_rw str_eq
  fake_device_is_memory accesses s = (
    refl,
    run-Simulates accesses (ec_open_fake closed_device) fresh_memory s
        (record { is_fake = opened-is_fake; holds = fresh-Holds }),
  )
