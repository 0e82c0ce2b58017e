-- ===== src/Ec/Stored.antt =====
-- ec/file.c over a file that holds the registers: an interrupted transfer is repeated and does
-- nothing twice.
use acer_nitro_sense_linux.Ec.File.{ec_file_read_byte, ec_file_write_byte, retry_interrupted}
use acer_nitro_sense_linux.Ec.Nearest.{clamped_byte}
use acer_nitro_sense_linux.Ec.Types.{Again, EcDevice, Os, Transfer, is_interrupted, to_byte}
use acer_nitro_sense_linux.Prelude.{
  Bool-cases, ap, arith, eqb_ℤ, eqb_ℤ_iff, false, if◌then◌else◌, inl, inr, minus_one, not, pos,
  pos_part, refl, true, ℕ, ℤ, ◌∙◌, ◌≡◌, ◌≢◌, ◌⊎◌,
}
use acer_nitro_sense_linux.Util.Number.{clamp_int}
use mathlib.Core.WellFounded.{Acc}

-- The loop keeps an invariant of the repeated transfers, and its result is that of a transfer that
-- was not interrupted.
pub retry_result :
    {S : Type 0} (transfer : S → Transfer × S) (P : S → Type 0) (Q : Transfer × S → Type 0)
    → ((s : S) → P s → is_interrupted (transfer s).0 ≡ true → P (transfer s).1)
    → ((s : S) → P s → is_interrupted (transfer s).0 ≡ false → Q (transfer s))
    → (s : S) (a : Acc (Again transfer) s) → P s
    → Q (retry_interrupted transfer s a)
unfolding retry_interrupted
retry_result transfer P Q keep done s (Acc.intro _ later) h =
    elim (Bool-cases (is_interrupted (transfer s).0))
      as (λ c. Q (elim c [
        | inl busy ↦ retry_interrupted transfer (transfer s).1 (later (transfer s).1 (busy, refl))
        | inr over ↦ transfer s
      ])) [
        | inl busy ↦
            retry_result transfer P Q keep done (transfer s).1 (later (transfer s).1 (busy, refl))
              (keep s h busy)
        | inr over ↦ done s h over
      ]

-- A file of which every byte is a register: `content` is what it holds. A transfer whose count is
-- 1 has read or written one byte, and any other has done nothing.
pub record IsRegisterFile (O : Os) (fd : ℤ) (content : O.State → ℤ → ℕ) : Type 0 where
  pub read_keeps : (reg a : ℤ) (s : O.State) → content (O.pread fd reg s).1 a ≡ content s a
  pub read_gives :
      (reg : ℤ) (s : O.State)
      → (O.pread fd reg s).0.count ≡ pos 1
      → (O.pread fd reg s).0.byte ≡ content s reg
  pub write_stores :
      (reg a : ℤ) (byte : ℕ) (s : O.State)
      → (O.pwrite fd reg byte s).0.count ≡ pos 1
      → content (O.pwrite fd reg byte s).1 a ≡ (if eqb_ℤ a reg then byte else content s a)
  pub write_fails :
      (reg a : ℤ) (byte : ℕ) (s : O.State)
      → (O.pwrite fd reg byte s).0.count ≢ pos 1
      → content (O.pwrite fd reg byte s).1 a ≡ content s a

interrupted_count : (t : Transfer) → is_interrupted t ≡ true → t.count ≢ pos 1
interrupted_count t h e = ground arith

module _ (O : Os) (ec : EcDevice) (content : O.State → ℤ → ℕ) where
  -- The file of `s'` holds what that of `s` holds.
  abbrev pub IsSameFile : O.State → O.State → Type 0
  IsSameFile s s' = (a : ℤ) → content s' a ≡ content s a

  -- What a read answers: the register, or -1, and the file is as before.
  abbrev pub IsRead : ℤ → O.State → ℤ × O.State → Type 0
  IsRead reg s (answer, s') =
      ((answer ≡ pos (content s reg)) ⊎ (answer ≡ minus_one)) × IsSameFile s s'

  -- What a write answers: 0 and the nearest byte is in the register, or -1 and the file is as
  -- before.
  abbrev pub IsWritten : ℤ → ℤ → O.State → ℤ × O.State → Type 0
  IsWritten reg value s (answer, s') =
      ((answer ≡ pos 0)
        × ((a : ℤ)
            → content s' a ≡ (
                if eqb_ℤ a reg then pos_part (clamp_int value (pos 0) (pos 255)) else content s a)))
      ⊎ ((answer ≡ minus_one) × IsSameFile s s')

  access-IsRead :
      (file : IsRegisterFile O ec.fd content) (reg : ℤ) (s : O.State)
      → IsRead reg s (ec_file_read_byte O ec reg s)
  unfolding ec_file_read_byte
  access-IsRead file reg s =
      retry_result (O.pread ec.fd reg) (IsSameFile s)
        (λ (t, s').
          IsRead reg s (if not (eqb_ℤ t.count (pos 1)) then minus_one else pos t.byte, s'))
        (λ s1 h _ a. file.read_keeps reg a s1 ∙ h a)
        (λ s1 h _.
          let t = (O.pread ec.fd reg s1).0 in
          let same : IsSameFile s (O.pread ec.fd reg s1).1 = λ a. file.read_keeps reg a s1 ∙ h a in
          elim (Bool-cases (eqb_ℤ t.count (pos 1))) [
            | inl one ↦
                let given = file.read_gives reg s1 ((eqb_ℤ_iff t.count (pos 1)).0 one) in
                rw one (inl (ap pos (given ∙ h reg)), same)
            | inr other ↦ rw other (inr refl, same)
          ])
        s (O.reads_settle ec.fd reg s) (λ a. refl)

  access-IsWritten :
      (file : IsRegisterFile O ec.fd content) (reg value : ℤ) (s : O.State)
      → IsWritten reg value s (ec_file_write_byte O ec reg value s)
  unfolding ec_file_write_byte
  access-IsWritten file reg value s =
      let byte = to_byte (clamp_int value (pos 0) (pos 255)) in
      retry_result (O.pwrite ec.fd reg byte) (IsSameFile s)
        (λ (t, s'). IsWritten reg value s (if eqb_ℤ t.count (pos 1) then pos 0 else minus_one, s'))
        (λ s1 h busy a.
          file.write_fails reg a byte s1 (interrupted_count (O.pwrite ec.fd reg byte s1).0 busy)
          ∙ h a)
        (λ s1 h _.
          let t = (O.pwrite ec.fd reg byte s1).0 in
          elim (Bool-cases (eqb_ℤ t.count (pos 1))) [
            | inl one ↦
                let stored =
                  λ (a : ℤ). file.write_stores reg a byte s1 ((eqb_ℤ_iff t.count (pos 1)).0 one) in
                rw one (inl (refl, λ a. stored a ∙ stored_value a s1 h))
            | inr other ↦
                let failed =
                  λ (e : t.count ≡ pos 1). absurd (cc (other, (eqb_ℤ_iff t.count (pos 1)).1 e)) in
                rw other (inr (refl, λ a. file.write_fails reg a byte s1 failed ∙ h a))
          ])
        s (O.writes_settle ec.fd reg byte s) (λ a. refl)
    where
      stored_value :
          (a : ℤ) (s1 : O.State)
          → IsSameFile s s1
          → (if eqb_ℤ a reg then to_byte (clamp_int value (pos 0) (pos 255)) else content s1 a)
            ≡ (if eqb_ℤ a reg then pos_part (clamp_int value (pos 0) (pos 255)) else content s a)
      stored_value a s1 h = rw (clamped_byte value, h a) refl

  -- Over a file that holds the registers, however often a signal interrupts the transfers: a read
  -- answers the register or -1 and changes nothing; a write answers 0 and puts the nearest byte
  -- into that register alone, or answers -1 and changes nothing.
  pub file_device_stores :
      IsRegisterFile O ec.fd content
      → (reg value : ℤ) (s : O.State)
      → IsRead reg s (ec_file_read_byte O ec reg s)
        × IsWritten reg value s (ec_file_write_byte O ec reg value s)
  file_device_stores file reg value s =
      (access-IsRead file reg s, access-IsWritten file reg value s)
