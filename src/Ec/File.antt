-- ===== src/Ec/File.antt =====
-- ec/file.c: the embedded controller behind a file of the kernel.
use acer_nitro_sense_linux.Ec.Types.{
  Again, EcBackend, EcDevice, Os, Transfer, ec_name_len, is_interrupted, to_byte,
}
use acer_nitro_sense_linux.Prelude.{
  Bool-cases, Bytes, eqb_ℤ, if◌then◌else◌, inl, inr, leb_ℤ, ltb_ℤ, minus_one, not, pos, refl, some,
  ℤ,
}
use acer_nitro_sense_linux.Util.Number.{clamp_int}
use acer_nitro_sense_linux.Util.Text.{string_copy}
use mathlib.Core.WellFounded.{Acc}

-- The loop around a transfer, which an interrupt by a signal repeats.
unfoldable pub retry_interrupted :
    {S : Type 0} (transfer : S → Transfer × S) (s : S) → Acc (Again transfer) s → Transfer × S
retry_interrupted transfer s (Acc.intro _ later) =
    elim (Bool-cases (is_interrupted (transfer s).0)) [
      | inl busy ↦ retry_interrupted transfer (transfer s).1 (later (transfer s).1 (busy, refl))
      | inr over ↦ transfer s
    ]

module _ (O : Os) where
  open O use {State, open_path, pread, pwrite, close_fd, reads_settle, writes_settle}

  unfoldable pub ec_file_read_byte : EcDevice → ℤ → State → ℤ × State
  ec_file_read_byte ec reg s =
      let (t, s1) = retry_interrupted (pread ec.fd reg) s (reads_settle ec.fd reg s) in
      (if not (eqb_ℤ t.count (pos 1)) then minus_one else pos t.byte, s1)

  unfoldable pub ec_file_write_byte : EcDevice → ℤ → ℤ → State → ℤ × State
  ec_file_write_byte ec reg value s =
      let byte = to_byte (clamp_int value (pos 0) (pos 255)) in
      let (t, s1) = retry_interrupted (pwrite ec.fd reg byte) s (writes_settle ec.fd reg byte s) in
      (if eqb_ℤ t.count (pos 1) then pos 0 else minus_one, s1)

  unfoldable pub ec_open_file_backend :
      Bytes → EcBackend → Bytes → EcDevice → State → ℤ × EcDevice × State
  ec_open_file_backend path kind label ec s =
      let (fd, s1) = open_path path s in
      let ec1 = record ec { fd = fd } in
      if ltb_ℤ fd (pos 0) then (minus_one, ec1, s1) else (
        pos 0,
        record ec1 { backend = kind; name = (string_copy ec.name ec_name_len (some label)).1 },
        s1,
      )

  unfoldable pub ec_file_close : EcDevice → State → State
  ec_file_close ec s = if leb_ℤ (pos 0) ec.fd then close_fd ec.fd s else s
