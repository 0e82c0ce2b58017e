-- ===== src/Tests/Device.antt =====
-- The backends of the EC, on a system that interrupts a transfer as often as its state says, and
-- whose controller is always ready.
use acer_nitro_sense_linux.Ec.Device.{ec_open_rw}
use acer_nitro_sense_linux.Ec.Fake.{write_fails}
use acer_nitro_sense_linux.Ec.File.{ec_file_read_byte, ec_file_write_byte}
use acer_nitro_sense_linux.Ec.Memory.{write_memory}
use acer_nitro_sense_linux.Ec.Ports.{ec_io_read_byte, ec_io_write_byte, ec_sc_port, wait_polls}
use acer_nitro_sense_linux.Ec.Refine.{
  Access, fake_device_is_memory, fresh_memory, read_byte, run_device, run_memory, write_byte,
}
use acer_nitro_sense_linux.Ec.Stored.{IsRead, IsRegisterFile, IsWritten, file_device_stores}
use acer_nitro_sense_linux.Ec.Types.{Again, EcDevice, Os, Transfer, ec_sys, is_interrupted}
use acer_nitro_sense_linux.Ec.Wait.{
  FillsInTime, IsPortLog, IsReadBack, IsSent, TakesInTime, controller_in_time, polled,
}
use acer_nitro_sense_linux.Prelude.{
  List, [], arith, codes, eqb_ℤ, false, if_elim, if◌then◌else◌, minus_one, none, pos, refl, suc,
  true, zero, ℕ, ℤ, ◌++◌, ◌<◌, ◌==◌, ◌∷◌, ◌≡◌, ◌≢◌,
}
use mathlib.Core.WellFounded.{Acc}

-- The interrupts to come, the bytes that were written to the file, the last one first, and what
-- was sent to the ports.
record Bus : Type 0 where
  signals : ℕ
  written : List (ℤ × ℕ)
  port_bytes : List (ℕ × ℕ)

unfoldable stored_byte : List (ℤ × ℕ) → ℤ → ℕ
stored_byte [] reg = 42
stored_byte ((r, byte) ∷ written) reg =
    let earlier = stored_byte written reg in if eqb_ℤ reg r then byte else earlier

abbrev signalled : Transfer
signalled = record { count = minus_one; interrupted = true; byte = 0 }

abbrev whole : ℕ → Transfer
whole byte = record { count = pos 1; interrupted = false; byte = byte }

unfoldable bench_pread : ℤ → ℤ → Bus → Transfer × Bus
bench_pread fd reg bus = elim (bus.signals) [
  | zero ↦ (whole (stored_byte bus.written reg), bus)
  | suc n ↦ (signalled, record bus { signals = n })
]

unfoldable bench_pwrite : ℤ → ℤ → ℕ → Bus → Transfer × Bus
bench_pwrite fd reg byte bus = elim (bus.signals) [
  | zero ↦ (whole byte, record bus { written = (reg, byte) ∷ bus.written })
  | suc n ↦ (signalled, record bus { signals = n })
]

settles :
    (transfer : Bus → Transfer × Bus)
    → ((s : Bus) → is_interrupted (transfer s).0 ≡ true → (transfer s).1.signals < s.signals)
    → (k : ℕ) (s : Bus) → s.signals < k
    → Acc (Again transfer) s
settles transfer falls zero s h = absurd (omega (arith, h))
settles transfer falls (suc k) s h =
    Acc.intro s (λ later again.
      settles transfer falls k later (rw again.1 (omega (arith, falls s again.0, h))))

abbrev bus_of : ℕ → List (ℤ × ℕ) → List (ℕ × ℕ) → Bus
bus_of n m l = record { signals = n; written = m; port_bytes = l }

read_falls :
    (fd reg : ℤ) (n : ℕ) (m : List (ℤ × ℕ)) (l : List (ℕ × ℕ))
    → is_interrupted (bench_pread fd reg (bus_of n m l)).0 ≡ true
    → (bench_pread fd reg (bus_of n m l)).1.signals < n
unfolding bench_pread
read_falls fd reg zero m l h = cc h
read_falls fd reg (suc n) m l h = omega arith

write_falls :
    (fd reg : ℤ) (byte n : ℕ) (m : List (ℤ × ℕ)) (l : List (ℕ × ℕ))
    → is_interrupted (bench_pwrite fd reg byte (bus_of n m l)).0 ≡ true
    → (bench_pwrite fd reg byte (bus_of n m l)).1.signals < n
unfolding bench_pwrite
write_falls fd reg byte zero m l h = cc h
write_falls fd reg byte (suc n) m l h = omega arith

abbrev bench_os : Os
bench_os = record {
  State = Bus;
  open_path = λ path s. (pos 3, s);
  pread = bench_pread;
  pwrite = bench_pwrite;
  close_fd = λ fd s. s;
  inb = λ port s. if port == ec_sc_port then (1, s) else (42, s);
  outb = λ byte port s. record s { port_bytes = s.port_bytes ++ ((port, byte) ∷ []) };
  usleep = λ micros s. s;
  ioperm = λ port on s. (pos 0, s);
  getenv = λ name. none;
  reads_settle = λ fd reg s.
      settles (bench_pread fd reg) (λ b. read_falls fd reg b.signals b.written b.port_bytes)
        (suc s.signals) s (omega arith);
  writes_settle = λ fd reg byte s.
      settles (bench_pwrite fd reg byte)
        (λ b. write_falls fd reg byte b.signals b.written b.port_bytes) (suc s.signals) s
        (omega arith);
}

-- Five interrupts are to come.
abbrev bus : Bus
bus = record { signals = 5; written = []; port_bytes = [] }

abbrev some_accesses : List Access
some_accesses =
    write_byte (pos 0x22) (pos 300)
    ∷ read_byte (pos 0x22)
    ∷ read_byte (pos 0x13)
    ∷ read_byte (pos 300)
    ∷ []

fake_device_is_memory_example :
    let (opened, ec, s) = ec_open_rw bench_os (codes "fake") bus in
    (opened ≡ pos 0)
    × (run_device bench_os some_accesses ec s
        ≡ run_memory (write_fails bench_os) some_accesses fresh_memory)
fake_device_is_memory_example = fake_device_is_memory bench_os some_accesses bus

abbrev answers : List ℤ
answers = run_memory (λ reg. false) some_accesses fresh_memory

answers_test : answers ≡ pos 0 ∷ pos 255 ∷ pos 184 ∷ minus_one ∷ []
unfolding answers run_memory fresh_memory write_memory
answers_test = refl

abbrev file_device : EcDevice
file_device = record { backend = ec_sys; fd = pos 3; name = codes "ec-sys"; fake_regs = [] }

abbrev bench_content : Bus → ℤ → ℕ
bench_content s reg = stored_byte s.written reg

read_keeps_parts :
    (fd reg a : ℤ) (n : ℕ) (m : List (ℤ × ℕ)) (l : List (ℕ × ℕ))
    → bench_content (bench_pread fd reg (bus_of n m l)).1 a ≡ stored_byte m a
unfolding bench_pread
read_keeps_parts fd reg a zero m l = refl
read_keeps_parts fd reg a (suc n) m l = refl

read_gives_parts :
    (fd reg : ℤ) (n : ℕ) (m : List (ℤ × ℕ)) (l : List (ℕ × ℕ))
    → (bench_pread fd reg (bus_of n m l)).0.count ≡ pos 1
    → (bench_pread fd reg (bus_of n m l)).0.byte ≡ stored_byte m reg
unfolding bench_pread
read_gives_parts fd reg zero m l h = refl
read_gives_parts fd reg (suc n) m l h = cc h

write_stores_parts :
    (fd reg a : ℤ) (byte n : ℕ) (m : List (ℤ × ℕ)) (l : List (ℕ × ℕ))
    → (bench_pwrite fd reg byte (bus_of n m l)).0.count ≡ pos 1
    → bench_content (bench_pwrite fd reg byte (bus_of n m l)).1 a
      ≡ (if eqb_ℤ a reg then byte else stored_byte m a)
unfolding bench_pwrite stored_byte
write_stores_parts fd reg a byte zero m l h = refl
write_stores_parts fd reg a byte (suc n) m l h = cc h

write_fails_parts :
    (fd reg a : ℤ) (byte n : ℕ) (m : List (ℤ × ℕ)) (l : List (ℕ × ℕ))
    → (bench_pwrite fd reg byte (bus_of n m l)).0.count ≢ pos 1
    → bench_content (bench_pwrite fd reg byte (bus_of n m l)).1 a ≡ stored_byte m a
unfolding bench_pwrite
write_fails_parts fd reg a byte zero m l h = absurd (h refl)
write_fails_parts fd reg a byte (suc n) m l h = refl

bench_file : IsRegisterFile bench_os (pos 3) bench_content
bench_file = record {
  read_keeps = λ reg a s. read_keeps_parts (pos 3) reg a s.signals s.written s.port_bytes;
  read_gives = λ reg s. read_gives_parts (pos 3) reg s.signals s.written s.port_bytes;
  write_stores =
      λ reg a byte s. write_stores_parts (pos 3) reg a byte s.signals s.written s.port_bytes;
  write_fails =
      λ reg a byte s. write_fails_parts (pos 3) reg a byte s.signals s.written s.port_bytes;
}

file_device_stores_example :
    IsRead bench_os file_device bench_content
      (pos 7)
      bus
      (ec_file_read_byte bench_os file_device (pos 7) bus)
    × IsWritten bench_os file_device bench_content
        (pos 7)
        (pos 300)
        bus
        (ec_file_write_byte bench_os file_device (pos 7) (pos 300) bus)
file_device_stores_example =
    file_device_stores bench_os file_device bench_content bench_file (pos 7) (pos 300) bus

bench_log : IsPortLog bench_os (λ s. s.port_bytes)
bench_log = record {
  out_adds = λ byte port s. refl;
  in_keeps = λ port s.
      if_elim (λ (r : ℕ × Bus). r.1.port_bytes ≡ s.port_bytes) (port == ec_sc_port) refl refl;
  sleep_keeps = λ micros s. refl;
}

takes : TakesInTime bench_os
unfolding polled wait_polls
takes s = (0, omega arith, refl)

fills : FillsInTime bench_os (pos 7)
unfolding polled wait_polls
fills s = (0, omega arith, refl)

controller_in_time_example :
    IsReadBack bench_os
      (λ s. s.port_bytes)
      bench_log
      (pos 7)
      bus
      (ec_io_read_byte bench_os (pos 7) bus)
    × IsSent bench_os
        (λ s. s.port_bytes)
        bench_log
        (pos 7)
        (pos 300)
        bus
        (ec_io_write_byte bench_os (pos 7) (pos 300) bus)
controller_in_time_example =
    controller_in_time bench_os (λ s. s.port_bytes) bench_log (pos 7) (pos 300) bus takes fills
