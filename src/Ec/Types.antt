-- ===== src/Ec/Types.antt =====
-- ec/types.h, and what the backends need of the operating system: files, I/O ports and the
-- environment are an `Os`, whose `State` each call takes and returns.
use acer_nitro_sense_linux.Prelude.{
  Bool, Bytes, List, Option, [], ltb_ℤ, minus_one, negsuc, pos, replicate, true, ℕ, ℤ, ◌%◌, ◌&&◌,
  ◌-◌, ◌≡◌,
}
use mathlib.Core.WellFounded.{Acc}

-- enum ec_backend
pub data EcBackend : Type 0 where
  no_backend ec_sys acpi_ec io_ports fake : EcBackend

-- struct ec_device; `fake_regs` holds 256 bytes.
pub record EcDevice : Type 0 where
  pub backend : EcBackend
  pub fd : ℤ
  pub name : Bytes
  pub fake_regs : List ℕ

-- sizeof(ec->fake_regs) and sizeof(ec->name)
unfoldable pub fake_regs_len : ℕ
fake_regs_len = 256

abbrev pub ec_name_len : ℕ
ec_name_len = 32

-- What `pread` or `pwrite` of one byte gives: the count, whether `errno` is EINTR, and the byte in
-- the buffer.
pub record Transfer : Type 0 where
  pub count : ℤ
  pub interrupted : Bool
  pub byte : ℕ

-- `n < 0 && errno == EINTR`, where the loops around a transfer repeat it.
abbrev pub is_interrupted : Transfer → Bool
is_interrupted t = ltb_ℤ t.count (pos 0) && t.interrupted

-- From `s` the transfer is interrupted, and leaves `later`.
abbrev pub Again : {S : Type 0} → (S → Transfer × S) → S → S → Type 0
Again transfer later s = (is_interrupted (transfer s).0 ≡ true) × (later ≡ (transfer s).1)

-- The loops of ec/file.c have no bound. That they come to an end is what the code relies on: no
-- transfer is interrupted by signals forever, as `reads_settle` and `writes_settle` say.
pub record Os : Type 1 where
  pub State : Type 0
  pub open_path : Bytes → State → ℤ × State
  pub pread : ℤ → ℤ → State → Transfer × State
  pub pwrite : ℤ → ℤ → ℕ → State → Transfer × State
  pub close_fd : ℤ → State → State
  pub inb : ℕ → State → ℕ × State
  pub outb : ℕ → ℕ → State → State
  pub usleep : ℕ → State → State
  pub ioperm : ℕ → Bool → State → ℤ × State
  pub getenv : Bytes → Option Bytes
  pub reads_settle : (fd reg : ℤ) (s : State) → Acc (Again (pread fd reg)) s
  pub writes_settle : (fd reg : ℤ) (byte : ℕ) (s : State) → Acc (Again (pwrite fd reg byte)) s

-- `(uint8_t)value`
unfoldable pub to_byte : ℤ → ℕ
to_byte (pos n) = n % 256
to_byte (negsuc n) = 255 - n % 256

-- `memset(ec, 0, sizeof(*ec))` of ec_open_rw, with the fields that it sets next.
unfoldable pub closed_device : EcDevice
closed_device = record {
  backend = no_backend;
  fd = minus_one;
  name = [];
  fake_regs = replicate fake_regs_len 0;
}
