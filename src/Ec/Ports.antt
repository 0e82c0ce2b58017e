-- ===== src/Ec/Ports.antt =====
-- ec/io_ports.c on x86: the command protocol of the embedded controller on its two I/O ports.
use acer_nitro_sense_linux.Ec.Types.{EcDevice, Os, ec_name_len, io_ports, to_byte}
use acer_nitro_sense_linux.Prelude.{
  Bool, codes, false, if◌then◌else◌, ltb_ℤ, minus_one, not, pos, some, suc, true, zero, ℕ, ℤ, ◌==◌,
}
use acer_nitro_sense_linux.Util.Number.{clamp_int}
use acer_nitro_sense_linux.Util.Text.{string_copy}
use Prim.Native.Nat.{bit_and}

abbrev pub ec_sc_port : ℕ
ec_sc_port = 0x66

abbrev pub ec_data_port : ℕ
ec_data_port = 0x62

abbrev ec_cmd_read : ℕ
ec_cmd_read = 0x80

abbrev ec_cmd_write : ℕ
ec_cmd_write = 0x81

abbrev pub ec_status_obf : ℕ
ec_status_obf = 1

abbrev pub ec_status_ibf : ℕ
ec_status_ibf = 2

-- The polls of one wait.
unfoldable pub wait_polls : ℕ
wait_polls = 10000

module _ (O : Os) where
  open O use {State, inb, outb, usleep, ioperm}

  -- A wait until the status satisfies `ready`, for at most `polls` reads of it.
  unfoldable pub wait_status : (ℕ → Bool) → ℕ → State → ℤ × State
  wait_status ready zero s = (minus_one, s)
  wait_status ready (suc polls) s =
      let (status, s1) = inb ec_sc_port s in
      let later = wait_status ready polls (usleep 10 s1) in
      if ready status then (pos 0, s1) else later

  unfoldable pub wait_status_clear : ℕ → State → ℤ × State
  wait_status_clear mask s = wait_status (λ status. bit_and status mask == 0) wait_polls s

  unfoldable pub wait_status_set : ℕ → State → ℤ × State
  wait_status_set mask s = wait_status (λ status. not (bit_and status mask == 0)) wait_polls s

  unfoldable pub ec_io_read_byte : ℤ → State → ℤ × State
  ec_io_read_byte reg s =
      let (free, s1) = wait_status_clear ec_status_ibf s in
      let (taken, s2) = wait_status_clear ec_status_ibf (outb ec_cmd_read ec_sc_port s1) in
      let (full, s3) = wait_status_set ec_status_obf (outb (to_byte reg) ec_data_port s2) in
      let (byte, s4) = inb ec_data_port s3 in
      if ltb_ℤ free (pos 0)
      then (minus_one, s1)
      else if ltb_ℤ taken (pos 0)
      then (minus_one, s2)
      else if ltb_ℤ full (pos 0)
      then (minus_one, s3)
      else (pos byte, s4)

  unfoldable pub ec_io_write_byte : ℤ → ℤ → State → ℤ × State
  ec_io_write_byte reg value s =
      let (free, s1) = wait_status_clear ec_status_ibf s in
      let (taken, s2) = wait_status_clear ec_status_ibf (outb ec_cmd_write ec_sc_port s1) in
      let (addressed, s3) = wait_status_clear ec_status_ibf (outb (to_byte reg) ec_data_port s2) in
      let byte = to_byte (clamp_int value (pos 0) (pos 255)) in
      if ltb_ℤ free (pos 0)
      then (minus_one, s1)
      else if ltb_ℤ taken (pos 0)
      then (minus_one, s2)
      else if ltb_ℤ addressed (pos 0)
      then (minus_one, s3)
      else (pos 0, outb byte ec_data_port s3)

  unfoldable pub ec_open_io_ports : EcDevice → State → ℤ × EcDevice × State
  ec_open_io_ports ec s =
      let (data_granted, s1) = ioperm ec_data_port true s in
      let (sc_granted, s2) = ioperm ec_sc_port true s1 in
      let (_, s3) = ioperm ec_data_port false s2 in
      if ltb_ℤ data_granted (pos 0)
      then (minus_one, ec, s1)
      else if ltb_ℤ sc_granted (pos 0)
      then (minus_one, ec, s3)
      else (
        pos 0,
        record ec {
          fd = minus_one;
          backend = io_ports;
          name = (string_copy ec.name ec_name_len (some (codes "io-ports"))).1;
        },
        s2,
      )

  unfoldable pub ec_io_close : State → State
  ec_io_close s =
      let (_, s1) = ioperm ec_data_port false s in let (_, s2) = ioperm ec_sc_port false s1 in s2
