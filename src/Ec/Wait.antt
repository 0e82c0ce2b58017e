-- ===== src/Ec/Wait.antt =====
-- The waits of ec/io_ports.c, and what a controller that answers in time gets done.
use acer_nitro_sense_linux.Ec.Nearest.{clamped_byte}
use acer_nitro_sense_linux.Ec.Ports.{
  ec_data_port, ec_io_read_byte, ec_io_write_byte, ec_sc_port, ec_status_ibf, ec_status_obf,
  wait_polls, wait_status, wait_status_clear, wait_status_set,
}
use acer_nitro_sense_linux.Ec.Types.{Os, to_byte}
use acer_nitro_sense_linux.Prelude.{
  Bool, List, [], ap, append-nil, append_assoc, arith, if_elim, not, pos, pos_part, refl, suc, sym,
  true, zero, ℕ, ℤ, ◌++◌, ◌<◌, ◌==◌, ◌∙◌, ◌∷◌, ◌≡◌,
}
use acer_nitro_sense_linux.Util.Number.{clamp_int}
use Prim.Native.Nat.{bit_and}

module _ (O : Os) where
  open O use {State, inb, outb, usleep}

  -- The state after `k` polls that were not answered.
  unfoldable pub polled : ℕ → State → State
  polled zero s = s
  polled (suc k) s = polled k (usleep 10 (inb ec_sc_port s).1)

  -- One of the next `polls` reads of the status is ready.
  abbrev pub ReadyWithin : (ℕ → Bool) → ℕ → State → Type 0
  ReadyWithin ready polls s = (k : ℕ) × (k < polls) × (ready (inb ec_sc_port (polled k s)).0 ≡ true)

  wait_status_ready :
      (ready : ℕ → Bool) (polls : ℕ) (s : State)
      → ReadyWithin ready polls s
      → (wait_status O ready polls s).0 ≡ pos 0
  unfolding wait_status polled
  wait_status_ready ready zero s (k, low, seen) = ground (arith, low)
  wait_status_ready ready (suc polls) s (zero, low, seen) = rw seen refl
  wait_status_ready ready (suc polls) s (suc k, low, seen) =
      let Q : ℤ × State → Type 0 = λ r. r.0 ≡ pos 0 in
      if_elim Q (ready (inb ec_sc_port s).0) refl (
        wait_status_ready ready polls (usleep 10 (inb ec_sc_port s).1)
          (k, omega (arith, low), seen))

  abbrev pub is_clear : ℕ → ℕ → Bool
  is_clear mask status = bit_and status mask == 0

  -- The controller takes what it is sent in time, and fills its output for this register in time.
  abbrev pub TakesInTime : Type 0
  TakesInTime = (s : State) → ReadyWithin (is_clear ec_status_ibf) wait_polls s

  abbrev pub FillsInTime : ℤ → Type 0
  FillsInTime reg =
      (s : State)
      → ReadyWithin (λ status. not (is_clear ec_status_obf status)) wait_polls
          (outb (to_byte reg) ec_data_port s)

  clear_in_time : (s : State) → TakesInTime → (wait_status_clear O ec_status_ibf s).0 ≡ pos 0
  unfolding wait_status_clear
  clear_in_time s takes = wait_status_ready (is_clear ec_status_ibf) wait_polls s (takes s)

  set_in_time :
      (reg : ℤ) (s : State)
      → FillsInTime reg
      → (wait_status_set O ec_status_obf (outb (to_byte reg) ec_data_port s)).0 ≡ pos 0
  unfolding wait_status_set
  set_in_time reg s fills =
      wait_status_ready (λ status. not (is_clear ec_status_obf status)) wait_polls
        (outb (to_byte reg) ec_data_port s) (fills s)

  -- The bytes that were sent to the ports so far, each with its port: `outb` adds one, and nothing
  -- else changes them.
  pub record IsPortLog (sent : State → List (ℕ × ℕ)) : Type 0 where
    pub out_adds :
        (byte port : ℕ) (s : State) → sent (outb byte port s) ≡ sent s ++ ((port, byte) ∷ [])
    pub in_keeps : (port : ℕ) (s : State) → sent (inb port s).1 ≡ sent s
    pub sleep_keeps : (micros : ℕ) (s : State) → sent (usleep micros s) ≡ sent s

  module _ (sent : State → List (ℕ × ℕ)) (log : IsPortLog sent) where
    wait-sent :
        (ready : ℕ → Bool) (polls : ℕ) (s : State) → sent (wait_status O ready polls s).1 ≡ sent s
    unfolding wait_status
    wait-sent ready zero s = refl
    wait-sent ready (suc polls) s =
        let Q : ℤ × State → Type 0 = λ r. sent r.1 ≡ sent s in
        let (status, s1) = inb ec_sc_port s in
        if_elim Q (ready status) (log.in_keeps ec_sc_port s) (
          wait-sent ready polls (usleep 10 s1)
          ∙ (log.sleep_keeps 10 s1 ∙ log.in_keeps ec_sc_port s))

    clear-sent : (s : State) → sent (wait_status_clear O ec_status_ibf s).1 ≡ sent s
    unfolding wait_status_clear
    clear-sent s = wait-sent (is_clear ec_status_ibf) wait_polls s

    set-sent : (s : State) → sent (wait_status_set O ec_status_obf s).1 ≡ sent s
    unfolding wait_status_set
    set-sent s = wait-sent (λ status. not (is_clear ec_status_obf status)) wait_polls s

    -- A byte that is sent after some others.
    sent_next :
        (s s1 : State) (bytes : List (ℕ × ℕ)) (port byte : ℕ)
        → sent s1 ≡ sent s ++ bytes
        → sent (outb byte port s1) ≡ sent s ++ (bytes ++ ((port, byte) ∷ []))
    sent_next s s1 bytes port byte h =
        log.out_adds byte port s1
        ∙ (ap (λ x. x ++ ((port, byte) ∷ [])) h ∙ append_assoc (sent s) bytes ((port, byte) ∷ []))

    -- The state after the command and the address, each with the wait before it.
    abbrev addressed : ℕ → ℤ → State → State
    addressed command reg s =
        outb (to_byte reg) ec_data_port
          (wait_status_clear O ec_status_ibf
            (outb command ec_sc_port (wait_status_clear O ec_status_ibf s).1)).1

    addressed-sent :
        (command : ℕ) (reg : ℤ) (s : State)
        → sent (addressed command reg s)
          ≡ sent s ++ ((ec_sc_port, command) ∷ (ec_data_port, to_byte reg) ∷ [])
    addressed-sent command reg s =
        let s1 = (wait_status_clear O ec_status_ibf s).1 in
        let first =
          sent_next s s1 [] ec_sc_port command (clear-sent s ∙ sym (append-nil (sent s))) in
        sent_next s (wait_status_clear O ec_status_ibf (outb command ec_sc_port s1)).1
          ((ec_sc_port, command) ∷ []) ec_data_port (to_byte reg)
          (clear-sent (outb command ec_sc_port s1) ∙ first)

    -- A read has sent the read command and the register, and answers the byte that the data port
    -- then gave.
    abbrev pub IsReadBack : ℤ → State → ℤ × State → Type 0
    IsReadBack reg s r =
        (s1 : State) × (sent s1 ≡ sent s ++ ((ec_sc_port, 0x80) ∷ (ec_data_port, to_byte reg) ∷ []))
        × (r ≡ (pos (inb ec_data_port s1).0, (inb ec_data_port s1).1))

    -- A write succeeded and has sent the write command, the register and the nearest byte.
    abbrev pub IsSent : ℤ → ℤ → State → ℤ × State → Type 0
    IsSent reg value s (answer, s') =
        (answer ≡ pos 0)
        × (sent s'
            ≡ sent s
              ++ ((ec_sc_port, 0x81)
                  ∷ (ec_data_port, to_byte reg)
                  ∷ (ec_data_port, pos_part (clamp_int value (pos 0) (pos 255)))
                  ∷ []))

    -- If within 10,000 polls the controller always takes what it was sent, and within 10,000
    -- polls fills its output for a register that it was given: a read sends the command 0x80 and
    -- the register, in this order, and answers the byte that the data port gives after that; a
    -- write sends the command 0x81, the register and the byte nearest to the value, and answers
    -- 0.
    pub controller_in_time :
        (reg value : ℤ) (s : State)
        → TakesInTime
        → FillsInTime reg
        → IsReadBack reg s (ec_io_read_byte O reg s)
          × IsSent reg value s (ec_io_write_byte O reg value s)
    unfolding ec_io_read_byte ec_io_write_byte
    controller_in_time reg value s takes fills =
        let r1 = (wait_status_clear O ec_status_ibf s).1 in
        let r2 = (wait_status_clear O ec_status_ibf (outb 0x80 ec_sc_port r1)).1 in
        let r3 = (wait_status_set O ec_status_obf (addressed 0x80 reg s)).1 in
        let w2 = (wait_status_clear O ec_status_ibf (addressed 0x81 reg s)).1 in
        let free = clear_in_time s takes in
        (
          (
            r3,
            set-sent (addressed 0x80 reg s) ∙ addressed-sent 0x80 reg s,
            rw (free, clear_in_time (outb 0x80 ec_sc_port r1) takes, set_in_time reg r2 fills) refl,
          ),
          rw
              (
                free,
                clear_in_time (outb 0x81 ec_sc_port r1) takes,
                clear_in_time (addressed 0x81 reg s) takes,
                ← clamped_byte value,
              )
              (
                refl,
                sent_next s w2 ((ec_sc_port, 0x81) ∷ (ec_data_port, to_byte reg) ∷ []) ec_data_port
                    (to_byte (clamp_int value (pos 0) (pos 255)))
                    (clear-sent (addressed 0x81 reg s) ∙ addressed-sent 0x81 reg s),
              ),
        )
