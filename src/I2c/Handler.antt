-- ===== src/I2c/Handler.antt =====
-- i2c-esp32s31.c around the lists: the interrupt handler, the start and the end of a transfer, and
-- the reset and the timing of the controller. Linux' wait for the completion stands between the
-- two halves of `esp32s31_i2c_xfer`; the results of the reset controller and of the poll of the
-- bus clear are arguments.
use esp32_s31_linux.Common.{
  ℕ, ◌+◌, ◌-◌, ◌*◌, ◌/◌, ◌%◌, ◌^◌, List, [], ◌∷◌, ◌++◌, Option, none, some, Bool, true, false, not,
  ◌&&◌, ◌||◌, leb, ◌==◌, if◌then◌else◌, min, sub32,
}
use esp32_s31_linux.I2c.{
  Message, Error, no_error, enxio, eagain, etimedout, I2c, Status, bit_set, status_of, drain, start,
  fill,
}

abbrev pub is_error : Error → Bool
is_error no_error = false
is_error enxio = true
is_error eagain = true
is_error etimedout = true

-- The error that the status bits give, else the one that was there.
unfoldable pub irq_error : Status → Error → Error
irq_error status err =
    if status.nack
    then enxio
    else if status.arb_lost
    then eagain
    else if status.timeouts
    then etimedout
    else err

abbrev pub int_mask : ℕ
int_mask = 2 ^ 3 + 2 ^ 5 + 2 ^ 7 + 2 ^ 10 + 2 ^ 8 + 2 ^ 13 + 2 ^ 14

-- `I2C_FIFO_RX_RST` and `I2C_FIFO_TX_RST` are bits 12 and 13: set, then cleared again, they empty
-- the FIFOs.
unfoldable pub reset_fifos : I2c → I2c
reset_fifos i2c = record i2c {
  fifo_conf = i2c.fifo_conf - i2c.fifo_conf / 4096 % 4 * 4096;
  tx_fifo = [];
  rx_fifo = [];
}

unfoldable pub has_ten : List Message → Bool
has_ten [] = false
has_ten (m ∷ ms) = m.ten || has_ten ms

module _ (i2c_8bit_addr_from_msg : Message → ℕ) where
  -- `true` for IRQ_HANDLED. The write to INT_CLR takes the bits that were read back.
  unfoldable pub irq : I2c → Option (Bool × I2c)
  irq i2c =
      let status = status_of i2c.int_status in
      let err = irq_error status i2c.err in
      let cleared = record i2c { err = err; int_status = 0 } in
      let completed = record (if is_error err then cleared else drain cleared) {
        int_ena = 0;
        done = true;
      } in
      if i2c.int_status == 0
      then some (false, i2c)
      else if not (is_error err) && status.end_detect
      then elim (fill i2c_8bit_addr_from_msg (drain cleared)) [
        | none ↦ none
        | some (i2c', b) ↦ some (true, start i2c')
      ]
      else if is_error err || status.trans_complete
      then some (true, completed)
      else some (true, cleared)

  -- Up to the wait: `none` for EOPNOTSUPP, and then `none` if the list does not end.
  unfoldable pub xfer_start : I2c → List Message → Option (Option I2c)
  xfer_start i2c msgs =
      let ready = record i2c {
        msgs = msgs;
        msg = 0;
        pos = 0;
        addressed = false;
        err = no_error;
        done = false;
      } in
      let clear = record (reset_fifos ready) { int_status = 0 } in
      let filled : Option I2c = elim (fill i2c_8bit_addr_from_msg clear) [
        | none ↦ none
        | some (i2c', b) ↦ some (start (record i2c' { int_ena = int_mask }))
      ] in
      if has_ten msgs then none else some filled

-- DIV_ROUND_UP of the 32-bit `unsigned long`.
unfoldable pub half_period : ℕ → ℕ → ℕ
half_period rate bus_freq = (rate + 2 * bus_freq + 2 ^ 32 - 1) % 2 ^ 32 / (2 * bus_freq)

unfoldable pub wait_high : ℕ → ℕ → ℕ
wait_high half bus_freq = if leb 80000 bus_freq then sub32 (half / 2) 2 else half / 4

-- `I2C_SCL_WAIT_HIGH` is bits 15 to 9: FIELD_PREP drops what does not fit.
abbrev pub wait_field : ℕ → ℕ
wait_field wait = wait % 128 * 512

-- The registers that are written, with their words. Linux' `order_base_2` is the binary logarithm,
-- rounded up; `I2C_TO_EN` is bit 5 of the time-out register.
unfoldable pub set_timing : (ℕ → ℕ) → ℕ → ℕ → List (ℕ × ℕ)
set_timing order_base_2 rate bus_freq =
    let half = half_period rate bus_freq in
    let wait = wait_high half bus_freq in
    (0x00, sub32 half 1)
    ∷ (0x38, sub32 half wait + wait_field wait)
    ∷ (0x30, sub32 (half / 4) 1)
    ∷ (0x34, sub32 (half / 2) 1)
    ∷ (0x40, sub32 half 1)
    ∷ (0x44, sub32 half 1)
    ∷ (0x48, sub32 half 1)
    ∷ (0x4c, sub32 half 1)
    ∷ (0x0c, min (order_base_2 (rate / 400)) 31 + 32)
    ∷ (0x78, 23)
    ∷ (0x7c, 23)
    ∷ []

-- The result of `esp32s31_i2c_init`, zero for success, and the words that it writes, each with
-- its register. `timing` is what `set_timing` writes.
unfoldable pub init : ℕ → ℕ → ℕ → Bool → List (ℕ × ℕ) → ℕ × List (ℕ × ℕ)
init asserted deasserted polled clear_bus timing =
    let update : List (ℕ × ℕ) = (0x24, int_mask) ∷ (0x28, 0) ∷ (0x04, 16 + 2048) ∷ [] in
    let set_up : List (ℕ × ℕ) = (0x04, 16) ∷ (0x50, 7 + 7 * 16 + 256 + 512) ∷ (timing ++ update) in
    let pulses : List (ℕ × ℕ) = (0x80, 1 + 9 * 2) ∷ (0x04, 16 + 2048) ∷ [] in
    if not (asserted == 0)
    then (asserted, [])
    else if not (deasserted == 0)
    then (deasserted, [])
    else if not clear_bus
    then (0, set_up)
    else (polled, set_up ++ pulses)

-- After the wait: the error and the controller, with `completed` false for a time-out of the wait.
-- A result without an error is the number of messages.
unfoldable pub xfer_end : Bool → (I2c → I2c) → I2c → Error × I2c
xfer_end completed reset i2c =
    let waited = if completed then i2c else record i2c { int_ena = 0; err = etimedout } in
    let fsm_reset = record waited {
      ctr = if bit_set waited.ctr 10 then waited.ctr else waited.ctr + 1024;
    } in
    elim waited.err [
      | no_error ↦ (no_error, waited)
      | enxio ↦ (enxio, fsm_reset)
      | eagain ↦ (eagain, reset waited)
      | etimedout ↦ (etimedout, reset waited)
    ]
