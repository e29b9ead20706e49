-- ===== src/I2c/Laws.antt =====
-- What the interrupt handler leaves behind.
use esp32_s31_linux.Common.{ℕ, ◌≤◌, ◌<◌, ◌≡◌, ◌≢◌, ◌↔◌, ◌⊎◌, ◌||◌, length, some, Bool, true, false}
use esp32_s31_linux.I2c.{Message, no_error, I2c, Batch, bit_set, fill, drain, start, status_of}
use esp32_s31_linux.I2c.Handler.{irq_error, is_error}

-- The bits of the status word that report a failure: arbitration (5), the three time-outs (8, 13
-- and 14) and a missing acknowledge (10).
abbrev pub fault : ℕ → Bool
fault word =
    bit_set word 5 || (bit_set word 8 || (bit_set word 10 || (bit_set word 13 || bit_set word 14)))

-- With the end of a list (3) and of a transfer (7), those that the driver enables.
abbrev pub enabled : ℕ → Bool
enabled word = fault word || (bit_set word 3 || bit_set word 7)

-- The waiter is woken, and no interrupt is enabled.
pub record IsOver (i : I2c) : Type 0 where
  pub done : i.done ≡ true
  pub quiet : i.int_ena ≡ 0

-- The status bits are taken, with the error that they give.
abbrev cleared : I2c → I2c
cleared i = record i { err = irq_error (status_of i.int_status) i.err; int_status = 0 }

module _ (addr_byte : Message → ℕ) where
  -- The bytes that came go to the buffers, and the next list is filled, which has at least one
  -- command and at most eight, and started.
  pub record Continued (i i' : I2c) : Type 0 where
    pub filled : I2c
    pub batch : Batch
    pub next : fill addr_byte (drain (cleared i)) ≡ some (filled, batch)
    pub commands : (0 < batch.cmd) × (batch.cmd ≤ 8) × (length filled.tx_fifo ≡ batch.tx)
    pub started : i' ≡ start filled

  -- What a call of the handler is to leave behind.
  pub record Handled (i : I2c) (r : Bool × I2c) : Type 0 where
    pub handled : (r.0 ≡ true) ↔ (i.int_status ≢ 0)
    pub moves : enabled i.int_status ≡ true → IsOver r.1 ⊎ Continued i r.1
    pub failed :
        fault i.int_status ≡ true
        → IsOver r.1
          × (is_error r.1.err ≡ true)
          × (r.1.memory ≡ i.memory)
          × (r.1.msg ≡ i.msg)
          × (r.1.pos ≡ i.pos)
    pub succeeded :
        fault i.int_status ≡ false
        → bit_set i.int_status 3 ≡ false
        → bit_set i.int_status 7 ≡ true
        → i.err ≡ no_error
        → IsOver r.1 × (r.1.err ≡ no_error) × (r.1.memory ≡ (drain (cleared i)).memory)
