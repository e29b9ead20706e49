-- ===== src/Tests/Master.antt =====
-- Runs of the I2C master.
use esp32_s31_linux.Common.{
  ℕ, zero, suc, ◌+◌, ◌*◌, ◌%◌, ◌/◌, ◌≤◌, ◌<◌, ◌≡◌, refl, arith, [], ◌∷◌, true, false, some, length,
  get_or, read_bytes,
}
use esp32_s31_linux.I2c.{Message, no_message, no_error, I2c, Batch, fill}
use esp32_s31_linux.I2c.Bounds.{rx_bytes, fill-Fits}
use esp32_s31_linux.I2c.Bus.{pending, transfer_events, message_events, bytes_from, reads}
use esp32_s31_linux.I2c.Carry.{IsPlaced}
use esp32_s31_linux.I2c.Handler.{set_timing}
use esp32_s31_linux.I2c.Whole.{Separate, lists, lists-pending}
use esp32_s31_linux.I2c.Timing.{set_timing-fits}

-- A register's number is written, and 40 bytes are read: more than one list carries.
abbrev set_register : Message
set_register = record { addr = 0x14; rd = false; ten = false; buf = 0; len = 2 }

abbrev get_bytes : Message
get_bytes = record { addr = 0x14; rd = true; ten = false; buf = 100; len = 40 }

abbrev address : Message → ℕ
address m = m.addr * 2

abbrev touch : I2c
touch = record {
  err = no_error;
  done = false;
  msgs = set_register ∷ get_bytes ∷ [];
  msg = 0;
  pos = 0;
  addressed = false;
  rx = [];
  memory = λ x. x + 7;
  comd = λ x. 0;
  tx_fifo = [];
  rx_fifo = [];
  ctr = 16;
  int_ena = 0;
  int_status = 0x400;
  fifo_conf = 0;
}

touch-lens : (k : ℕ) → (get_or touch.msgs k no_message).len < 65536
touch-lens zero = omega arith
touch-lens (suc zero) = omega arith
touch-lens (suc (suc k)) = omega arith

touch-IsPlaced : IsPlaced touch
touch-IsPlaced = record { within = λ e. cc; fresh = λ e. refl; lens = touch-lens }

below_reads :
    (k x : ℕ)
    → x < 2
    → (get_or touch.msgs k no_message).rd ≡ true
    → (get_or touch.msgs k no_message).buf ≤ x
    → ⊥
below_reads zero x lt r le = cc
below_reads (suc zero) x lt r le = omega arith
below_reads (suc (suc k)) x lt r le = cc

read_writes : true ≡ false → ⊥
read_writes e = cc

few_events : length (pending address touch) ≤ 100
unfolding pending transfer_events message_events bytes_from reads read_bytes
few_events = omega arith

touch-Separate : Separate touch.msgs touch.msgs
touch-Separate = (
  λ e x lt r. below_reads r.index (0 + x) (omega arith) r.rd r.low,
  ((λ e. absurd (read_writes e)), tt),
)

fill-Fits_example :
    (i' : I2c) × (b : Batch) × (fill address touch ≡ some (i', b))
    × (0 < b.cmd)
    × (b.cmd ≤ 8)
    × (length i'.tx_fifo ≡ b.tx)
    × (b.tx ≤ 32)
    × (rx_bytes i'.rx ≡ b.rx)
    × (b.rx ≤ 32)
    × (length i'.rx ≤ 7)
fill-Fits_example = fill-Fits address touch refl

lists-pending_example : lists address 100 [] touch ≡ some (pending address touch)
lists-pending_example =
    lists-pending address 100 [] touch few_events refl touch-IsPlaced touch-Separate

-- 400 kHz from a clock of 40 MHz.
set_timing-fits_example :
    let words = set_timing (λ x. 17) 40000000 400000 in
    let high_word = (get_or words 1 (0, 0)).1 in
    let low_word = (get_or words 0 (0, 0)).1 in
    (high_word % 512 + high_word / 512 ≡ low_word + 1)
    × (low_word < 512)
    × (high_word < 65536)
    × (40000000 ≤ (low_word + (high_word % 512 + high_word / 512) + 1) * 400000)
    × ((low_word + (high_word % 512 + high_word / 512) + 1) * 400000 < 40000000 + 2 * 400000)
set_timing-fits_example =
    set_timing-fits 40000000 400000 (omega arith) (omega arith) (omega arith) (omega arith)
      (λ x. 17)
