-- ===== src/I2c.antt =====
-- linux/drivers/i2c/busses/i2c-esp32s31.c: the lists of commands that carry the messages of a
-- transfer, and the interrupt handler that runs one list after the other. A command register is
-- the word that is written to it; the fields of a word do not overlap, so that `|` of them is a
-- sum. `tx_fifo` holds what was written to the data register since the controller last ran,
-- `rx_fifo` what it will give to reads of it. The buffers of the messages lie in one memory, and
-- `num` is the length of `msgs`.
pub mod Bus
pub mod Bounds
pub mod Commands
pub mod Carry
pub mod Transfer
pub mod Handler
pub mod Whole
pub mod Laws
pub mod Timing
use esp32_s31_linux.Common.{
  ℕ, zero, suc, ◌+◌, ◌*◌, ◌/◌, ◌%◌, ◌^◌, List, [], ◌∷◌, ◌++◌, Option, none, some, Bool, true, false,
  not, ◌&&◌, ◌||◌, ltb, ◌==◌, if◌then◌else◌, min, length, get_or, sub32, Mem, update,
}

-- `struct i2c_msg` of Linux: the flags `I2C_M_RD` and `I2C_M_TEN`, the address of the buffer, and
-- its length.
pub record Message : Type 0 where
  pub addr : ℕ
  pub rd : Bool
  pub ten : Bool
  pub buf : ℕ
  pub len : ℕ

abbrev pub no_message : Message
no_message = record { addr = 0; rd = false; ten = false; buf = 0; len = 0 }

pub record Rx : Type 0 where
  pub buf : ℕ
  pub len : ℕ

pub data Error : Type 0 where
  no_error : Error
  enxio : Error
  eagain : Error
  etimedout : Error

-- `struct esp32s31_i2c` and the registers behind `base`; `rx` has the entries below `nrx`.
pub record I2c : Type 0 where
  pub err : Error
  pub done : Bool
  pub msgs : List Message
  pub msg : ℕ
  pub pos : ℕ
  pub addressed : Bool
  pub rx : List Rx
  pub memory : Mem
  pub comd : Mem
  pub tx_fifo : List ℕ
  pub rx_fifo : List ℕ
  pub ctr : ℕ
  pub int_ena : ℕ
  pub int_status : ℕ
  pub fifo_conf : ℕ

-- `struct esp32s31_i2c_batch`.
pub record Batch : Type 0 where
  pub cmd : ℕ
  pub tx : ℕ
  pub rx : ℕ

abbrev pub op_write : ℕ
op_write = 1

abbrev pub op_stop : ℕ
op_stop = 2

abbrev pub op_read : ℕ
op_read = 3

abbrev pub op_end : ℕ
op_end = 4

abbrev pub op_rstart : ℕ
op_rstart = 6

abbrev pub cmd_ack_check : ℕ
cmd_ack_check = 256

abbrev pub cmd_ack_value : ℕ
cmd_ack_value = 1024

abbrev pub ncmds : ℕ
ncmds = 8

abbrev pub fifo_size : ℕ
fifo_size = 32

-- `I2C_CMD_OP` is bits 13 to 11, `I2C_CMD_BYTES` bits 7 to 0.
abbrev pub command : ℕ → ℕ → ℕ → ℕ
command op bytes flags = op * 2048 + bytes + flags

-- The word goes to the next command register.
abbrev pub i2c_cmd : Mem → ℕ → ℕ → ℕ → ℕ → Mem × ℕ
i2c_cmd comd n op bytes flags = (update comd n (command op bytes flags), n + 1)

abbrev pub write_data : I2c → ℕ → I2c
write_data i2c byte = record i2c { tx_fifo = i2c.tx_fifo ++ byte ∷ [] }

abbrev pub next_msg : I2c → I2c
next_msg i2c = record i2c { msg = i2c.msg + 1; pos = 0; addressed = false }

-- The commands that read `bulk` bytes with an ACK each, and one more with a NACK.
unfoldable pub read_commands : Mem → ℕ → ℕ → Bool → Mem × ℕ
read_commands comd n bulk last =
    let bulk_read = if bulk == 0 then (comd, n) else i2c_cmd comd n op_read bulk 0 in
    if last then i2c_cmd bulk_read.0 bulk_read.1 op_read 1 cmd_ack_value else bulk_read

-- `none` is the C function's `false`: nothing was queued.
unfoldable pub queue_read : I2c → Batch → Message → Option (I2c × Batch)
queue_read i2c b m =
    let left = sub32 m.len i2c.pos in
    let n = min left (sub32 fifo_size b.rx) in
    let last = n == left in
    let bulk = sub32 n (if last then 1 else 0) in
    let commands = read_commands i2c.comd b.cmd bulk last in
    if n == 0 || ltb 7 (b.cmd + (if bulk == 0 then 0 else 1) + (if last then 1 else 0))
    then none
    else some (
      record i2c {
        comd = commands.0;
        rx = i2c.rx ++ record { buf = m.buf + i2c.pos; len = n } ∷ [];
        pos = i2c.pos + n;
      },
      record b { cmd = commands.1; rx = b.rx + n },
    )

-- The loop that writes `n` bytes of the message to the data register.
unfoldable pub send_loop : ℕ → I2c → Message → I2c
send_loop zero i2c m = i2c
send_loop (suc n) i2c m =
    send_loop n (write_data (record i2c { pos = i2c.pos + 1 }) (i2c.memory (m.buf + i2c.pos))) m

unfoldable pub queue_write : I2c → Batch → Message → Option (I2c × Batch)
queue_write i2c b m =
    let n = min (sub32 m.len i2c.pos) (sub32 fifo_size b.tx) in
    let write = i2c_cmd i2c.comd b.cmd op_write n cmd_ack_check in
    if n == 0 || ltb 7 (b.cmd + 1)
    then none
    else some
        (send_loop n (record i2c { comd = write.0 }) m, record b { cmd = write.1; tx = b.tx + n })

-- The handler's interrupt bits: its status word has these values of them.
pub record Status : Type 0 where
  pub end_detect : Bool
  pub arb_lost : Bool
  pub trans_complete : Bool
  pub nack : Bool
  pub timeouts : Bool

abbrev pub bit_set : ℕ → ℕ → Bool
bit_set word n = not (word / 2 ^ n % 2 == 0)

abbrev pub status_of : ℕ → Status
status_of word = record {
  end_detect = bit_set word 3;
  arb_lost = bit_set word 5;
  trans_complete = bit_set word 7;
  nack = bit_set word 10;
  timeouts = bit_set word 8 || (bit_set word 13 || bit_set word 14);
}

-- One more `len` bytes from the data register; an empty FIFO reads as zero.
unfoldable pub drain_one : ℕ → ℕ → Mem → List ℕ → Mem × List ℕ
drain_one buf zero memory fifo = (memory, fifo)
drain_one buf (suc n) memory [] = drain_one (buf + 1) n (update memory buf 0) []
drain_one buf (suc n) memory (x ∷ fifo) = drain_one (buf + 1) n (update memory buf x) fifo

unfoldable pub drain_loop : List Rx → Mem → List ℕ → Mem × List ℕ
drain_loop [] memory fifo = (memory, fifo)
drain_loop (r ∷ rs) memory fifo =
    let one = drain_one r.buf r.len memory fifo in drain_loop rs one.0 one.1

unfoldable pub drain : I2c → I2c
drain i2c =
    let read = drain_loop i2c.rx i2c.memory i2c.rx_fifo in
    record i2c { memory = read.0; rx_fifo = read.1; rx = [] }

-- `I2C_CTR_TRANS_START` is bit 5 of the control register.
unfoldable pub start : I2c → I2c
start i2c = record i2c { ctr = if bit_set i2c.ctr 5 then i2c.ctr else i2c.ctr + 32 }

-- A list has room for at most seven commands before its END or STOP, and each round adds one.
abbrev pub fill_fuel : ℕ
fill_fuel = 8

-- The command after the loop, in the slot that was left for it.
unfoldable pub end_list : I2c → Batch → I2c × Batch
end_list i2c b =
    let last =
      (i2c_cmd i2c.comd b.cmd (if ltb i2c.msg (length i2c.msgs) then op_end else op_stop) 0 0) in
    (record i2c { comd = last.0 }, record b { cmd = last.1 })

-- After the last byte of a message comes the next one.
unfoldable pub after_queue : Message → Option (I2c × Batch) → Option (I2c × Batch)
after_queue m none = none
after_queue m (some (i2c, b)) = some (if i2c.pos == m.len then next_msg i2c else i2c, b)

-- Linux' `i2c_8bit_addr_from_msg` gives the byte with the address and the direction.
module _ (i2c_8bit_addr_from_msg : Message → ℕ) where
  unfoldable pub queue_addr : I2c → Batch → Message → Option (I2c × Batch)
  queue_addr i2c b m =
      let restart = i2c_cmd i2c.comd b.cmd op_rstart 0 0 in
      let write = i2c_cmd restart.0 restart.1 op_write 1 cmd_ack_check in
      if ltb 7 (b.cmd + 3) || b.tx == fifo_size
      then none
      else some (
        record (write_data i2c (i2c_8bit_addr_from_msg m)) { comd = write.0; addressed = true },
        record b { cmd = write.1; tx = b.tx + 1 },
      )

  unfoldable pub queue : I2c → Batch → Message → Option (I2c × Batch)
  queue i2c b m =
      if not i2c.addressed
      then queue_addr i2c b m
      else if m.rd
      then queue_read i2c b m
      else queue_write i2c b m

  -- The body of the loop: the state after it, or `none` for its `break`.
  unfoldable pub fill_step : I2c → Batch → Message → Option (I2c × Batch)
  fill_step i2c b m = after_queue m (queue i2c b m)

  -- `none` when the fuel runs out.
  unfoldable pub fill_loop : ℕ → I2c → Batch → Option (I2c × Batch)
  fill_loop zero i2c b = none
  fill_loop (suc fuel) i2c b =
      if ltb i2c.msg (length i2c.msgs)
      then elim (fill_step i2c b (get_or i2c.msgs i2c.msg no_message)) [
        | none ↦ some (i2c, b)
        | some (i2c', b') ↦ fill_loop fuel i2c' b'
      ]
      else some (i2c, b)

  -- With the list's batch, whose `cmd` counts the commands of the list.
  unfoldable pub fill : I2c → Option (I2c × Batch)
  fill i2c =
      elim (fill_loop fill_fuel (record i2c { rx = [] }) (record { cmd = 0; tx = 0; rx = 0 })) [
        | none ↦ none
        | some (i2c', b) ↦ some (end_list i2c' b)
      ]
