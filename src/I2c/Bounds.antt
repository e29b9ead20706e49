-- ===== src/I2c/Bounds.antt =====
-- `esp32s31_i2c_fill`: its loop ends, and the list fits the command registers and the FIFOs.
use esp32_s31_linux.Common.{
  ℕ, zero, suc, ◌+◌, ◌≤◌, ◌<◌, ◌≡◌, refl, ap, arith, List, [], ◌∷◌, ◌++◌, Option, none, some,
  Bool-cases, ltb, ltb→lt, inl, inr, length, length-append, get_or, Option-cases, if_elim,
  if◌then◌else◌, ◌==◌, ◌⊎◌, min, sub32,
}
use esp32_s31_linux.I2c.{
  Message, no_message, Rx, I2c, Batch, queue_addr, queue_read, queue_write, send_loop, fill_step,
  fill_loop, fill, fill_fuel, i2c_cmd, read_commands, after_queue, next_msg, queue, end_list,
}

-- The bytes of the read commands of a list.
abbrev pub rx_bytes : List Rx → ℕ
rx_bytes [] = 0
rx_bytes (r ∷ rs) = r.len + rx_bytes rs

rx_bytes-append : (rs : List Rx) (r : Rx) → rx_bytes (rs ++ r ∷ []) ≡ rx_bytes rs + r.len
rx_bytes-append [] r = omega arith
rx_bytes-append (q ∷ rs) r = omega (arith, rx_bytes-append rs r)

-- What fits: seven commands, so that one is left, and 32 bytes each way.
pub record Fits (i : I2c) (b : Batch) : Type 0 where
  pub cmds : b.cmd ≤ 7
  pub sent : length i.tx_fifo ≡ b.tx
  pub tx_room : b.tx ≤ 32
  pub received : rx_bytes i.rx ≡ b.rx
  pub rx_room : b.rx ≤ 32
  pub reads : length i.rx ≤ b.cmd

send_loop-tx :
    (n : ℕ) (i : I2c) (m : Message)
    → (length (send_loop n i m).tx_fifo ≡ length i.tx_fifo + n) × ((send_loop n i m).rx ≡ i.rx)
unfolding send_loop
send_loop-tx zero i m = (omega arith, refl)
send_loop-tx (suc n) i m = (
  omega (arith, (send_loop-tx n _ m).0, length-append i.tx_fifo (i.memory (m.buf + i.pos) ∷ [])),
  (send_loop-tx n _ m).1,
)

module _ (addr_byte : Message → ℕ) where
  queue_addr-Fits :
      (i : I2c) (b : Batch) (m : Message) {i' : I2c} {b' : Batch}
      → Fits i b
      → queue_addr addr_byte i b m ≡ some (i', b')
      → Fits i' b' × b.cmd < b'.cmd
  unfolding queue_addr
  queue_addr-Fits i b m f h = ground (arith, length-append i.tx_fifo (addr_byte m ∷ []))

queue_read-Fits :
    (i : I2c) (b : Batch) (m : Message) {i' : I2c} {b' : Batch}
    → Fits i b
    → queue_read i b m ≡ some (i', b')
    → Fits i' b' × b.cmd < b'.cmd
unfolding queue_read read_commands
queue_read-Fits i b m f h = ground (
  arith,
  length-append i.rx
      (record { buf = m.buf + i.pos; len = min (sub32 m.len i.pos) (sub32 32 b.rx) } ∷ []),
  rx_bytes-append i.rx
      (record { buf = m.buf + i.pos; len = min (sub32 m.len i.pos) (sub32 32 b.rx) }),
)

queue_write-Fits :
    (i : I2c) (b : Batch) (m : Message) {i' : I2c} {b' : Batch}
    → Fits i b
    → queue_write i b m ≡ some (i', b')
    → Fits i' b' × b.cmd < b'.cmd
unfolding queue_write
queue_write-Fits i b m f h = ground (
  arith,
  send_loop-tx (min (sub32 m.len i.pos) (sub32 32 b.tx))
      (record i { comd = (i2c_cmd i.comd b.cmd 1 (min (sub32 m.len i.pos) (sub32 32 b.tx)) 256).0 })
      m,
)

pub after_queue-some :
    (m : Message) (o : Option (I2c × Batch)) {i' : I2c} {b' : Batch}
    → after_queue m o ≡ some (i', b')
    → (i : I2c) × (b : Batch) × (o ≡ some (i, b))
      × (i' ≡ (if i.pos == m.len then next_msg i else i))
      × (b' ≡ b)
unfolding after_queue
after_queue-some m none h = cc
after_queue-some m (some (i, b)) h = (i, b, refl, cc, cc)

next_msg-Fits : (i : I2c) (b : Batch) → Fits i b → Fits (next_msg i) b
next_msg-Fits i b f = record {
  cmds = f.cmds;
  sent = f.sent;
  tx_room = f.tx_room;
  received = f.received;
  rx_room = f.rx_room;
  reads = f.reads;
}

abbrev pub empty_batch : Batch
empty_batch = record { cmd = 0; tx = 0; rx = 0 }

empty_batch-Fits : (i : I2c) → i.tx_fifo ≡ [] → Fits (record i { rx = [] }) empty_batch
empty_batch-Fits i e = record {
  cmds = omega arith;
  sent = ap length e;
  tx_room = omega arith;
  received = refl;
  rx_room = omega arith;
  reads = omega arith;
}

module _ (addr_byte : Message → ℕ) where
  pub fill_step-Fits :
      (i : I2c) (b : Batch) (m : Message) {i' : I2c} {b' : Batch}
      → Fits i b
      → fill_step addr_byte i b m ≡ some (i', b')
      → Fits i' b' × b.cmd < b'.cmd
  unfolding fill_step queue
  fill_step-Fits i b m {i'} {b'} f h =
      let (i1, b1, q, e, e') = after_queue-some m (queue addr_byte i b m) h in
      let g : Fits i1 b1 × b.cmd < b1.cmd =
        grind (arith, queue_addr-Fits, queue_read-Fits, queue_write-Fits) in
      rw (e, e') (if_elim (λ t. Fits t b1) (i1.pos == m.len) _ _ (next_msg-Fits i1 b1 g.0) g.0, g.1)

  -- How a loop ends: no message is left, or the next round of it queues nothing.
  abbrev pub Ended : I2c → Batch → Type 0
  Ended i b =
      (length i.msgs ≤ i.msg) ⊎ (fill_step addr_byte i b (get_or i.msgs i.msg no_message) ≡ none)

  -- What the rounds keep holds at the end of the loop, and the loop ends.
  module _ {ℓ} (P : I2c → Batch → Type ℓ)
      (keep : (i : I2c) (b : Batch) (i' : I2c) (b' : Batch)
        → i.msg < length i.msgs
        → Fits i b
        → P i b
        → fill_step addr_byte i b (get_or i.msgs i.msg no_message) ≡ some (i', b')
        → P i' b') where
    pub fill_loop-ends :
        (fuel : ℕ) (i : I2c) (b : Batch)
        → 7 < fuel + b.cmd
        → Fits i b
        → P i b
        → (i' : I2c) × (b' : Batch) × (fill_loop addr_byte fuel i b ≡ some (i', b'))
          × Fits i' b'
          × P i' b'
          × Ended i' b'
    unfolding fill_loop
    fill_loop-ends zero i b lt f p = absurd (omega (arith, f.cmds))
    fill_loop-ends (suc fuel) i b lt f p = elim (Bool-cases (ltb i.msg (length i.msgs))) [
      | inr no_more ↦ (i, b, rw no_more refl, f, p, inl (ground arith))
      | inl more ↦ elim (Option-cases (fill_step addr_byte i b (get_or i.msgs i.msg no_message))) [
        | inl full ↦ (i, b, rw (more, full) refl, f, p, inr full)
        | inr ((i', b'), e) ↦
            let g = fill_step-Fits i b _ f e in
            let (i'', b'', run, fits, kept, end) =
              fill_loop-ends fuel i' b' (omega (arith, g.1)) g.0
                (keep i b i' b' (ltb→lt _ _ more) f p e) in
            (i'', b'', rw (more, e) run, fits, kept, end)
      ]
    ]

    pub fill-ends :
        (i : I2c)
        → i.tx_fifo ≡ []
        → P (record i { rx = [] }) empty_batch
        → (i' : I2c) × (b' : Batch) × (fill addr_byte i ≡ some (end_list i' b'))
          × Fits i' b'
          × P i' b'
          × Ended i' b'
    unfolding fill
    fill-ends i e p =
        let (i', b, run, f, kept, end) =
          fill_loop-ends fill_fuel (record i { rx = [] }) empty_batch (omega arith)
            (empty_batch-Fits i e) p in
        (i', b, rw (run, fill) refl, f, kept, end)

  -- Every list that the driver starts is whole: for any state, messages and positions, the loop of
  -- `fill` ends; the list has at least one and at most the eight commands that there are
  -- registers for; and the bytes written to the FIFO, those that the list reads into the buffers,
  -- and the entries for them stay within 32, 32 and 7, with the batch's counters exact.
  pub fill-Fits :
      (i : I2c)
      → i.tx_fifo ≡ []
      → (i' : I2c) × (b : Batch) × (fill addr_byte i ≡ some (i', b))
        × (0 < b.cmd)
        × (b.cmd ≤ 8)
        × (length i'.tx_fifo ≡ b.tx)
        × (b.tx ≤ 32)
        × (rx_bytes i'.rx ≡ b.rx)
        × (b.rx ≤ 32)
        × (length i'.rx ≤ 7)
  unfolding end_list
  fill-Fits i e =
      let (i', b, run, f, kept, end) =
        fill-ends (λ _ _. Unit {0}) (λ i b i' b' lt f p e. tt) i e tt in
      (
        (end_list i' b).0,
        (end_list i' b).1,
        run,
        omega arith,
        omega (arith, f.cmds),
        f.sent,
        f.tx_room,
        f.received,
        f.rx_room,
        omega (arith, f.cmds, f.reads),
      )
