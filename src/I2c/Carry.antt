-- ===== src/I2c/Carry.antt =====
-- The lists of `esp32s31_i2c_fill` carry the messages: the bus shows what the transfer is to show.
pub mod Queue
pub mod Step
use esp32_s31_linux.Common.{
  ℕ, ◌+◌, ◌-◌, ◌≤◌, ◌<◌, ◌≡◌, refl, ap, ◌∙◌, sym, arith, List, [], ◌∷◌, ◌++◌, map, some, true,
  false, ◌==◌, if◌then◌else◌, drop, get_or, length, read_bytes, length-append, ◌⊎◌, inl, inr,
  Bool-cases, length-read_bytes, sub32, min, All,
}
use mathlib.Core.Path.{ap₂, subst}
use mathlib.Core.List.{append_assoc}
use esp32_s31_linux.I2c.{
  Message, no_message, Rx, I2c, Batch, next_msg, queue, queue_addr, queue_read, queue_write,
  fill_step,
}
use esp32_s31_linux.I2c.Bounds.{after_queue-some, Fits, empty_batch}
use esp32_s31_linux.I2c.Commands.{
  past_guard, drop-get_or, run-shown, shown-restart, read_commands-run, writes-round, length-map,
  bytes_from-end, reads-round, read_now, read_now-busy, send_loop-record, shown-bytes,
}
use esp32_s31_linux.I2c.Bus.{
  Event, restart, sent, run, shown-write, reads, bytes_from, message_events, transfer_events,
  pending,
}

-- The driver's place in the transfer: with the address sent, bytes of the message are left.
pub record IsPlaced (i : I2c) : Type 0 where
  pub within :
      i.addressed ≡ true → (i.msg < length i.msgs) × (i.pos < (get_or i.msgs i.msg no_message).len)
  pub fresh : i.addressed ≡ false → i.pos ≡ 0
  pub lens : (k : ℕ) → (get_or i.msgs k no_message).len < 65536

module _ (addr_byte : Message → ℕ) where
  pending-fresh :
      (i : I2c)
      → i.msg < length i.msgs
      → i.addressed ≡ false
      → let m = get_or i.msgs i.msg no_message in
        pending addr_byte i
        ≡ restart
          ∷ sent true (addr_byte m)
          ∷ (bytes_from i.memory m 0
              ++ transfer_events addr_byte i.memory (drop (i.msg + 1) i.msgs))
  unfolding pending transfer_events message_events
  pending-fresh i lt a = rw (a, drop-get_or i.msgs i.msg no_message lt) refl

  module _ (i : I2c) (b : Batch) (m : Message) where
    queue-fresh : i.addressed ≡ false → queue addr_byte i b m ≡ queue_addr addr_byte i b m
    unfolding queue
    queue-fresh a = ground arith

    queue-rd : i.addressed ≡ true → m.rd ≡ true → queue addr_byte i b m ≡ queue_read i b m
    unfolding queue
    queue-rd a r = ground arith

    queue-wr : i.addressed ≡ true → m.rd ≡ false → queue addr_byte i b m ≡ queue_write i b m
    unfolding queue
    queue-wr a r = ground arith

subst2 : (P : I2c → Batch → Type 0) {i i' : I2c} {b b' : Batch} → i ≡ i' → b ≡ b' → P i b → P i' b'
subst2 P {i} {i'} {b} {b'} e f p = subst (λ t. P i' t) f (subst (λ t. P t b) e p)

-- A place in the buffer of a read.
pub record InRead (msgs : List Message) (x : ℕ) : Type 0 where
  pub index : ℕ
  pub rd : (get_or msgs index no_message).rd ≡ true
  pub low : (get_or msgs index no_message).buf ≤ x
  pub high : x < (get_or msgs index no_message).buf + (get_or msgs index no_message).len

-- The read commands of a list fill buffers of reads only.
abbrev pub IntoReads : List Message → List Rx → Type 0
IntoReads msgs = All (λ (r : Rx). (x : ℕ) → r.buf ≤ x → x < r.buf + r.len → InRead msgs x)

All-snoc {ℓ κ} :
    {A : Type ℓ} (P : A → Type κ) (xs : List A) (x : A) → All P xs → P x → All P (xs ++ x ∷ [])
All-snoc P [] x h p = (p, tt)
All-snoc P (y ∷ ys) x h p = (h.0, All-snoc P ys x h.1 p)

module _ (addr_byte : Message → ℕ) (start : I2c) where
  -- The list so far has shown `done`, and used up the FIFO; `done` and what is pending make up what
  -- was pending at the start.
  pub record Carried (i : I2c) (b : Batch) : Type 0 where
    pub done : List Event
    pub ran : (ts : List ℕ) → run i.comd b.cmd (i.tx_fifo ++ ts) ≡ (done, ts)
    pub whole : done ++ pending addr_byte i ≡ pending addr_byte start
    pub placed : IsPlaced i
    pub same_msgs : i.msgs ≡ start.msgs
    pub same_memory : i.memory ≡ start.memory
    pub rx_in : IntoReads i.msgs i.rx
    pub busy : (b ≡ empty_batch) ⊎ (0 < length done)

  -- The same after a round has queued something of the current message.
  record Queued (m : Message) (i : I2c) (b : Batch) : Type 0 where
    current : m ≡ get_or i.msgs i.msg no_message
    pub done : List Event
    pub ran : (ts : List ℕ) → run i.comd b.cmd (i.tx_fifo ++ ts) ≡ (done, ts)
    pub whole :
        done
          ++ (bytes_from i.memory (get_or i.msgs i.msg no_message) i.pos
              ++ transfer_events addr_byte i.memory (drop (i.msg + 1) i.msgs))
        ≡ pending addr_byte start
    more : i.msg < length i.msgs
    addressed : i.addressed ≡ true
    within : i.pos ≤ (get_or i.msgs i.msg no_message).len
    lens : (k : ℕ) → (get_or i.msgs k no_message).len < 65536
    pub same_msgs : i.msgs ≡ start.msgs
    pub same_memory : i.memory ≡ start.memory
    pub rx_in : IntoReads i.msgs i.rx
    pub busy : 0 < length done

  -- What a round shows, with the bytes that it leaves, is the rest of the message.
  step-whole :
      (i : I2c) (done now after : List Event)
      → i.addressed ≡ true
      → now ++ after ≡ bytes_from i.memory (get_or i.msgs i.msg no_message) i.pos
      → done ++ pending addr_byte i ≡ pending addr_byte start
      → (done ++ now) ++ (after ++ transfer_events addr_byte i.memory (drop (i.msg + 1) i.msgs))
        ≡ pending addr_byte start
  unfolding pending bytes_from
  step-whole i done now after a e h =
      rw (append_assoc, ← append_assoc now after, e) (rw (pending, a) at h)
