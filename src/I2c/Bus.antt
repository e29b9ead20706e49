-- ===== src/I2c/Bus.antt =====
-- What an I2C bus shows: of a list of commands that the controller of i2c-esp32s31.c runs, and of
-- the messages of a transfer, as the I2C specification has them.
use esp32_s31_linux.Common.{
  ℕ, zero, suc, ◌+◌, ◌-◌, ◌/◌, ◌%◌, ◌≤◌, ◌<◌, ◌≡◌, refl, ap, arith, List, [], ◌∷◌, ◌++◌, map, Bool,
  true, not, ltb, ◌==◌, if◌then◌else◌, take, drop, get_or, replicate, Mem, update, read_bytes,
}
use esp32_s31_linux.I2c.{Message, no_message, I2c, command}
use mathlib.Core.Path.{ap₂}

-- A byte is sent with or without a check that it gets an ACK, and a received byte gets an ACK or a
-- NACK.
pub data Event : Type 0 where
  restart : Event
  sent : (checked : Bool) → ℕ → Event
  received : (ack : Bool) → Event
  stop : Event

-- The opcode and the number of bytes of a command word; ACK_CHECK is bit 8, ACK_VALUE bit 10.
abbrev pub opcode : ℕ → ℕ
opcode word = word / 2048 % 8

abbrev pub count : ℕ → ℕ
count word = word % 256

-- What one command shows, with `tx` in the transmit FIFO, and what it leaves there.
unfoldable pub shown : ℕ → List ℕ → List Event
shown word tx =
    if opcode word == 6
    then restart ∷ []
    else if opcode word == 1
    then map (sent (not (word / 256 % 2 == 0))) (take (count word) tx)
    else if opcode word == 3
    then replicate (count word) (received (word / 1024 % 2 == 0))
    else if opcode word == 2
    then stop ∷ []
    else []

unfoldable pub left : ℕ → List ℕ → List ℕ
left word tx = if opcode word == 1 then drop (count word) tx else tx

-- The first `n` commands of a list.
unfoldable pub run : Mem → ℕ → List ℕ → List Event × List ℕ
run comd zero tx = ([], tx)
run comd (suc n) tx =
    let before = run comd n tx in (before.0 ++ shown (comd n) before.1, left (comd n) before.1)

-- The bytes that a master reads: each gets an ACK, but the last.
unfoldable pub reads : ℕ → List Event
reads zero = []
reads (suc n) = received (ltb 0 n) ∷ reads n

-- The bytes of a message from a position on.
unfoldable pub bytes_from : Mem → Message → ℕ → List Event
bytes_from memory m pos =
    if m.rd
    then reads (m.len - pos)
    else map (sent true) (read_bytes memory (m.buf + pos) (m.len - pos))

run-update :
    (comd : Mem) (k n word : ℕ) (tx : List ℕ)
    → k ≤ n
    → run (update comd n word) k tx ≡ run comd k tx
unfolding run
run-update comd zero n word tx h = refl
run-update comd (suc k) n word tx h =
    let e : (update comd n word k ≡ comd k) = ground arith in
    rw (run-update comd k n word tx (omega arith), e) refl

-- One more command.
pub run-command :
    (comd : Mem) (n word : ℕ) (tx : List ℕ)
    → run (update comd n word) (n + 1) tx
      ≡ ((run comd n tx).0 ++ shown word (run comd n tx).1, left word (run comd n tx).1)
run-command comd n word tx =
    let e : (n + 1 ≡ suc n) = omega arith in
    let f : (update comd n word n ≡ word) = ground arith in
    rw e (unfold run in rw (run-update comd n n word tx (omega arith), f) refl)

pub shown-write :
    (n : ℕ) (tx : List ℕ)
    → n ≤ 32
    → (shown (command 1 n 256) tx ≡ map (sent true) (take n tx))
      × (left (command 1 n 256) tx ≡ drop n tx)
unfolding shown left
shown-write n tx h =
    let o : (opcode (command 1 n 256) ≡ 1) = omega arith in
    let c : (count (command 1 n 256) ≡ n) = omega arith in
    let a : (command 1 n 256 / 256 % 2 ≡ 1) = omega arith in (rw (o, c, a) refl, rw (o, c) refl)

pub shown-read :
    (n : ℕ) (tx : List ℕ)
    → n ≤ 32
    → (shown (command 3 n 0) tx ≡ replicate n (received true)) × (left (command 3 n 0) tx ≡ tx)
unfolding shown left
shown-read n tx h =
    let o : (opcode (command 3 n 0) ≡ 3) = omega arith in
    let c : (count (command 3 n 0) ≡ n) = omega arith in
    let a : (command 3 n 0 / 1024 % 2 ≡ 0) = omega arith in (rw (o, c, a) refl, rw o refl)

pub reads-bulk : (n k : ℕ) → 0 < k → reads (n + k) ≡ replicate n (received true) ++ reads k
unfolding reads
reads-bulk zero k h = ap reads (omega arith)
reads-bulk (suc n) k h =
    let e : (suc n + k ≡ suc (n + k)) = omega arith in
    let f : (ltb 0 (n + k) ≡ true) = ground arith in
    rw e (rw f (ap (λ t. received true ∷ t) (reads-bulk n k h)))

pub read_bytes-add :
    (memory : Mem) (i a b : ℕ)
    → read_bytes memory i (a + b) ≡ read_bytes memory i a ++ read_bytes memory (i + a) b
unfolding read_bytes
read_bytes-add memory i zero b = ap₂ (read_bytes memory) (omega arith) (omega arith)
read_bytes-add memory i (suc a) b =
    let e : (suc a + b ≡ suc (a + b)) = omega arith in
    let f : (i + suc a ≡ i + 1 + a) = omega arith in
    rw (e, f) (ap (λ t. memory i ∷ t) (read_bytes-add memory (i + 1) a b))

module _ (addr_byte : Message → ℕ) where
  unfoldable pub message_events : Mem → Message → List Event
  message_events memory m = restart ∷ sent true (addr_byte m) ∷ bytes_from memory m 0

  -- A transfer: its messages, and a STOP at the end.
  unfoldable pub transfer_events : Mem → List Message → List Event
  transfer_events memory [] = stop ∷ []
  transfer_events memory (m ∷ ms) = message_events memory m ++ transfer_events memory ms

  -- What the bus is still to show, at a position of the driver.
  unfoldable pub pending : I2c → List Event
  pending i =
      if i.addressed
      then bytes_from i.memory (get_or i.msgs i.msg no_message) i.pos
        ++ transfer_events i.memory (drop (i.msg + 1) i.msgs)
      else transfer_events i.memory (drop i.msg i.msgs)
