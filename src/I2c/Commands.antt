-- ===== src/I2c/Commands.antt =====
-- What the commands of one round show on the bus.
use esp32_s31_linux.Common.{
  if_elim, take-append, drop-append, read_bytes, map, length-append, length-replicate, ℕ, zero, suc,
  ◌+◌, ◌-◌, ◌≤◌, ◌<◌, ◌≡◌, refl, ap, ◌∙◌, sym, arith, List, [], ◌∷◌, ◌++◌, none, some, Bool, true,
  false, ◌==◌, if◌then◌else◌, drop, get_or, replicate, length, inl, inr, Bool-cases, sub32, update,
  Mem,
}
use mathlib.Core.Path.{subst}
use mathlib.Core.List.{append_assoc, append-nil, map-append}
use esp32_s31_linux.I2c.{I2c, Message, send_loop, command, i2c_cmd, read_commands}
use esp32_s31_linux.I2c.Bus.{
  bytes_from, read_bytes-add, sent, shown-write, Event, restart, received, shown, left, run,
  run-command, shown-read, reads, reads-bulk,
}

-- What is under a guard holds of what the guard lets through.
pub past_guard {ℓ κ} :
    {A : Type ℓ} (P : A → Type κ) (c : Bool) (x : A) {y : A}
    → (if c then none else some x) ≡ some y
    → (c ≡ false → P x)
    → P y
past_guard P true x h p = cc
past_guard P false x h p = let e : (x ≡ _) = cc in subst P e (p refl)

pub drop-get_or {ℓ} :
    {A : Type ℓ} (xs : List A) (k : ℕ) (d : A)
    → k < length xs
    → drop k xs ≡ get_or xs k d ∷ drop (k + 1) xs
drop-get_or [] k d h = absurd (omega arith)
drop-get_or (x ∷ xs) zero d h = refl
drop-get_or (x ∷ xs) (suc k) d h =
    let e : (suc k + 1 ≡ suc (k + 1)) = omega arith in rw e (drop-get_or xs k d (omega arith))

pub run-shown :
    (comd : ℕ → ℕ) (n word : ℕ) (tx : List ℕ) (before now : List Event) (fifo rest : List ℕ)
    → run comd n tx ≡ (before, fifo)
    → (shown word fifo ≡ now) × (left word fifo ≡ rest)
    → run (update comd n word) (n + 1) tx ≡ (before ++ now, rest)
run-shown comd n word tx before now fifo rest h k =
    run-command comd n word tx ∙ rw (h, k.0, k.1) refl

pub shown-restart :
    (tx : List ℕ) → (shown (command 6 0 0) tx ≡ restart ∷ []) × (left (command 6 0 0) tx ≡ tx)
unfolding shown left
shown-restart tx = (refl, refl)

shown-nack :
    (tx : List ℕ)
    → (shown (command 3 1 1024) tx ≡ received false ∷ []) × (left (command 3 1 1024) tx ≡ tx)
unfolding shown left
shown-nack tx = (refl, refl)

read_commands-bulk :
    (comd : Mem) (n bulk : ℕ) (tx : List ℕ) (before : List Event) (fifo : List ℕ)
    → bulk ≤ 32
    → run comd n tx ≡ (before, fifo)
    → let bulk_read = if bulk == 0 then (comd, n) else i2c_cmd comd n 3 bulk 0 in
      run bulk_read.0 bulk_read.1 tx ≡ (before ++ replicate bulk (received true), fifo)
read_commands-bulk comd n zero tx before fifo le h =
    let e : (before ++ [] ≡ before) = append-nil before in rw e h
read_commands-bulk comd n (suc k) tx before fifo le h =
    let e : ((suc k == 0) ≡ false) = ground arith in
    rw e (run-shown comd n _ tx before _ fifo fifo h (shown-read (suc k) fifo le))

pub read_commands-run :
    (comd : Mem) (n bulk : ℕ) (last : Bool) (tx : List ℕ) (before : List Event) (fifo : List ℕ)
    → bulk ≤ 32
    → run comd n tx ≡ (before, fifo)
    → let c = read_commands comd n bulk last in
      run c.0 c.1 tx ≡ (
        before ++ (replicate bulk (received true) ++ (if last then received false ∷ [] else [])),
        fifo,
      )
unfolding read_commands
read_commands-run comd n bulk true tx before fifo le h = rw (← append_assoc) (
    run-shown _ _ _ _ _ _ _ _ (read_commands-bulk comd n bulk tx before fifo le h)
      (shown-nack fifo))
read_commands-run comd n bulk false tx before fifo le h =
    rw (append-nil (replicate bulk (received true)))
      (read_commands-bulk comd n bulk tx before fifo le h)

-- What a round that reads `n` of the `k` bytes that are left shows.
abbrev pub read_now : ℕ → ℕ → List Event
read_now n k =
    replicate (sub32 n (if n == k then 1 else 0)) (received true)
    ++ (if n == k then received false ∷ [] else [])

pub read_now-busy : (n k : ℕ) → 0 < n → n < 65536 → 0 < length (read_now n k)
read_now-busy n k pos lt = elim (Bool-cases (n == k)) [
  | inl last ↦
      rw last
        (omega (arith, length-append (replicate (sub32 n 1) (received true)) (received false ∷ [])))
  | inr more ↦ rw more (
      omega (
        arith,
        length-append (replicate (sub32 n 0) (received true)) [],
        length-replicate (sub32 n 0) (received true),
      ))
]

pub reads-round : (n k : ℕ) → 0 < n → n ≤ k → k < 65536 → read_now n k ++ reads (k - n) ≡ reads k
unfolding reads
reads-round n k pos le lt = elim (Bool-cases (n == k)) [
  | inl last ↦
      let e : (n ≡ k) = ground arith in
      let d : (k - n ≡ 0) = omega (arith, e) in
      let s : (sub32 n 1 ≡ k - 1) = omega (arith, e) in
      let t : (k ≡ (k - 1) + 1) = omega arith in
      rw (last, d, s)
        (append_assoc (replicate (k - 1) (received true)) (received false ∷ []) []
          ∙ sym (reads-bulk (k - 1) 1 (omega arith))
          ∙ ap reads (sym t))
  | inr more ↦
      let e : (n < k) = ground arith in
      let s : (sub32 n 0 ≡ n) = omega arith in
      let t : (n + (k - n) ≡ k) = omega arith in
      rw (more, s, append-nil (replicate n (received true)))
        (sym (reads-bulk n (k - n) (omega arith)) ∙ ap reads t)
]

-- The loop of writes to the data register changes only the FIFO and the position.
pub send_loop-record :
    (n : ℕ) (i : I2c) (m : Message)
    → send_loop n i m
      ≡ record i { pos = i.pos + n; tx_fifo = i.tx_fifo ++ read_bytes i.memory (m.buf + i.pos) n }
unfolding send_loop read_bytes
send_loop-record zero i m =
    let e : (i.pos + 0 ≡ i.pos) = omega arith in rw (e, append-nil i.tx_fifo) refl
send_loop-record (suc n) i m =
    let e : (i.pos + 1 + n ≡ i.pos + suc n) = omega arith in
    let f : (m.buf + (i.pos + 1) ≡ m.buf + i.pos + 1) = omega arith in
    rw (send_loop-record n _ m, e, f, append_assoc) refl

-- A WRITE command sends the bytes that were put behind those of the commands before it.
pub shown-bytes :
    (n : ℕ) (bytes ts : List ℕ)
    → length bytes ≡ n
    → n ≤ 32
    → (shown (command 1 n 256) (bytes ++ ts) ≡ map (sent true) bytes)
      × (left (command 1 n 256) (bytes ++ ts) ≡ ts)
shown-bytes n bytes ts e le = rw (← e) (
  (shown-write (length bytes) (bytes ++ ts) (omega (arith, e))).0
      ∙ ap (map (sent true)) (take-append bytes ts),
  (shown-write (length bytes) (bytes ++ ts) (omega (arith, e))).1 ∙ drop-append bytes ts,
)

pub writes-round :
    (memory : Mem) (a n k : ℕ)
    → n ≤ k
    → map (sent true) (read_bytes memory a n) ++ map (sent true) (read_bytes memory (a + n) (k - n))
      ≡ map (sent true) (read_bytes memory a k)
writes-round memory a n k le =
    sym (map-append (sent true) (read_bytes memory a n) (read_bytes memory (a + n) (k - n)))
    ∙ ap (map (sent true))
        (sym (read_bytes-add memory a n (k - n)) ∙ ap (read_bytes memory a) (omega arith))

pub length-map : (xs : List ℕ) → length (map (sent true) xs) ≡ length xs
length-map [] = refl
length-map (x ∷ xs) = ap suc (length-map xs)

-- Nothing is left of a message behind its last byte.
pub bytes_from-end : (memory : Mem) (m : Message) → bytes_from memory m m.len ≡ []
unfolding bytes_from reads read_bytes
bytes_from-end memory m =
    let e : (m.len - m.len ≡ 0) = omega arith in rw e (if_elim (λ t. t ≡ []) m.rd _ _ refl refl)
