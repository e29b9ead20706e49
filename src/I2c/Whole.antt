-- ===== src/I2c/Whole.antt =====
-- A whole transfer: `esp32s31_i2c_fill` and `esp32s31_i2c_drain`, list after list.
use esp32_s31_linux.Common.{
  ℕ, zero, suc, ◌+◌, ◌-◌, ◌≤◌, ◌<◌, ◌≡◌, refl, ap, ◌∙◌, arith, List, [], ◌∷◌, ◌++◌, map, Option,
  none, some, true, false, ltb, ◌==◌, drop, get_or, length, length-append, Bool-cases, Mem, update,
  All, read_bytes, inl, inr,
}
use mathlib.Core.Option
use esp32_s31_linux.I2c.{
  Message, no_message, Rx, I2c, Batch, fill, drain, drain_one, drain_loop, end_list,
}
use esp32_s31_linux.I2c.Bus.{Event, sent, bytes_from, message_events, transfer_events, pending}
use esp32_s31_linux.I2c.Carry.{IsPlaced, Carried, InRead, IntoReads}
use esp32_s31_linux.I2c.Transfer.{
  over, paused, list_run, fill-Carried, end_list-Progress, end_list-run,
}

-- No byte of a write lies in the buffer of a read.
abbrev pub Separate : List Message → List Message → Type 0
Separate msgs =
    All (λ (m : Message). m.rd ≡ false → (x : ℕ) → x < m.len → ¬ InRead msgs (m.buf + x))

abbrev Agree : Mem → Mem → Message → Type 0
Agree memory memory' m =
    m.rd ≡ false → (x : ℕ) → x < m.len → memory' (m.buf + x) ≡ memory (m.buf + x)

All-drop {ℓ κ} : {A : Type ℓ} (P : A → Type κ) (n : ℕ) (xs : List A) → All P xs → All P (drop n xs)
All-drop P zero xs h = h
All-drop P (suc n) [] h = tt
All-drop P (suc n) (x ∷ xs) h = All-drop P n xs h.1

All-get_or {ℓ κ} :
    {A : Type ℓ} (P : A → Type κ) (xs : List A) (k : ℕ) (d : A) → All P xs → P d → P (get_or xs k d)
All-get_or P [] k d h p = p
All-get_or P (x ∷ xs) zero d h p = h.0
All-get_or P (x ∷ xs) (suc k) d h p = All-get_or P xs k d h.1 p

All-map {ℓ κ μ} :
    {A : Type ℓ} (P : A → Type κ) (Q : A → Type μ) (xs : List A)
    → ((x : A) → P x → Q x)
    → All P xs
    → All Q xs
All-map P Q [] f h = tt
All-map P Q (x ∷ xs) f h = (f x h.0, All-map P Q xs f h.1)

update-other :
    (memory : Mem) (buf v x n : ℕ)
    → ¬ ((buf ≤ x) × (x < buf + suc n))
    → update memory buf v x ≡ memory x
update-other memory buf v x n h = elim (Bool-cases (x == buf)) [
  | inl e ↦ let f : (x ≡ buf) = ground arith in absurd (h (omega (arith, f)))
  | inr e ↦ rw e refl
]

drain_one-other :
    (buf n : ℕ) (memory : Mem) (fifo : List ℕ) (x : ℕ)
    → ¬ ((buf ≤ x) × (x < buf + n))
    → (drain_one buf n memory fifo).0 x ≡ memory x
unfolding drain_one
drain_one-other buf zero memory fifo x h = refl
drain_one-other buf (suc n) memory [] x h =
    drain_one-other (buf + 1) n (update memory buf 0) [] x (λ k. h (omega (arith, k)))
    ∙ update-other memory buf 0 x n h
drain_one-other buf (suc n) memory (y ∷ fifo) x h =
    drain_one-other (buf + 1) n (update memory buf y) fifo x (λ k. h (omega (arith, k)))
    ∙ update-other memory buf y x n h

drain_loop-other :
    (msgs : List Message) (rs : List Rx) (memory : Mem) (fifo : List ℕ) (x : ℕ)
    → IntoReads msgs rs
    → ¬ InRead msgs x
    → (drain_loop rs memory fifo).0 x ≡ memory x
unfolding drain_loop
drain_loop-other msgs [] memory fifo x h k = refl
drain_loop-other msgs (r ∷ rs) memory fifo x h k =
    drain_loop-other msgs rs _ _ x h.1 k
    ∙ drain_one-other r.buf r.len memory fifo x (λ t. k (h.0 x t.0 t.1))

read_bytes-agree :
    (memory memory' : Mem) (a n : ℕ)
    → ((x : ℕ) → a ≤ x → x < a + n → memory' x ≡ memory x)
    → read_bytes memory' a n ≡ read_bytes memory a n
unfolding read_bytes
read_bytes-agree memory memory' a zero h = refl
read_bytes-agree memory memory' a (suc n) h =
    rw
      (
        h a (omega arith) (omega arith),
        read_bytes-agree memory memory' (a + 1) n (λ x lo hi. h x (omega arith) (omega arith)),
      )
      refl

bytes_from-Agree :
    (memory memory' : Mem) (m : Message) (pos : ℕ)
    → Agree memory memory' m
    → bytes_from memory' m pos ≡ bytes_from memory m pos
unfolding bytes_from
bytes_from-Agree memory memory' m pos h = elim (Bool-cases m.rd) [
  | inl r ↦ rw r refl
  | inr w ↦ rw w (
      ap (map (sent true)) (
        read_bytes-agree memory memory' (m.buf + pos) (m.len - pos) λ x lo hi.
          let e : (m.buf + (x - m.buf) ≡ x) = omega arith in
          rw e at (h w (x - m.buf) (omega arith))))
]

module _ (addr_byte : Message → ℕ) where
  transfer_events-Agree :
      (memory memory' : Mem) (ms : List Message)
      → All (Agree memory memory') ms
      → transfer_events addr_byte memory' ms ≡ transfer_events addr_byte memory ms
  unfolding transfer_events message_events
  transfer_events-Agree memory memory' [] h = refl
  transfer_events-Agree memory memory' (m ∷ ms) h =
      rw (bytes_from-Agree memory memory' m 0 h.0, transfer_events-Agree memory memory' ms h.1) refl

  pending-Agree :
      (i : I2c) (memory' : Mem)
      → All (Agree i.memory memory') i.msgs
      → pending addr_byte (record i { memory = memory' }) ≡ pending addr_byte i
  unfolding pending
  pending-Agree i memory' h =
      rw
        (
          bytes_from-Agree i.memory memory' (get_or i.msgs i.msg no_message) i.pos (
              All-get_or (Agree i.memory memory') i.msgs i.msg no_message h
                (λ r x lt. absurd (omega arith))),
          transfer_events-Agree i.memory memory' (drop i.msg i.msgs)
              (All-drop (Agree i.memory memory') i.msg i.msgs h),
          transfer_events-Agree i.memory memory' (drop (i.msg + 1) i.msgs)
              (All-drop (Agree i.memory memory') (i.msg + 1) i.msgs h),
        )
        refl

  -- After an END: the controller has run the list and has `fifo` for the driver, which reads it.
  unfoldable pub resumed : I2c × Batch → List ℕ → I2c
  resumed r fifo = drain (record r.0 { tx_fifo = (list_run addr_byte r).1; rx_fifo = fifo })

  -- The events of all lists, to the one that ends the transfer; `fifos` are the bytes that the
  -- controller receives. `none` when the fuel runs out, or that of a fill.
  unfoldable pub lists : ℕ → List (List ℕ) → I2c → Option (List Event)
  lists zero fifos i = none
  lists (suc fuel) fifos i = elim (fill addr_byte i) [
    | none ↦ none
    | some r ↦ elim (ltb r.0.msg (length r.0.msgs)) [
      | false ↦ some (list_run addr_byte r).0
      | true ↦
          Option.map (λ (es : List Event). (list_run addr_byte r).0 ++ es)
            (lists fuel (drop 1 fifos) (resumed r (get_or fifos 0 [])))
    ]
  ]

  resumed-Agree :
      (start i : I2c) (b : Batch) (fifo : List ℕ)
      → Carried addr_byte start i b
      → Separate i.msgs i.msgs
      → All (Agree i.memory (resumed (end_list i b) fifo).memory) i.msgs
  unfolding resumed drain end_list
  resumed-Agree start i b fifo c sep =
      All-map _ (Agree i.memory (resumed (end_list i b) fifo).memory) i.msgs
        (λ m s w x lt. drain_loop-other i.msgs i.rx i.memory fifo (m.buf + x) c.rx_in (s w x lt))
        sep

  resumed-pending :
      (start i : I2c) (b : Batch) (fifo : List ℕ)
      → Carried addr_byte start i b
      → Separate i.msgs i.msgs
      → pending addr_byte (resumed (end_list i b) fifo) ≡ pending addr_byte (end_list i b).0
  resumed-pending start i b fifo c sep =
      unfold resumed drain end_list pending in
      pending-Agree i (resumed (end_list i b) fifo).memory (resumed-Agree start i b fifo c sep)

  end_list-msgs :
      (start i : I2c) (b : Batch) → Carried addr_byte start i b → (end_list i b).0.msgs ≡ start.msgs
  unfolding end_list
  end_list-msgs start i b c = c.same_msgs

  resumed-same :
      (r : I2c × Batch) (fifo : List ℕ)
      → ((resumed r fifo).msgs ≡ r.0.msgs)
        × ((resumed r fifo).tx_fifo ≡ (list_run addr_byte r).1)
        × (IsPlaced r.0 → IsPlaced (resumed r fifo))
  unfolding resumed drain
  resumed-same r fifo =
      (refl, refl, λ p. record { within = p.within; fresh = p.fresh; lens = p.lens })

  transfer_events-busy :
      (memory : Mem) (ms : List Message) → 0 < length (transfer_events addr_byte memory ms)
  unfolding transfer_events message_events
  transfer_events-busy memory [] = omega arith
  transfer_events-busy memory (m ∷ ms) = omega arith

  pending-busy : (i : I2c) → 0 < length (pending addr_byte i)
  unfolding pending
  pending-busy i = elim (Bool-cases i.addressed) [
    | inl a ↦ rw a (
        omega (
          arith,
          length-append (bytes_from i.memory (get_or i.msgs i.msg no_message) i.pos)
              (transfer_events addr_byte i.memory (drop (i.msg + 1) i.msgs)),
          transfer_events-busy i.memory (drop (i.msg + 1) i.msgs),
        ))
    | inr a ↦ rw a (transfer_events-busy i.memory (drop i.msg i.msgs))
  ]

  module _ (fuel : ℕ) (fifos : List (List ℕ)) (i : I2c) (r : I2c × Batch)
      (run : fill addr_byte i ≡ some r) where
    lists-over :
        ltb r.0.msg (length r.0.msgs) ≡ false
        → lists (suc fuel) fifos i ≡ some (list_run addr_byte r).0
    unfolding lists
    lists-over l = ground arith

    lists-more :
        ltb r.0.msg (length r.0.msgs) ≡ true
        → lists (suc fuel) fifos i
          ≡ Option.map
              (λ (es : List Event). (list_run addr_byte r).0 ++ es)
              (lists fuel (drop 1 fifos) (resumed r (get_or fifos 0 [])))
    unfolding lists
    lists-more l = ground arith

  -- A transfer shows on the bus exactly its messages, in order, and then a STOP, whatever the
  -- controller receives and wherever in the transfer the driver stands, if no byte to write lies in
  -- the buffer of a read; and it ends: as many lists as there are events to show are enough.
  pub lists-pending :
      (fuel : ℕ) (fifos : List (List ℕ)) (i : I2c)
      → length (pending addr_byte i) ≤ fuel
      → i.tx_fifo ≡ []
      → IsPlaced i
      → Separate i.msgs i.msgs
      → lists fuel fifos i ≡ some (pending addr_byte i)
  lists-pending zero fifos i le e p sep = absurd (omega (arith, pending-busy i))
  lists-pending (suc fuel) fifos i le e p sep =
      let (i', b, run, c, end) = fill-Carried addr_byte i e p in
      let r = end_list i' b in
      let fifo = get_or fifos 0 [] in
      let same = end_list-msgs i i' b c in
      let after = resumed-same r fifo in
      elim (end_list-Progress addr_byte i i' b c end) [
        | over all last ↦ lists-over fuel fifos i r run (rw same (ground arith)) ∙ ap some all
        | paused part busy more placed ↦
            let rest : (pending addr_byte (resumed r fifo) ≡ pending addr_byte r.0) =
              resumed-pending i i' b fifo c (rw (← c.same_msgs) at sep) in
            lists-more fuel fifos i r run (rw same (ground arith))
            ∙ ap (Option.map (λ (es : List Event). (list_run addr_byte r).0 ++ es)) (
                lists-pending fuel (drop 1 fifos) (resumed r fifo)
                  (omega (
                    arith,
                    le,
                    busy,
                    ap length rest,
                    ap length part,
                    length-append (list_run addr_byte r).0 (pending addr_byte r.0),
                  ))
                  (after.1
                    ∙ ap (λ (t : List Event × List ℕ). t.1) (end_list-run addr_byte i i' b c))
                  (after.2 placed) (rw (after.0 ∙ same) sep))
            ∙ ap (λ (es : List Event). some ((list_run addr_byte r).0 ++ es)) rest
            ∙ ap some part
      ]
