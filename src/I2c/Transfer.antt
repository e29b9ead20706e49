-- ===== src/I2c/Transfer.antt =====
-- `esp32s31_i2c_fill` as a whole: each list shows the next part of the transfer.
use esp32_s31_linux.Common.{
  ℕ, zero, suc, ◌≤◌, ◌<◌, ◌≡◌, refl, ap, ◌∙◌, arith, List, [], ◌∷◌, ◌++◌, none, some, ltb,
  if◌then◌else◌, drop, get_or, length, inl, inr, Bool-cases, ◌≢◌,
}
use mathlib.Core.List.{append-nil}
use esp32_s31_linux.I2c.{
  Message, no_message, I2c, Batch, command, fill_step, fill, end_list, queue, after_queue,
  queue_addr, queue_read, queue_write,
}
use esp32_s31_linux.I2c.Bounds.{empty_batch, fill-ends, Ended}
use esp32_s31_linux.I2c.Bus.{Event, stop, shown, left, run, transfer_events, pending}
use esp32_s31_linux.I2c.Commands.{run-shown}
use esp32_s31_linux.I2c.Carry.{IsPlaced, Carried}
use esp32_s31_linux.I2c.Carry.Step.{fill_step-Carried}

drop_all {ℓ} : {A : Type ℓ} (n : ℕ) (xs : List A) → length xs ≤ n → drop n xs ≡ []
drop_all zero [] h = refl
drop_all zero (x ∷ xs) h = absurd (omega arith)
drop_all (suc n) [] h = refl
drop_all (suc n) (x ∷ xs) h = drop_all n xs (omega arith)

module _ (addr_byte : Message → ℕ) where
  -- A list is never empty: the first round of a fill queues something.
  fill_step-first :
      (i : I2c)
      → IsPlaced i
      → i.msg < length i.msgs
      → fill_step addr_byte i empty_batch (get_or i.msgs i.msg no_message) ≢ none
  unfolding fill_step queue after_queue queue_addr queue_read queue_write
  fill_step-first i p lt h = ground (arith, p.within, p.lens i.msg)

  pending-over : (i : I2c) → IsPlaced i → length i.msgs ≤ i.msg → pending addr_byte i ≡ stop ∷ []
  unfolding pending transfer_events
  pending-over i p h = elim (Bool-cases i.addressed) [
    | inl a ↦ absurd (omega (arith, (p.within a).0))
    | inr a ↦ rw (a, drop_all i.msg i.msgs h) refl
  ]

  -- What the bus shows of the list that a fill has made, and the bytes that it leaves.
  abbrev pub list_run : I2c × Batch → List Event × List ℕ
  list_run r = run r.0.comd r.1.cmd r.0.tx_fifo

  -- The list is the last part of what is pending, or a part of it that leaves the rest pending.
  pub data Progress (i : I2c) (r : I2c × Batch) : Type 0 where
    over : (list_run r).0 ≡ pending addr_byte i → length i.msgs ≤ r.0.msg → Progress i r
    paused :
        (list_run r).0 ++ pending addr_byte r.0 ≡ pending addr_byte i
        → 0 < length (list_run r).0
        → r.0.msg < length i.msgs
        → IsPlaced r.0
        → Progress i r

  -- The command after the loop: a STOP at the end of the transfer, an END before that.
  shown-last :
      (i : I2c) (tx : List ℕ)
      → let word = command (if ltb i.msg (length i.msgs) then 4 else 2) 0 0 in
        (shown word tx ≡ (if ltb i.msg (length i.msgs) then [] else stop ∷ []))
        × (left word tx ≡ tx)
  unfolding shown left
  shown-last i tx = elim (Bool-cases (ltb i.msg (length i.msgs))) [
    | inl more ↦ rw more (refl, refl)
    | inr last ↦ rw last (refl, refl)
  ]

  pub end_list-run :
      (start i : I2c) (b : Batch) (c : Carried addr_byte start i b)
      → list_run (end_list i b)
        ≡ (c.done ++ (if ltb i.msg (length i.msgs) then [] else stop ∷ []), [])
  unfolding end_list
  end_list-run start i b c =
      let e : run i.comd b.cmd i.tx_fifo ≡ (c.done, []) = rw (append-nil i.tx_fifo) at (c.ran []) in
      run-shown _ _ _ _ _ _ _ _ e (shown-last i [])

  end_list-busy :
      (start i : I2c) (b : Batch) (c : Carried addr_byte start i b)
      → i.msg < length i.msgs
      → Ended addr_byte i b
      → 0 < length c.done
  end_list-busy start i b c more (inl last) = absurd (omega arith)
  end_list-busy start i b c more (inr full) = elim c.busy [
    | inr busy ↦ busy
    | inl e ↦ absurd (fill_step-first i c.placed more (rw e at full))
  ]

  pub end_list-Progress :
      (start i : I2c) (b : Batch)
      → Carried addr_byte start i b
      → Ended addr_byte i b
      → Progress start (end_list i b)
  unfolding end_list pending
  end_list-Progress start i b c end =
      let e = end_list-run start i b c in
      elim (Bool-cases (ltb i.msg (length i.msgs))) [
        | inl more ↦
            let r : ((list_run (end_list i b)).0 ≡ c.done) =
              ap (λ (t : List Event × List ℕ). t.0) e ∙ rw more (append-nil c.done) in
            let lt : (i.msg < length i.msgs) = ground arith in
            paused (rw r c.whole) (rw r (end_list-busy start i b c lt end)) (rw (← c.same_msgs) lt)
              (record { within = c.placed.within; fresh = c.placed.fresh; lens = c.placed.lens })
        | inr last ↦
            let le : (length i.msgs ≤ i.msg) = ground arith in
            over
              (ap (λ (t : List Event × List ℕ). t.0) e
                ∙ rw last (rw (pending-over i c.placed le) at c.whole))
              (rw (← c.same_msgs) le)
      ]

  pub fill-Carried :
      (i : I2c)
      → i.tx_fifo ≡ []
      → IsPlaced i
      → (i' : I2c) × (b : Batch) × (fill addr_byte i ≡ some (end_list i' b))
        × Carried addr_byte i i' b
        × Ended addr_byte i' b
  unfolding pending run
  fill-Carried i e p =
      let (i', b, run, f, kept, end) =
        fill-ends addr_byte (Carried addr_byte i) (fill_step-Carried addr_byte i) i e (record {
          done = [];
          ran = λ ts. rw e refl;
          rx_in = tt;
          whole = refl;
          placed = record { within = p.within; fresh = p.fresh; lens = p.lens };
          same_msgs = refl;
          same_memory = refl;
          busy = inl refl;
        }) in
      (i', b, run, kept, end)

  -- From any place in a transfer, with an empty FIFO, `fill` makes a list of which the bus shows
  -- exactly the next part of the messages: their addresses, every byte of a write in order and
  -- with a check of its ACK, and for every byte of a read an ACK, but a NACK for the last one. The
  -- list uses up the bytes in the FIFO. It ends with the STOP of the transfer, or pauses it: then
  -- it has shown something, and the driver's place is that of the rest.
  fill-Progress :
      (i : I2c)
      → i.tx_fifo ≡ []
      → IsPlaced i
      → (r : I2c × Batch) × (fill addr_byte i ≡ some r) × ((list_run r).1 ≡ []) × Progress i r
  fill-Progress i e p =
      let (i', b, run, kept, end) = fill-Carried i e p in
      (
        end_list i' b,
        run,
        ap (λ (t : List Event × List ℕ). t.1) (end_list-run i i' b kept),
        end_list-Progress i i' b kept end,
      )
