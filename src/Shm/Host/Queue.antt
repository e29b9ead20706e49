-- ===== src/Shm/Host/Queue.antt =====
-- The transmit queue of the driver: its bound and the flow control of the net queues.
use esp32_s31_linux.Common.{
  ℕ, suc, ◌≤◌, ◌≡◌, ◌≢◌, arith, List, [], ◌∷◌, ◌++◌, length, length-append, Bool, true, false,
  Option, none, some, ltb, ◌<◌, refl, Bool-cases, inl, inr,
}
use esp32_s31_linux.Shm.Layout.{Block}
use esp32_s31_linux.Shm.Records.{Frame}
use esp32_s31_linux.Shm.Host.{
  Context, esp_shm_push, second_try, first_try, flush_loop, tx_flow, tx_flush, write_locked,
  tx_pause, tx_resume, tx_queue_max, Errno, emsgsize, enomem, esp_shm_write,
}

-- What `esp_shm_write` leaves of a context.
pub record Settled (aggr : ℕ) (linear : Bool) (ctx : Context) (skb : Frame)
    (r : Option Errno × Option Context) : Type 0 where
  pub next : Context
  pub kept : r.1 ≡ some next
  pub bound : length next.tx_queue ≤ 256
  pub refused : r.0 ≢ none → next ≡ ctx
  pub taken :
      length skb ≤ aggr
      → linear ≡ true
      → ctx.running ≡ true
      → ctx.tx_quiesced ≡ false
      → length ctx.tx_queue < 256
      → r.0 ≡ none
  pub stopped : r.0 ≡ none → 64 ≤ length next.tx_queue → next.tx_paused ≡ true
  pub resumed : r.0 ≡ none → length next.tx_queue ≤ 16 → next.tx_paused ≡ false

unchanged :
    (aggr : ℕ) (linear : Bool) (ctx : Context) (skb : Frame) (e : Errno)
    → length ctx.tx_queue ≤ tx_queue_max
    → (length skb ≤ aggr → linear ≡ true → ⊥)
    → Settled aggr linear ctx skb (some e, some ctx)
unchanged aggr linear ctx skb e h bad = record {
  next = ctx;
  kept = refl;
  bound = h;
  refused = λ _. refl;
  taken = λ a l _ _ _. absurd (bad a l);
  stopped = λ z. absurd (cc);
  resumed = λ z. absurd (cc);
}

module _ (fw : Block → Block) where
  second_try-le :
      (rest : Block → Bool → Block × List Frame × Bool) (q : List Frame) (n : ℕ)
      (t : Bool × Block × Bool)
      → ((b : Block) (k : Bool) → length (rest b k).1 ≤ n)
      → length q ≤ n
      → length (second_try fw rest q t).1 ≤ n
  unfolding second_try
  second_try-le rest q n (true, b, k) h hq = h b k
  second_try-le rest q n (false, b, k) h hq = hq

  first_try-le :
      (rest : Block → Bool → Block × List Frame × Bool) (f : Frame) (q : List Frame)
      (t : Bool × Block × Bool)
      → ((b : Block) (k : Bool) → length (rest b k).1 ≤ suc (length q))
      → length (first_try fw rest f q t).1 ≤ suc (length q)
  unfolding first_try
  first_try-le rest f q (true, b, k) h = h b k
  first_try-le rest f q (false, b, k) h = second_try-le rest (f ∷ q) _ _ h (omega arith)

  -- A flush only takes frames from the queue.
  pub flush_loop-le :
      (q : List Frame) (b : Block) (kick : Bool) → length (flush_loop fw b q kick).1 ≤ length q
  unfolding flush_loop
  flush_loop-le [] b kick = omega arith
  flush_loop-le (f ∷ q) b kick =
      first_try-le _ f q (esp_shm_push fw b f kick) (λ b' k. omega (arith, flush_loop-le q b' k))

tx_flow-queue : (n : ℕ) (ctx : Context) (p : Bool) → (tx_flow n ctx p).tx_queue ≡ ctx.tx_queue
unfolding tx_flow
tx_flow-queue n ctx p = ground arith

tx_flow-paused : (n : ℕ) (ctx : Context) (p : Bool) → (tx_flow n ctx p).tx_paused ≡ p
unfolding tx_flow
tx_flow-paused n ctx p = ground arith

abbrev pub Ready : Context → Type 0
Ready ctx = (ctx.running ≡ true) × (ctx.tx_quiesced ≡ false)

module _ (fw : Block → Block) (interfaces : ℕ) where
  -- A flush of a ready context leaves a queue that is no longer, and wakes the net queues when
  -- it is short.
  pub tx_flush_lem :
      (ctx : Context)
      → Ready ctx
      → (length (tx_flush fw interfaces ctx).tx_queue ≤ length ctx.tx_queue)
        × (length (tx_flush fw interfaces ctx).tx_queue ≤ tx_resume
            → (tx_flush fw interfaces ctx).tx_paused ≡ false)
  unfolding tx_flush
  tx_flush_lem ctx (r, nq) =
      let out = flush_loop fw ctx.shm ctx.tx_queue false in
      let ctx1 = record ctx { shm = out.0; tx_queue = out.1 } in
      ground (
        arith,
        flush_loop-le fw ctx.tx_queue ctx.shm false,
        tx_flow-queue interfaces ctx1 false,
        tx_flow-paused interfaces ctx1 false,
      )

  -- `esp_shm_write` under the lock keeps the bound on the queue. Where it takes the frame, the net
  -- queues are stopped from 64 waiting frames on, and run at 16 or fewer. Where it does not, the
  -- context is as it was.
  pub write_locked_lem :
      (ctx : Context) (skb : Frame)
      → length ctx.tx_queue ≤ tx_queue_max
      → (length (write_locked fw interfaces ctx skb).1.tx_queue ≤ tx_queue_max)
        × ((write_locked fw interfaces ctx skb).0 ≡ none
            → (tx_pause ≤ length (write_locked fw interfaces ctx skb).1.tx_queue
                → (write_locked fw interfaces ctx skb).1.tx_paused ≡ true)
              × (length (write_locked fw interfaces ctx skb).1.tx_queue ≤ tx_resume
                  → (write_locked fw interfaces ctx skb).1.tx_paused ≡ false))
        × ((write_locked fw interfaces ctx skb).0 ≢ none
            → (write_locked fw interfaces ctx skb).1 ≡ ctx)
  unfolding write_locked
  write_locked_lem ctx skb h =
      let ctx0 = record ctx { tx_queue = ctx.tx_queue ++ (skb ∷ []) } in
      let ctx1 = tx_flush fw interfaces ctx0 in
      ground (
        arith,
        tx_flush_lem ctx0,
        length-append ctx.tx_queue (skb ∷ []),
        tx_flow-queue interfaces ctx1 true,
        tx_flow-paused interfaces ctx1 true,
      )

  write_locked-taken :
      (ctx : Context) (skb : Frame)
      → ctx.running ≡ true
      → ctx.tx_quiesced ≡ false
      → length ctx.tx_queue < tx_queue_max
      → (write_locked fw interfaces ctx skb).0 ≡ none
  unfolding write_locked
  write_locked-taken ctx skb r q lt = ground arith

  -- With a context and a frame, from a queue of at most 256 frames: a write that returns an error
  -- leaves the whole context as it was. It takes every frame of at most the aggregation size that
  -- is linear, while the driver runs, is not quiesced, and has fewer than 256 frames waiting. Then
  -- the net queues are stopped from 64 waiting frames on, and run at 16 or fewer. No more than 256
  -- frames wait after it.
  pub esp_shm_write-Settled :
      (aggr : ℕ) (ctx : Context) (skb : Frame) (linear : Bool)
      → length ctx.tx_queue ≤ 256
      → Settled aggr linear ctx skb (esp_shm_write fw interfaces aggr (some ctx) (some skb) linear)
  unfolding esp_shm_write
  esp_shm_write-Settled aggr ctx skb linear h = elim (Bool-cases (ltb aggr (length skb))) [
    | inl long ↦ rw long (unchanged aggr linear ctx skb emsgsize h (λ a l. absurd (ground arith)))
    | inr fits ↦ elim (Bool-cases linear) [
      | inr pieces ↦ rw (fits, pieces) (unchanged aggr false ctx skb enomem h (λ a l. cc))
      | inl whole ↦
          let (b, flow, same) = write_locked_lem ctx skb h in
          rw (fits, whole)
            (record {
              next = (write_locked fw interfaces ctx skb).1;
              kept = refl;
              bound = b;
              refused = same;
              taken = λ _ _ r q lt. write_locked-taken ctx skb r q lt;
              stopped = λ e. (flow e).0;
              resumed = λ e. (flow e).1;
            })
    ]
  ]
