-- ===== src/Shm/Host/Deliver.antt =====
-- What a successful `esp_shm_write` does to the frames of the ring and of the queue together.
use esp32_s31_linux.Common.{ℕ, ◌≤◌, ◌≡◌, arith, List, [], ◌∷◌, ◌++◌, All, Bool, true, false, none}
use esp32_s31_linux.Shm.Layout.{Block}
use esp32_s31_linux.Shm.Records.{Frame, IsFrame, All-append_one}
use esp32_s31_linux.Shm.Host.{Context, flush_loop, tx_flow, tx_flush, write_locked}
use esp32_s31_linux.Shm.Host.Push.{ToFw, IsConsumer, Flushed, flush_loop-Flushed}
use esp32_s31_linux.Shm.Host.Queue.{Ready}

tx_flow-shm : (n : ℕ) (ctx : Context) (p : Bool) → (tx_flow n ctx p).shm ≡ ctx.shm
unfolding tx_flow
tx_flow-shm n ctx p = ground arith

tx_flow-tx_queue : (n : ℕ) (ctx : Context) (p : Bool) → (tx_flow n ctx p).tx_queue ≡ ctx.tx_queue
unfolding tx_flow
tx_flow-tx_queue n ctx p = ground arith

module _ (fw : Block → Block) (interfaces : ℕ) where
  flushed : Context → Block × List Frame × Bool
  flushed ctx = flush_loop fw ctx.shm ctx.tx_queue false

  tx_flush-out :
      (ctx : Context)
      → Ready ctx
      → ((tx_flush fw interfaces ctx).shm ≡ (flushed ctx).0)
        × ((tx_flush fw interfaces ctx).tx_queue ≡ (flushed ctx).1)
  unfolding tx_flush flushed
  tx_flush-out ctx (r, nq) =
      let out = flush_loop fw ctx.shm ctx.tx_queue false in
      let ctx1 = record ctx { shm = out.0; tx_queue = out.1 } in
      ground (arith, tx_flow-shm interfaces ctx1 false, tx_flow-tx_queue interfaces ctx1 false)

  write-out :
      (ctx : Context) (skb : Frame)
      → (write_locked fw interfaces ctx skb).0 ≡ none
      → let out = flush_loop fw ctx.shm (ctx.tx_queue ++ (skb ∷ [])) false in
        ((write_locked fw interfaces ctx skb).1.shm ≡ out.0)
        × ((write_locked fw interfaces ctx skb).1.tx_queue ≡ out.1)
  unfolding write_locked flushed
  write-out ctx skb e =
      let ctx0 = record ctx { tx_queue = ctx.tx_queue ++ (skb ∷ []) } in
      let ctx1 = tx_flush fw interfaces ctx0 in
      ground (
        arith,
        tx_flush-out ctx0,
        tx_flow-shm interfaces ctx1 true,
        tx_flow-tx_queue interfaces ctx1 true,
      )

  module _ (hdr max : ℕ) (small : max ≤ 0x4000) (consumer : IsConsumer hdr max small fw) where
    -- On a ring that holds `fs`, while the firmware at most reads, a write that returns 0 puts its
    -- frame behind the waiting frames, and sends a front part of these to the ring, behind the
    -- frames there, whole and in order. What stays in the queue starts with a frame that the ring
    -- had no space for.
    pub write-Flushed :
        (ctx : Context) (skb : Frame) (fs : List Frame)
        → (write_locked fw interfaces ctx skb).0 ≡ none
        → ToFw hdr max small ctx.shm fs
        → All (IsFrame hdr max) ctx.tx_queue
        → IsFrame hdr max skb
        → Flushed hdr max small fw consumer fs
            (ctx.tx_queue ++ (skb ∷ []))
            (write_locked fw interfaces ctx skb).1.shm
            (write_locked fw interfaces ctx skb).1.tx_queue
    write-Flushed ctx skb fs e v oks ok =
        rw ((write-out ctx skb e).0, (write-out ctx skb e).1)
          (flush_loop-Flushed hdr max small fw consumer (ctx.tx_queue ++ (skb ∷ [])) ctx.shm fs
            false v (All-append_one (IsFrame hdr max) ctx.tx_queue skb oks ok))
