-- ===== src/Shm/Return.antt =====
-- The other direction: the push of the firmware and the read of Linux on one block, as the bounded
-- queue of the frames that the ring holds.
use esp32_s31_linux.Common.{
  ℕ, ◌+◌, ◌≤◌, ◌≡◌, refl, ap, ◌∙◌, arith, List, [], ◌∷◌, ◌++◌, length, length-append, Bool, true,
  false, ltb, Option, none, some, take, drop, take-append-drop, All, Bool-cases, inl, inr, add32,
  sub32, ◌==◌,
}
use mathlib.Core.Path.{ap₂, subst}
use esp32_s31_linux.Shm.Layout.{Block, to_host, head_off, tail_off, record_len}
use esp32_s31_linux.Shm.Records.{Frame, Frames, IsFrame, used, space, Frames-used}
use esp32_s31_linux.Shm.Sizes.{to_host-IsSized}
use esp32_s31_linux.Shm.Host.{Context, ReadResult, nothing, got, recover, stuck, esp_shm_read}
use esp32_s31_linux.Shm.Host.Read.{esp_shm_read-served}
use esp32_s31_linux.Shm.Firmware.{to_host_frame_max, ring_push, push_store}
use esp32_s31_linux.Shm.Firmware.Push.{push_store-Frames}
use esp32_s31_linux.Shm.Link.{Op, send, receive, Reply, accepted, received, run_queue, IsSend}

abbrev pub reply_frame : ReadResult → Option Frame
reply_frame nothing = none
reply_frame (got f) = some f
reply_frame recover = none
reply_frame stuck = none

abbrev pub reply_block : Block → Option Context → Block
reply_block b none = b
reply_block b (some ctx) = ctx.shm

abbrev pub push_done : Option (Block × Bool) → Bool
push_done none = false
push_done (some (b, kick)) = true

abbrev pub push_block : Block → Option (Block × Bool) → Block
push_block b none = b
push_block b (some (b', kick)) = b'

-- Frames within a smaller limit.
Frames-sound :
    (hdr hi hi' : ℕ) (b : Block) (fs : List Frame)
    → Frames to_host hdr hi b fs
    → All (IsFrame hdr hi') fs
    → Frames to_host hdr hi' b fs
Frames-sound hdr hi hi' b fs v ok = record {
  tail_word = v.tail_word;
  head_word = v.head_word;
  fits = v.fits;
  sound = ok;
  held = v.held;
}

All-larger :
    (hdr hi : ℕ) (fs : List Frame)
    → hi ≤ to_host.size
    → All (IsFrame hdr hi) fs
    → All (IsFrame hdr to_host.size) fs
All-larger hdr hi [] h ok = tt
All-larger hdr hi (f ∷ fs) h (k, ok) = ((k.0, omega (arith, k.1)), All-larger hdr hi fs h ok)

-- `ctx` is the context of Linux but for the block; `hdr` is the size of the header, which the
-- firmware hands over apart from the payload.
module _ (hdr : ℕ) (ctx : Context) where
  unfoldable pub run_to_host : Block → List Op → List Reply
  run_to_host b [] = []
  run_to_host b (send f ∷ ops) =
      let out = ring_push (λ c. c) to_host b (take hdr f) (drop hdr f) in
      accepted (push_done out) ∷ run_to_host (push_block b out) ops
  run_to_host b (receive ∷ ops) =
      let out = esp_shm_read hdr (λ i. true) (some (record ctx { shm = b })) in
      received (reply_frame out.0) ∷ run_to_host (reply_block b out.1) ops

  ring_push-test :
      (b : Block) (fs : List Frame) (f : Frame)
      → Frames to_host hdr to_host_frame_max b fs
      → length f ≤ to_host_frame_max
      → ltb
          (sub32 to_host.size
            (sub32 (b.words (to_host.ctrl + head_off)) (b.words (to_host.ctrl + tail_off))))
          (record_len (add32 (length (take hdr f)) (length (drop hdr f))))
        ≡ ltb to_host.size (used fs + space (length f))
  ring_push-test b fs f v h = ground (
    arith,
    v.fits,
    Frames-used to_host hdr to_host_frame_max to_host-IsSized b b fs v,
    length-append (take hdr f) (drop hdr f),
    ap length (take-append-drop hdr f),
  )

  abbrev pushed : Block → Frame → Block
  pushed b f = push_store to_host b (take hdr f) (drop hdr f)

  push_refused :
      (b : Block) (fs : List Frame) (f : Frame)
      → Frames to_host hdr to_host_frame_max b fs
      → length f ≤ to_host_frame_max
      → ltb to_host.size (used fs + space (length f)) ≡ true
      → ring_push (λ c. c) to_host b (take hdr f) (drop hdr f) ≡ none
  unfolding ring_push
  push_refused b fs f v h full = rw (ring_push-test b fs f v h ∙ full)

  push_taken :
      (b : Block) (fs : List Frame) (f : Frame)
      → Frames to_host hdr to_host_frame_max b fs
      → length f ≤ to_host_frame_max
      → ltb to_host.size (used fs + space (length f)) ≡ false
      → ring_push (λ c. c) to_host b (take hdr f) (drop hdr f)
        ≡ some (
          pushed b f,
          ((pushed b f).words (to_host.ctrl + tail_off) == b.words (to_host.ctrl + head_off)),
        )
  unfolding ring_push
  push_taken b fs f v h fit = rw (ring_push-test b fs f v h ∙ fit)

  pushed-Frames :
      (b : Block) (fs : List Frame) (f : Frame)
      → Frames to_host hdr to_host_frame_max b fs
      → IsFrame hdr to_host_frame_max f
      → ltb to_host.size (used fs + space (length f)) ≡ false
      → Frames to_host hdr to_host_frame_max (pushed b f) (fs ++ (f ∷ []))
  pushed-Frames b fs f v ok fit =
      let whole = take-append-drop hdr f in
      subst (λ t. Frames to_host hdr to_host_frame_max (pushed b f) (fs ++ (t ∷ []))) whole
        (push_store-Frames hdr b fs (take hdr f) (drop hdr f) v (rw whole ok)
          (rw whole (ground (arith, fit))))

  -- On a ring that holds `fs`, no sequence of pushes by the firmware and reads by a running Linux
  -- tells the ring from the bounded queue of the frames that it holds, for frames of a header to
  -- 16 KiB, with memory for every read and no read inside a push.
  pub run_to_host-queue :
      (ops : List Op) (b : Block) (fs : List Frame)
      → ctx.running ≡ true
      → Frames to_host hdr to_host_frame_max b fs
      → All (IsSend hdr to_host_frame_max) ops
      → run_to_host b ops ≡ run_queue to_host.size fs ops
  unfolding run_to_host run_queue
  run_to_host-queue [] b fs r v h = refl
  run_to_host-queue (send f ∷ ops) b fs r v (ok, h) =
      elim (Bool-cases (ltb to_host.size (used fs + space (length f)))) [
        | inl full ↦
            rw (full, push_refused b fs f v ok.1 full)
              (ap (λ l. accepted false ∷ l) (run_to_host-queue ops b fs r v h))
        | inr fit ↦
            rw (fit, push_taken b fs f v ok.1 fit)
              (ap (λ l. accepted true ∷ l)
                (run_to_host-queue ops (pushed b f) (fs ++ (f ∷ [])) r
                  (pushed-Frames b fs f v ok fit) h))
      ]
  run_to_host-queue (receive ∷ ops) b [] r v (ok, h) =
      let (c, e, v') =
        esp_shm_read-served hdr (λ i. true) (record ctx { shm = b }) [] r
          (Frames-sound hdr to_host_frame_max to_host.size b [] v tt) in
      ap₂ (λ k l. received k ∷ l) (ap (λ t. reply_frame (t.0)) e)
        (ap (λ t. run_to_host (reply_block b (t.1)) ops) e
          ∙ run_to_host-queue ops c.shm [] r
              (Frames-sound hdr to_host.size to_host_frame_max c.shm [] v' tt) h)
  run_to_host-queue (receive ∷ ops) b (f ∷ fs) r v (ok, h) =
      let (c, e, v') =
        esp_shm_read-served hdr (λ i. true) (record ctx { shm = b }) (f ∷ fs) r
          (Frames-sound hdr to_host_frame_max to_host.size b (f ∷ fs) v
            (All-larger hdr to_host_frame_max (f ∷ fs) (omega arith) v.sound)) in
      ap₂ (λ k l. received k ∷ l) (ap (λ t. reply_frame (t.0)) e)
        (ap (λ t. run_to_host (reply_block b (t.1)) ops) e
          ∙ run_to_host-queue ops c.shm fs r
              (Frames-sound hdr to_host.size to_host_frame_max c.shm fs v' v.sound.1) h)
