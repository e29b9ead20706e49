-- ===== src/Shm/Firmware/Push.antt =====
-- `ring_push` and `shm_write` of the firmware: header and payload reach the ring as one frame.
use esp32_s31_linux.Common.{
  ℕ, zero, suc, ◌+◌, ◌-◌, ◌%◌, ◌≤◌, ◌<◌, ◌≡◌, refl, ap, ◌∙◌, sym, arith, List, [], ◌∷◌, ◌++◌,
  length, length-append, Bool, ◌||◌, ltb, ◌==◌, add32, sub32, le32, Option, none, some, ◌⊎◌, inl,
  inr, Bool-cases, min, take, drop, write_bytes,
}
use mathlib.Core.Path.{ap₂ as ap2}
use mathlib.Core.List.{append_assoc}
use esp32_s31_linux.Shm.Layout.{Block, to_host, head_off, tail_off, wait_off, record_len, set_word}
use esp32_s31_linux.Shm.Copy.{copy_in, copy_in-wr}
use esp32_s31_linux.Shm.Circular.{wr, wr-append, wr_cong}
use esp32_s31_linux.Shm.Records.{
  Frame, Frames, IsFrame, used, space, write_record, write_record-cong, Frames-used, append-Frames,
  word-cell, add32-cell, other-Frames,
}
use esp32_s31_linux.Shm.Sizes.{to_host-IsSized, record_len-space}
use esp32_s31_linux.Shm.Firmware.{
  ring_copy_in, push_store, ring_push, to_host_frame_max, write_second, write_first, write_loop,
  shm_write, write_result,
}

pub ring_copy_in-wr :
    (b : Block) (pos : ℕ) (src : List ℕ)
    → length src ≤ to_host.size
    → (ring_copy_in to_host b pos src).bytes ≡ wr to_host.base to_host.size b.bytes pos src
unfolding ring_copy_in
ring_copy_in-wr b pos src h =
    ap
      (λ k.
        write_bytes (write_bytes b.bytes (to_host.base + pos % to_host.size) (take k src))
          to_host.base (drop k src))
      {y = min (length src) (to_host.size - pos % to_host.size)} (ground arith)
    ∙ unfold copy_in in copy_in-wr to_host.base to_host.size b.bytes pos src (omega arith) h

module _ (lo : ℕ) where
  abbrev pub ToHost : Block → List Frame → Type 0
  ToHost = Frames to_host lo to_host_frame_max

  head-cell :
      (b : Block) (fs : List Frame)
      → ToHost b fs
      → b.words (to_host.ctrl + head_off) % to_host.size
        ≡ (b.words (to_host.ctrl + tail_off) + used fs) % to_host.size
  head-cell b fs v =
      ap (λ t. t % to_host.size) v.head_word
      ∙ word-cell to_host.size to_host-IsSized (b.words (to_host.ctrl + tail_off) + used fs)

  push_store-bytes :
      (b : Block) (fs : List Frame) (hdr payload : List ℕ)
      → ToHost b fs
      → length (hdr ++ payload) ≤ to_host_frame_max
      → (push_store to_host b hdr payload).bytes
        ≡ write_record to_host.base to_host.size b.bytes
            (b.words (to_host.ctrl + tail_off) + used fs)
            (hdr ++ payload)
  push_store-bytes b fs hdr payload v h =
      unfold push_store in
      ring_copy_in-wr _ head (le32 (add32 (length hdr) (length payload))) (omega arith)
      ∙ ap2 (λ k t. wr to_host.base to_host.size t head (le32 k))
          (omega (arith, length-append hdr payload))
          (ring_copy_in-wr (ring_copy_in to_host b head4 hdr) (add32 head4 (length hdr)) payload
              (omega (arith, length-append hdr payload))
            ∙ ap (λ t. wr to_host.base to_host.size t (add32 head4 (length hdr)) payload)
                (ring_copy_in-wr b head4 hdr (omega (arith, length-append hdr payload)))
            ∙ wr_cong to_host.base to_host.size (wr to_host.base to_host.size b.bytes head4 hdr)
                (add32 head4 (length hdr)) (head4 + length hdr) payload
                (add32-cell to_host.size to_host-IsSized head4 head4 (length hdr) refl)
            ∙ sym (wr-append to_host.base to_host.size b.bytes head4 hdr payload))
      ∙ write_record-cong to_host.base to_host.size b.bytes
          (b.words (to_host.ctrl + tail_off) + used fs) head (hdr ++ payload) head4
          (head-cell b fs v) (add32-cell to_host.size to_host-IsSized _ _ 4 (head-cell b fs v))
    where
      head : ℕ
      head = b.words (to_host.ctrl + head_off)

      head4 : ℕ
      head4 = add32 head 4

  abbrev frame_length : List ℕ → List ℕ → ℕ
  frame_length hdr payload = add32 (length hdr) (length payload)

  -- A push that fits appends the header and the payload as one frame.
  pub push_store-Frames :
      (b : Block) (fs : List Frame) (hdr payload : List ℕ)
      → ToHost b fs
      → IsFrame lo to_host_frame_max (hdr ++ payload)
      → used fs + space (length (hdr ++ payload)) ≤ to_host.size
      → ToHost (push_store to_host b hdr payload) (fs ++ ((hdr ++ payload) ∷ []))
  push_store-Frames b fs hdr payload v ok fit =
      append-Frames to_host lo to_host_frame_max to_host-IsSized b
        (push_store to_host b hdr payload) fs (hdr ++ payload) v ok fit
        (push_store-bytes b fs hdr payload v ok.1) (unfold push_store ring_copy_in in refl)
        (unfold push_store ring_copy_in in
          ap (add32 (b.words (to_host.ctrl + head_off))) (
            ap record_len {x = frame_length hdr payload} {y = length (hdr ++ payload)}
              (omega (arith, length-append hdr payload))
            ∙ record_len-space (length (hdr ++ payload)) (omega arith)))

  pub record Consumed (b : Block) (fs : List Frame) : Type 0 where
    pub gone : List Frame
    pub left : List Frame
    pub split : fs ≡ gone ++ left
    pub holds : ToHost b left

  -- What Linux may do to its ring: read frames, oldest first.
  abbrev pub IsConsumer : (Block → Block) → Type 0
  IsConsumer host = (b : Block) (fs : List Frame) → ToHost b fs → Consumed (host b) fs

  module _ (host : Block → Block) (consumer : IsConsumer host) where
    -- A push either fails, where the ring has no space, or appends its frame.
    pub ring_push-cases :
        (b : Block) (fs : List Frame) (hdr payload : List ℕ)
        → ToHost b fs
        → IsFrame lo to_host_frame_max (hdr ++ payload)
        → ((ring_push host to_host b hdr payload ≡ none)
            × (to_host.size < used fs + space (length (hdr ++ payload))))
          ⊎ ((b' : Block) × (kick : Bool) × (ring_push host to_host b hdr payload ≡ some (b', kick))
              × Consumed b' (fs ++ ((hdr ++ payload) ∷ [])))
    unfolding ring_push
    ring_push-cases b fs hdr payload v ok = elim (Bool-cases (ltb space_left need)) [
      | inl full ↦ inl (rw full, ground (arith, free, length-append hdr payload, v.fits))
      | inr fit ↦ inr (
        host (push_store to_host b hdr payload),
        ((host (push_store to_host b hdr payload)).words (to_host.ctrl + tail_off)
            == b.words (to_host.ctrl + head_off)),
        rw fit,
        consumer _ _ (
            push_store-Frames b fs hdr payload v ok
              (ground (arith, free, length-append hdr payload, v.fits))),
      )
    ]
      where
        space_left : ℕ
        space_left =
            sub32 to_host.size
              (sub32 (b.words (to_host.ctrl + head_off)) (b.words (to_host.ctrl + tail_off)))

        need : ℕ
        need = record_len (add32 (length hdr) (length payload))

        free :
            sub32 (b.words (to_host.ctrl + head_off)) (b.words (to_host.ctrl + tail_off)) ≡ used fs
        free = Frames-used to_host lo to_host_frame_max to_host-IsSized b b fs v

    -- What the loop of `shm_write` has done: the frame went in behind `fs`, or only reads happened.
    abbrev pub Written : List Frame → List ℕ → List ℕ → Block × Option Bool → Type 0
    Written fs hdr payload (b, some kick) = Consumed b (fs ++ ((hdr ++ payload) ∷ []))
    Written fs hdr payload (b, none) = Consumed b fs

    Consumed-more :
        (b : Block) (fs gone left more : List Frame)
        → fs ≡ gone ++ left
        → Consumed b (left ++ more)
        → Consumed b (fs ++ more)
    Consumed-more b fs gone left more e c = record {
      gone = gone ++ c.gone;
      left = c.left;
      split =
          ap (λ l. l ++ more) e
          ∙ append_assoc gone left more
          ∙ ap (λ t. gone ++ t) c.split
          ∙ sym (append_assoc gone c.gone c.left);
      holds = c.holds;
    }

    Consumed-then :
        (b : Block) (fs gone left : List Frame)
        → fs ≡ gone ++ left
        → Consumed b left
        → Consumed b fs
    Consumed-then b fs gone left e c = record {
      gone = gone ++ c.gone;
      left = c.left;
      split = e ∙ ap (λ t. gone ++ t) c.split ∙ sym (append_assoc gone c.gone c.left);
      holds = c.holds;
    }

    Written-more :
        (fs gone left : List Frame) (hdr payload : List ℕ) (t : Block × Option Bool)
        → fs ≡ gone ++ left
        → Written left hdr payload t
        → Written fs hdr payload t
    Written-more fs gone left hdr payload (b, some kick) e c = Consumed-more b fs gone left _ e c
    Written-more fs gone left hdr payload (b, none) e c = Consumed-then b fs gone left e c

    wait-Frames :
        (b : Block) (fs : List Frame)
        → ToHost b fs
        → ToHost (set_word b (to_host.ctrl + wait_off) 1) fs
    wait-Frames b fs v =
        other-Frames to_host lo to_host_frame_max to_host-IsSized b
          (set_word b (to_host.ctrl + wait_off) 1) fs v refl refl (λ j h k. refl)

    write_loop-Written :
        (waits : ℕ) (b : Block) (fs : List Frame) (hdr payload : List ℕ)
        → ToHost b fs
        → IsFrame lo to_host_frame_max (hdr ++ payload)
        → Written fs hdr payload (write_loop host waits b hdr payload)
    unfolding write_loop write_first write_second
    write_loop-Written zero b fs hdr payload v ok = record {
      gone = [];
      left = fs;
      split = refl;
      holds = v;
    }
    write_loop-Written (suc waits) b fs hdr payload v ok =
        elim (ring_push-cases b fs hdr payload v ok) [
          | inr (b', kick, e, c) ↦ rw e c
          | inl (e, full) ↦
              let a = consumer (set_word b (to_host.ctrl + wait_off) 1) fs (wait-Frames b fs v) in
              rw e
                (elim (ring_push-cases (host (set_word b (to_host.ctrl + wait_off) 1)) a.left hdr
                  payload a.holds ok) [
                    | inr (b', kick, e2, c) ↦ rw e2 (Consumed-more b' fs a.gone a.left _ a.split c)
                    | inl (e2, full2) ↦
                        let a2 = consumer _ a.left a.holds in
                        rw e2 (
                          Written-more fs a.gone a.left hdr payload _ a.split (
                            Written-more a.left a2.gone a2.left hdr payload _ a2.split
                              (write_loop-Written waits _ a2.left hdr payload a2.holds ok)))
                  ])
        ]

    -- The outcomes of `shm_write` on a ring that holds `fs`.
    abbrev pub Outcome : List Frame → List ℕ → List ℕ → Option ℕ × Block × Bool → Type 0
    Outcome fs hdr payload out =
        ((out.0 ≡ some (length payload)) × Consumed out.1 (fs ++ ((hdr ++ payload) ∷ [])))
        ⊎ ((out.0 ≡ none) × Consumed out.1 fs)

    write_result-Outcome :
        (fs : List Frame) (hdr payload : List ℕ) (t : Block × Option Bool)
        → Written fs hdr payload t
        → Outcome fs hdr payload (write_result (length payload) t)
    write_result-Outcome fs hdr payload (b, none) w = inr (refl, w)
    write_result-Outcome fs hdr payload (b, some kick) w = inl (refl, w)

    -- On a ring that holds `fs`, while Linux at most reads, a write with a header that is long
    -- enough either returns the payload's length with its frame in the ring, whole and behind the
    -- frames there, or fails with no frame added.
    pub shm_write-Outcome :
        (waits : ℕ) (b : Block) (fs : List Frame) (hdr payload : List ℕ)
        → ToHost b fs
        → lo ≤ length hdr
        → Outcome fs hdr payload (shm_write host waits b hdr payload)
    unfolding shm_write
    shm_write-Outcome waits b fs hdr payload v h =
        elim (Bool-cases
          (length payload == 0 || ltb to_host_frame_max (length hdr + length payload))) [
            | inl refused ↦
                rw refused (inr (refl, record { gone = []; left = fs; split = refl; holds = v }))
            | inr ok ↦ rw ok (
                write_result-Outcome fs hdr payload (write_loop host waits b hdr payload) (
                  write_loop-Written waits b fs hdr payload v (
                    ground (arith, length-append hdr payload),
                    ground (arith, length-append hdr payload),
                  )))
          ]

    -- On a ring that holds `fs`, with at least one try, a write of a payload that is not empty,
    -- within the largest frame, and that the ring has space for, returns the payload's length.
    pub shm_write-succeeds :
        (waits : ℕ) (b : Block) (fs : List Frame) (hdr payload : List ℕ)
        → ToHost b fs
        → lo ≤ length hdr
        → 0 < length payload
        → length hdr + length payload ≤ to_host_frame_max
        → used fs + space (length hdr + length payload) ≤ to_host.size
        → (shm_write host (suc waits) b hdr payload).0 ≡ some (length payload)
    unfolding shm_write write_loop write_first
    shm_write-succeeds waits b fs hdr payload v h pos small fit =
        elim (ring_push-cases b fs hdr payload v (omega (arith, length-append hdr payload))) [
          | inl (e, full) ↦ absurd (omega (arith, length-append hdr payload))
          | inr (b', kick, e, c) ↦ rw e (ground arith)
        ]
