-- ===== src/Shm/Host/Push.antt =====
-- `esp_shm_push` and the loop of `esp_shm_tx_flush`: the frames reach the ring whole and in order.
use esp32_s31_linux.Common.{
  ℕ, ◌+◌, ◌-◌, ◌%◌, ◌≤◌, ◌<◌, ◌≡◌, refl, ap, ◌∙◌, sym, arith, List, [], ◌∷◌, ◌++◌, length, Bool,
  true, false, not, ltb, add32, le32, All, ◌⊎◌, inl, inr, Bool-cases,
}
use mathlib.Core.List.{append-nil, append_assoc}
use esp32_s31_linux.Shm.Layout.{Block, to_fw, head_off, tail_off, wait_off, set_word}
use esp32_s31_linux.Shm.Copy.{copy_in-wr}
use esp32_s31_linux.Shm.Circular.{wr}
use esp32_s31_linux.Shm.Records.{
  Frame, Frames, IsFrame, used, space, write_record, write_record-cong, Frames-used, append-Frames,
  word-cell, add32-cell, other-Frames,
}
use esp32_s31_linux.Shm.Sizes.{to_fw-IsSized, record_len-space}
use esp32_s31_linux.Shm.Host.{
  ring_copy_in, push_store, push_fits, esp_shm_push, flush_loop, first_try, second_try,
}

module _ (hdr max : ℕ) (small : max ≤ 0x4000) where
  abbrev pub ToFw : Block → List Frame → Type 0
  ToFw = Frames to_fw hdr max

  head-cell :
      (b : Block) (fs : List Frame)
      → ToFw b fs
      → b.words (to_fw.ctrl + head_off) % to_fw.size
        ≡ (b.words (to_fw.ctrl + tail_off) + used fs) % to_fw.size
  head-cell b fs v =
      ap (λ t. t % to_fw.size) v.head_word
      ∙ word-cell to_fw.size to_fw-IsSized (b.words (to_fw.ctrl + tail_off) + used fs)

  push_store-bytes :
      (b : Block) (fs : List Frame) (f : Frame)
      → ToFw b fs
      → length f ≤ max
      → (push_store b f).bytes
        ≡ write_record to_fw.base to_fw.size b.bytes (b.words (to_fw.ctrl + tail_off) + used fs) f
  unfolding push_store ring_copy_in
  push_store-bytes b fs f v h =
      copy_in-wr to_fw.base to_fw.size _ _ (le32 (length f)) (omega arith) (omega arith)
      ∙ ap (λ t. wr to_fw.base to_fw.size t (b.words (to_fw.ctrl + head_off)) (le32 (length f)))
          (copy_in-wr to_fw.base to_fw.size b.bytes _ f (omega arith) (omega arith))
      ∙ write_record-cong to_fw.base to_fw.size b.bytes (b.words (to_fw.ctrl + tail_off) + used fs)
          (b.words (to_fw.ctrl + head_off)) f (add32 (b.words (to_fw.ctrl + head_off)) 4)
          (head-cell b fs v) (add32-cell to_fw.size to_fw-IsSized _ _ 4 (head-cell b fs v))

  -- The two stores of a push that fits append the frame.
  pub push_store-Frames :
      (b : Block) (fs : List Frame) (f : Frame)
      → ToFw b fs
      → IsFrame hdr max f
      → used fs + space (length f) ≤ to_fw.size
      → ToFw (push_store b f) (fs ++ (f ∷ []))
  push_store-Frames b fs f v ok fit =
      append-Frames to_fw hdr max to_fw-IsSized b (push_store b f) fs f v ok fit
        (push_store-bytes b fs f v ok.1) (unfold push_store ring_copy_in in refl)
        (unfold push_store ring_copy_in in
          ap (add32 (b.words (to_fw.ctrl + head_off))) (record_len-space (length f) (omega arith)))

  -- The test of the code is the test for space.
  pub push_fits_lem :
      (b : Block) (fs : List Frame) (f : Frame)
      → ToFw b fs
      → length f ≤ max
      → push_fits b f ≡ not (ltb (to_fw.size - used fs) (space (length f)))
  unfolding push_fits
  push_fits_lem b fs f v h =
      rw
        (
          Frames-used to_fw hdr max to_fw-IsSized b b fs v,
          record_len-space (length f) (omega arith),
        )
        (ap (λ t. not (ltb t (space (length f)))) (omega (arith, v.fits)))

  -- The oldest frames `gone` have left the ring, and it holds the rest of `fs`.
  pub record Consumed (b : Block) (fs : List Frame) : Type 0 where
    pub gone : List Frame
    pub left : List Frame
    pub split : fs ≡ gone ++ left
    pub holds : ToFw b left

  -- What the firmware may do to its ring: read frames, oldest first.
  abbrev pub IsConsumer : (Block → Block) → Type 0
  IsConsumer fw = (b : Block) (fs : List Frame) → ToFw b fs → Consumed (fw b) fs

  -- The wait flag is no index word.
  wait-Frames :
      (b : Block) (fs : List Frame) → ToFw b fs → ToFw (set_word b (to_fw.ctrl + wait_off) 1) fs
  wait-Frames b fs v =
      other-Frames to_fw hdr max to_fw-IsSized b (set_word b (to_fw.ctrl + wait_off) 1) fs v refl
        refl (λ j h k. refl)

  Consumed-more :
      (b : Block) (gone left more : List Frame)
      → Consumed b (left ++ more)
      → Consumed b ((gone ++ left) ++ more)
  Consumed-more b gone left more c = record {
    gone = gone ++ c.gone;
    left = c.left;
    split =
        append_assoc gone left more
        ∙ ap (λ t. gone ++ t) c.split
        ∙ sym (append_assoc gone c.gone c.left);
    holds = c.holds;
  }

  module _ (fw : Block → Block) (consumer : IsConsumer fw) where
    -- A push either fails, with the ring full and the block untouched, or appends its frame.
    pub esp_shm_push-cases :
        (b : Block) (fs : List Frame) (f : Frame) (kick : Bool)
        → ToFw b fs
        → IsFrame hdr max f
        → ((esp_shm_push fw b f kick ≡ (false, b, kick))
            × (to_fw.size < used fs + space (length f)))
          ⊎ (((esp_shm_push fw b f kick).0 ≡ true)
              × Consumed (esp_shm_push fw b f kick).1 (fs ++ (f ∷ [])))
    unfolding esp_shm_push
    esp_shm_push-cases b fs f kick v ok = elim (Bool-cases (push_fits b f)) [
      | inl fit ↦ inr (
        rw fit,
        rw fit (
            consumer (push_store b f) (fs ++ (f ∷ [])) (
              push_store-Frames b fs f v ok (ground (arith, push_fits_lem b fs f v ok.1, v.fits)))),
      )
      | inr full ↦ inl (rw full, ground (arith, push_fits_lem b fs f v ok.1, v.fits))
    ]

    -- After the loop: the frames of `q` up to `rest` went into the ring behind `fs`, and the first
    -- frame that stayed does not fit.
    pub record Flushed (fs q : List Frame) (b : Block) (rest : List Frame) : Type 0 where
      pub sent : List Frame
      pub queue : q ≡ sent ++ rest
      pub ring : Consumed b (fs ++ sent)
      pub blocked :
          (rest ≡ [])
          ⊎ ((f : Frame) × (r : List Frame) × (rest ≡ f ∷ r)
              × (to_fw.size < used ring.left + space (length f)))

    -- What the loop does from frames `fs'` of which `gone` are read is what it does from all.
    Flushed-more :
        (fs fs' gone done q : List Frame) (b : Block) (rest : List Frame)
        → fs ++ done ≡ gone ++ fs'
        → Flushed fs' q b rest
        → Flushed fs (done ++ q) b rest
    Flushed-more fs fs' gone done q b rest e t = record {
      sent = done ++ t.sent;
      queue = ap (λ l. done ++ l) t.queue ∙ sym (append_assoc done t.sent rest);
      ring = record {
        gone = gone ++ t.ring.gone;
        left = t.ring.left;
        split =
            sym (append_assoc fs done t.sent)
            ∙ ap (λ l. l ++ t.sent) e
            ∙ append_assoc gone fs' t.sent
            ∙ ap (λ l. gone ++ l) t.ring.split
            ∙ sym (append_assoc gone t.ring.gone t.ring.left);
        holds = t.ring.holds;
      };
      blocked = t.blocked;
    }

    flush_stop :
        (b : Block) (fs : List Frame) (f : Frame) (q : List Frame)
        → ToFw b fs
        → to_fw.size < used fs + space (length f)
        → Flushed fs (f ∷ q) b (f ∷ q)
    flush_stop b fs f q v full = record {
      sent = [];
      queue = refl;
      ring = record { gone = []; left = fs; split = append-nil fs; holds = v };
      blocked = inr (f, q, refl, full);
    }

    abbrev again : Block → Block
    again b = fw (set_word b (to_fw.ctrl + wait_off) 1)

    first_sent :
        (rest : Block → Bool → Block × List Frame × Bool) (f : Frame) (q : List Frame)
        (t : Bool × Block × Bool)
        → t.0 ≡ true
        → first_try fw rest f q t ≡ rest t.1 t.2
    unfolding first_try
    first_sent rest f q (true, b, kick) e = refl
    first_sent rest f q (false, b, kick) e = cc

    second_sent :
        (rest : Block → Bool → Block × List Frame × Bool) (q : List Frame) (t : Bool × Block × Bool)
        → t.0 ≡ true
        → second_try fw rest q t ≡ rest t.1 t.2
    unfolding second_try
    second_sent rest q (true, b, kick) e = refl
    second_sent rest q (false, b, kick) e = cc

    flush_sent :
        (b : Block) (f : Frame) (q : List Frame) (kick : Bool)
        → (esp_shm_push fw b f kick).0 ≡ true
        → flush_loop fw b (f ∷ q) kick
          ≡ flush_loop fw (esp_shm_push fw b f kick).1 q (esp_shm_push fw b f kick).2
    unfolding flush_loop
    flush_sent b f q kick e = first_sent _ f q (esp_shm_push fw b f kick) e

    flush_retried :
        (b : Block) (f : Frame) (q : List Frame) (kick : Bool)
        → esp_shm_push fw b f kick ≡ (false, b, kick)
        → (esp_shm_push fw (again b) f kick).0 ≡ true
        → flush_loop fw b (f ∷ q) kick
          ≡ flush_loop fw
              (esp_shm_push fw (again b) f kick).1
              q
              (esp_shm_push fw (again b) f kick).2
    unfolding flush_loop first_try
    flush_retried b f q kick e e2 =
        ap (first_try fw (λ b' kick'. flush_loop fw b' q kick') f q) e
        ∙ second_sent _ (f ∷ q) (esp_shm_push fw (again b) f kick) e2

    flush_full :
        (b : Block) (f : Frame) (q : List Frame) (kick : Bool)
        → esp_shm_push fw b f kick ≡ (false, b, kick)
        → esp_shm_push fw (again b) f kick ≡ (false, again b, kick)
        → flush_loop fw b (f ∷ q) kick ≡ (again b, f ∷ q, kick)
    unfolding flush_loop first_try second_try
    flush_full b f q kick e e2 =
        ap (first_try fw (λ b' kick'. flush_loop fw b' q kick') f q) e
        ∙ ap (second_try fw (λ b' kick'. flush_loop fw b' q kick') (f ∷ q)) e2

    -- On a ring that holds `fs`, while the firmware at most reads, the loop sends a front part of
    -- the queue, whole and in order, and stops only at the end of the queue or at a frame that
    -- does not fit.
    pub flush_loop-Flushed :
        (q : List Frame) (b : Block) (fs : List Frame) (kick : Bool)
        → ToFw b fs
        → All (IsFrame hdr max) q
        → Flushed fs q (flush_loop fw b q kick).0 (flush_loop fw b q kick).1
    flush_loop-Flushed [] b fs kick v ok =
        unfold flush_loop in
        record {
          sent = [];
          queue = refl;
          ring = record { gone = []; left = fs; split = append-nil fs; holds = v };
          blocked = inl refl;
        }
    flush_loop-Flushed (f ∷ q) b fs kick v (ok, oks) = elim (esp_shm_push-cases b fs f kick v ok) [
      | inr (e, c) ↦ rw (flush_sent b f q kick e) (
          Flushed-more fs c.left c.gone (f ∷ []) q _ _ c.split
            (flush_loop-Flushed q _ c.left _ c.holds oks))
      | inl (e, full) ↦
          let a = consumer (set_word b (to_fw.ctrl + wait_off) 1) fs (wait-Frames b fs v) in
          elim (esp_shm_push-cases (again b) a.left f kick a.holds ok) [
            | inr (e2, c) ↦ rw (flush_retried b f q kick e e2) (
                Flushed-more fs c.left (a.gone ++ c.gone) (f ∷ []) q _ _
                  (ap (λ l. l ++ (f ∷ [])) a.split
                    ∙ append_assoc a.gone a.left (f ∷ [])
                    ∙ ap (λ l. a.gone ++ l) c.split
                    ∙ sym (append_assoc a.gone c.gone c.left))
                  (flush_loop-Flushed q _ c.left _ c.holds oks))
            | inl (e2, full2) ↦ rw (flush_full b f q kick e e2) (
                Flushed-more fs a.left a.gone [] (f ∷ q) _ _ (append-nil fs ∙ a.split)
                  (flush_stop (again b) a.left f q a.holds full2))
          ]
    ]
