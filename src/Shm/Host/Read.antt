-- ===== src/Shm/Host/Read.antt =====
-- `esp_shm_read`: the oldest frame of the ring that memory can be had for, and the bad record.
use esp32_s31_linux.Common.{
  ℕ, zero, suc, ◌+◌, ◌*◌, ◌≤◌, ◌<◌, ◌≡◌, refl, ap, ◌∙◌, sym, arith, List, [], ◌∷◌, length, Bool,
  true, if◌then◌else◌, add32, from_le32, from_le32-le32, some, inl, inr, Bool-cases,
}
use esp32_s31_linux.Shm.Layout.{Block, to_host, head_off, tail_off, record_len, set_word}
use esp32_s31_linux.Shm.Copy.{copy_out-rd}
use esp32_s31_linux.Shm.Circular.{rd_cong}
use esp32_s31_linux.Shm.Records.{Frame, Frames, used, drop-Frames, add32-cell, Frames-used}
use esp32_s31_linux.Shm.Sizes.{to_host-IsSized, record_len-space}
use esp32_s31_linux.Shm.Host.{
  Context, ReadResult, nothing, got, ring_copy_out, rx_done, read_loop, read_fuel, esp_shm_read,
}

-- The frames after those for which memory was refused: the first attempt that gets memory wins.
abbrev pub first_served : (ℕ → Bool) → ℕ → List Frame → ReadResult × List Frame
first_served alloc a [] = (nothing, [])
first_served alloc a (f ∷ fs) =
    let rest = first_served alloc (a + 1) fs in if alloc a then (got f, fs) else rest

-- The length word of the record at `tail`.
abbrev pub length_at_tail : Context → ℕ
length_at_tail ctx =
    from_le32 (ring_copy_out to_host ctx.shm (ctx.shm.words (to_host.ctrl + tail_off)) 4)

-- The context after the driver has dropped all frames.
abbrev pub tail_at_head : Context → Context
tail_at_head ctx = record ctx {
  shm = set_word ctx.shm (to_host.ctrl + tail_off) (ctx.shm.words (to_host.ctrl + head_off));
}

module _ (hdr : ℕ) where
  abbrev pub ToHost : Block → List Frame → Type 0
  ToHost = Frames to_host hdr to_host.size

  read-len :
      (b : Block) (f : Frame) (fs : List Frame)
      → ToHost b (f ∷ fs)
      → from_le32 (ring_copy_out to_host b (b.words (to_host.ctrl + tail_off)) 4) ≡ length f
  unfolding ring_copy_out
  read-len b f fs v =
      ap from_le32 (
        copy_out-rd to_host.base to_host.size b.bytes (b.words (to_host.ctrl + tail_off)) 4
          (omega arith) (omega arith)
        ∙ v.held.0)
      ∙ from_le32-le32 (length f) (omega (arith, v.sound.0))

  read-frame :
      (b : Block) (f : Frame) (fs : List Frame)
      → ToHost b (f ∷ fs)
      → ring_copy_out to_host b (add32 (b.words (to_host.ctrl + tail_off)) 4) (length f) ≡ f
  unfolding ring_copy_out
  read-frame b f fs v =
      copy_out-rd to_host.base to_host.size b.bytes _ (length f) (omega arith)
        (omega (arith, v.sound.0))
      ∙ rd_cong to_host.base to_host.size b.bytes _ (b.words (to_host.ctrl + tail_off) + 4)
          (length f) (add32-cell to_host.size to_host-IsSized _ _ 4 refl)
      ∙ v.held.1

  rx_done-Frames :
      (ctx : Context) (f : Frame) (fs : List Frame)
      → ToHost ctx.shm (f ∷ fs)
      → ToHost
          (rx_done ctx
            (add32 (ctx.shm.words (to_host.ctrl + tail_off)) (record_len (length f)))).shm
          fs
  rx_done-Frames ctx f fs v =
      drop-Frames to_host hdr to_host.size to_host-IsSized ctx.shm _ f fs v
        (unfold rx_done in ground arith)
        (unfold rx_done in ground (arith, record_len-space (length f) (omega (arith, v.sound.0))))
        (unfold rx_done in ground arith)

  rx_done-tail : (ctx : Context) (t : ℕ) → (rx_done ctx t).shm.words (to_host.ctrl + tail_off) ≡ t
  unfolding rx_done
  rx_done-tail ctx t = ground arith

  module _ (alloc : ℕ → Bool) where
    read_loop-frame :
        (fuel a : ℕ) (ctx : Context) (f : Frame) (fs : List Frame) (tail : ℕ)
        → tail ≡ ctx.shm.words (to_host.ctrl + tail_off)
        → ToHost ctx.shm (f ∷ fs)
        → read_loop hdr alloc (suc fuel) a ctx tail ≡ (
            if alloc a
            then (got f, rx_done ctx (add32 tail (record_len (length f))))
            else read_loop hdr alloc fuel
                (a + 1)
                (rx_done ctx (add32 tail (record_len (length f))))
                (add32 tail (record_len (length f))))
    unfolding read_loop
    read_loop-frame fuel a ctx f fs tail e v =
        rw (e, read-len ctx.shm f fs v, read-frame ctx.shm f fs v)
          (ground (
            arith,
            Frames-used to_host hdr to_host.size to_host-IsSized ctx.shm ctx.shm (f ∷ fs) v,
            record_len-space (length f),
            v.sound.0,
            v.fits,
          ))

    read_loop-empty :
        (fuel a : ℕ) (ctx : Context) (tail : ℕ)
        → tail ≡ ctx.shm.words (to_host.ctrl + tail_off)
        → ToHost ctx.shm []
        → read_loop hdr alloc (suc fuel) a ctx tail ≡ (nothing, ctx)
    unfolding read_loop
    read_loop-empty fuel a ctx tail e v = ground (arith, v.head_word, v.tail_word)

    read_loop-served :
        (fuel a : ℕ) (ctx : Context) (fs : List Frame) (tail : ℕ)
        → length fs < fuel
        → tail ≡ ctx.shm.words (to_host.ctrl + tail_off)
        → ToHost ctx.shm fs
        → ((read_loop hdr alloc fuel a ctx tail).0 ≡ (first_served alloc a fs).0)
          × ToHost (read_loop hdr alloc fuel a ctx tail).1.shm (first_served alloc a fs).1
    read_loop-served zero a ctx fs tail lt e v = absurd (omega arith)
    read_loop-served (suc fuel) a ctx [] tail lt e v =
        rw (read_loop-empty fuel a ctx tail e v) (refl, v)
    read_loop-served (suc fuel) a ctx (f ∷ fs) tail lt e v = elim (Bool-cases (alloc a)) [
      | inl some_memory ↦ rw (read_loop-frame fuel a ctx f fs tail e v, some_memory) (refl, done)
      | inr no_memory ↦
          rw (read_loop-frame fuel a ctx f fs tail e v, no_memory)
            (read_loop-served fuel (a + 1) _ fs _ (omega arith) (sym (rx_done-tail ctx _)) done)
    ]
      where
        done : ToHost (rx_done ctx (add32 tail (record_len (length f)))).shm fs
        done = rw e (rx_done-Frames ctx f fs v)

    few_frames : (fs : List Frame) → length fs * 4 ≤ used fs
    few_frames [] = omega arith
    few_frames (f ∷ fs) = omega (arith, few_frames fs)

    esp_shm_read-running :
        (ctx : Context)
        → ctx.running ≡ true
        → let out =
            read_loop hdr alloc
              (read_fuel hdr alloc)
              0
              ctx
              (ctx.shm.words (to_host.ctrl + tail_off)) in
          esp_shm_read hdr alloc (some ctx) ≡ (out.0, some out.1)
    unfolding esp_shm_read
    esp_shm_read-running ctx r = ground arith

    -- On a ring that holds `fs`, a running driver returns the first frame for which memory is had,
    -- and leaves the frames behind it; those before it are dropped. Without any it returns NULL.
    pub esp_shm_read-served :
        (ctx : Context) (fs : List Frame)
        → ctx.running ≡ true
        → ToHost ctx.shm fs
        → (ctx' : Context) × (esp_shm_read hdr alloc (some ctx)
            ≡ ((first_served alloc 0 fs).0, some ctx'))
          × ToHost ctx'.shm (first_served alloc 0 fs).1
    esp_shm_read-served ctx fs r v =
        let served =
          read_loop-served (read_fuel hdr alloc) 0 ctx fs _ (omega (arith, few_frames fs, v.fits))
            refl v in
        let after =
          (read_loop hdr alloc (read_fuel hdr alloc) 0 ctx
            (ctx.shm.words (to_host.ctrl + tail_off))).1 in
        (after, esp_shm_read-running ctx r ∙ ap (λ t. (t, some after)) served.0, served.1)
