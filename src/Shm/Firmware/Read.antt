-- ===== src/Shm/Firmware/Read.antt =====
-- `shm_read` of the firmware, from the ring that Linux fills.
use esp32_s31_linux.Common.{
  ℕ, ◌+◌, ◌-◌, ◌%◌, ◌≤◌, ◌<◌, ◌^◌, ◌≡◌, ◌≢◌, ◌↔◌, refl, ap, ◌∙◌, arith, List, [], ◌∷◌, ◌++◌, length,
  Bool, true, not, ◌==◌, if◌then◌else◌, add32, sub32, from_le32, from_le32-le32, none, some, min,
  read_bytes, ◌⊎◌,
}
use esp32_s31_linux.Shm.Layout.{Block, to_fw, head_off, tail_off, wait_off, record_len, set_word}
use esp32_s31_linux.Shm.Copy.{copy_out, copy_out-rd}
use esp32_s31_linux.Shm.Circular.{rd, rd_cong}
use esp32_s31_linux.Shm.Records.{Frame, Frames, drop-Frames, reset-Frames, add32-cell, Frames-used}
use esp32_s31_linux.Shm.Sizes.{to_fw-IsSized, record_len-space}
use esp32_s31_linux.Shm.Firmware.{
  dropped, got, ring_copy_out, shm_read_frame, shm_read, to_fw_frame_max,
}

ring_copy_out-rd :
    (b : Block) (pos len : ℕ)
    → len ≤ to_fw.size
    → ring_copy_out to_fw b pos len ≡ rd to_fw.base to_fw.size b.bytes pos len
unfolding ring_copy_out
ring_copy_out-rd b pos len h =
    ap
      (λ k.
        read_bytes b.bytes (to_fw.base + pos % to_fw.size) k
        ++ read_bytes b.bytes to_fw.base (len - k))
      {y = min len (to_fw.size - pos % to_fw.size)} (ground arith)
    ∙ unfold copy_out in copy_out-rd to_fw.base to_fw.size b.bytes pos len (omega arith) h

abbrev pub length_at_tail : Block → ℕ
length_at_tail b = from_le32 (ring_copy_out to_fw b (b.words (to_fw.ctrl + tail_off)) 4)

module _ (hdr : ℕ) where
  abbrev pub ToFw : Block → List Frame → Type 0
  ToFw = Frames to_fw hdr to_fw_frame_max

  read-len :
      (b : Block) (f : Frame) (fs : List Frame) → ToFw b (f ∷ fs) → length_at_tail b ≡ length f
  read-len b f fs v =
      ap from_le32 (ring_copy_out-rd b (b.words (to_fw.ctrl + tail_off)) 4 (omega arith) ∙ v.held.0)
      ∙ from_le32-le32 (length f) (omega (arith, v.sound.0))

  read-frame :
      (b : Block) (f : Frame) (fs : List Frame)
      → ToFw b (f ∷ fs)
      → ring_copy_out to_fw b (add32 (b.words (to_fw.ctrl + tail_off)) 4) (length f) ≡ f
  read-frame b f fs v =
      ring_copy_out-rd b _ (length f) (omega (arith, v.sound.0))
      ∙ rd_cong to_fw.base to_fw.size b.bytes _ (b.words (to_fw.ctrl + tail_off) + 4) (length f)
          (add32-cell to_fw.size to_fw-IsSized _ _ 4 refl)
      ∙ v.held.1

  -- The block after the frame at `tail` has been taken, with the wait flag of Linux answered.
  abbrev pub after_frame : Block → ℕ → Block
  after_frame b n =
      let b' =
        set_word b (to_fw.ctrl + tail_off)
          (add32 (b.words (to_fw.ctrl + tail_off)) (record_len n)) in
      if b'.words (to_fw.ctrl + wait_off) == 0 then b' else set_word b' (to_fw.ctrl + wait_off) 0

  after_frame-Frames :
      (b : Block) (f : Frame) (fs : List Frame)
      → ToFw b (f ∷ fs)
      → ToFw (after_frame b (length f)) fs
  after_frame-Frames b f fs v =
      drop-Frames to_fw hdr to_fw_frame_max to_fw-IsSized b _ f fs v (ground arith)
        (ground (arith, record_len-space (length f) (omega (arith, v.sound.0)))) (ground arith)

  -- On a ring that holds a frame, with memory, the firmware takes the oldest frame, leaves the
  -- rest, clears the wait flag and rings Linux if the flag was set.
  pub shm_read-frame :
      (b : Block) (f : Frame) (fs : List Frame)
      → ToFw b (f ∷ fs)
      → (shm_read hdr true b
          ≡ some (got f (after_frame b (length f)) (not (b.words (to_fw.ctrl + wait_off) == 0))))
        × ToFw (after_frame b (length f)) fs
  unfolding shm_read shm_read_frame
  shm_read-frame b f fs v = (
    rw (read-len b f fs v, read-frame b f fs v)
        (ground (
          arith,
          Frames-used to_fw hdr to_fw_frame_max to_fw-IsSized b b (f ∷ fs) v,
          record_len-space (length f),
          v.sound.0,
          v.fits,
        )),
    after_frame-Frames b f fs v,
  )

  -- On a ring that holds `fs`, the firmware sleeps exactly when `fs` is empty.
  pub shm_read-sleeps :
      (alloc : Bool) (b : Block) (fs : List Frame)
      → ToFw b fs
      → (shm_read hdr alloc b ≡ none) ↔ (fs ≡ [])
  unfolding shm_read
  shm_read-sleeps alloc b [] v = (λ e. refl, λ e. ground (arith, v.head_word, v.tail_word))
  shm_read-sleeps alloc b (f ∷ fs) v = (
    λ e.
        absurd (ground (arith, Frames-used to_fw hdr to_fw_frame_max to_fw-IsSized b b (f ∷ fs) v)),
    λ e. cc,
  )

  -- On a ring whose indices differ, a length at `tail` below a header, above the largest frame, or
  -- beyond `head` makes the firmware drop all frames of the ring.
  shm_read-bad :
      (alloc : Bool) (b : Block)
      → b.words (to_fw.ctrl + head_off) < 2 ^ 32
      → b.words (to_fw.ctrl + head_off) ≢ b.words (to_fw.ctrl + tail_off)
      → (length_at_tail b < hdr)
        ⊎ ((to_fw_frame_max < length_at_tail b)
            ⊎ (sub32 (b.words (to_fw.ctrl + head_off)) (b.words (to_fw.ctrl + tail_off))
                < record_len (length_at_tail b)))
      → (b' : Block) × (shm_read hdr alloc b ≡ some (dropped b')) × ToFw b' []
  unfolding shm_read shm_read_frame
  shm_read-bad alloc b w ne bad = (
    set_word b (to_fw.ctrl + tail_off) (b.words (to_fw.ctrl + head_off)),
    ground arith,
    reset-Frames to_fw hdr to_fw_frame_max to_fw-IsSized b _ refl refl w,
  )
