-- ===== src/Shm/Firmware.antt =====
-- The transport of the firmware, bootloader/components/esp_hosted/shm_slave_api.c: the push of a
-- header and a payload, the write with its wait for space, the read, and the host's requests.
-- `host` is what Linux does to the block while the firmware waits. The semaphores and the tick
-- counter are FreeRTOS; a wait that times out is the end of the `waits` left.
pub mod Push
pub mod Read
use esp32_s31_linux.Common.{
  ℕ, zero, suc, ◌+◌, ◌-◌, ◌*◌, ◌≤◌, ◌<◌, ◌^◌, ◌%◌, List, [], ◌∷◌, ◌++◌, length, Bool, true, false,
  ◌&&◌, ◌||◌, not, Option, none, some, ltb, ◌==◌, if◌then◌else◌, add32, sub32, le32, from_le32,
  take, drop, write_bytes, read_bytes,
}
use Prim.Native.Nat.{bit_and}
use esp32_s31_linux.Shm.Layout.{
  Block, Ring, to_host, to_fw, head_off, tail_off, wait_off, record_len, set_word, host_req_off,
  magic_off, version_off, magic, version,
}
use esp32_s31_linux.Shm.Records.{Frame}

-- SHM_TO_HOST_FRAME_MAX and SHM_TO_FW_FRAME_MAX
abbrev pub to_host_frame_max : ℕ
to_host_frame_max = 16 * 1024

abbrev pub to_fw_frame_max : ℕ
to_fw_frame_max = 8 * 1024

-- `off = pos & (size - 1)`, `size` a power of two.
unfoldable pub ring_copy_in : Ring → Block → ℕ → List ℕ → Block
ring_copy_in r b pos src =
    let off = pos % r.size in
    let first = if ltb (length src) (r.size - off) then length src else r.size - off in
    record b {
      bytes =
          write_bytes (write_bytes b.bytes (r.base + off) (take first src)) r.base (drop first src);
    }

unfoldable pub ring_copy_out : Ring → Block → ℕ → ℕ → List ℕ
ring_copy_out r b pos len =
    let off = pos % r.size in
    let first = if ltb len (r.size - off) then len else r.size - off in
    read_bytes b.bytes (r.base + off) first ++ read_bytes b.bytes r.base (len - first)

unfoldable pub push_store : Ring → Block → List ℕ → List ℕ → Block
push_store r b hdr payload =
    let head = b.words (r.ctrl + head_off) in
    let frame_len = add32 (length hdr) (length payload) in
    let b1 = ring_copy_in r b (add32 head 4) hdr in
    let b2 = ring_copy_in r b1 (add32 (add32 head 4) (length hdr)) payload in
    let b3 = ring_copy_in r b2 head (le32 frame_len) in
    set_word b3 (r.ctrl + head_off) (add32 head (record_len frame_len))

abbrev pub write_result : ℕ → Block × Option Bool → Option ℕ × Block × Bool
write_result n (b, none) = (none, b, false)
write_result n (b, some kick) = (some n, b, kick)

module _ (host : Block → Block) where
  -- `none` is `false`; else the block and `*kick`.
  unfoldable pub ring_push : Ring → Block → List ℕ → List ℕ → Option (Block × Bool)
  ring_push r b hdr payload =
      let head = b.words (r.ctrl + head_off) in
      let tail = b.words (r.ctrl + tail_off) in
      let b' = host (push_store r b hdr payload) in
      if ltb (sub32 r.size (sub32 head tail)) (record_len (add32 (length hdr) (length payload)))
      then none
      else some (b', b'.words (r.ctrl + tail_off) == head)

  -- The loop of `shm_write`: the first try, the second try behind the wait flag, then the wait.
  -- The result is the block, and `kick` of the push that was done.
  unfoldable pub write_second :
      (Block → Block × Option Bool) → Block → Option (Block × Bool) → Block × Option Bool
  write_second again b (some (b', kick)) = (b', some kick)
  write_second again b none = again (host b)

  unfoldable pub write_first :
      (Block → Block × Option Bool)
      → List ℕ
      → List ℕ
      → Block
      → Option (Block × Bool)
      → Block × Option Bool
  write_first again hdr payload b (some (b', kick)) = (b', some kick)
  write_first again hdr payload b none =
      let b1 = host (set_word b (to_host.ctrl + wait_off) 1) in
      write_second again b1 (ring_push to_host b1 hdr payload)

  unfoldable pub write_loop : ℕ → Block → List ℕ → List ℕ → Block × Option Bool
  write_loop zero b hdr payload = (b, none)
  write_loop (suc waits) b hdr payload =
      write_first (λ b'. write_loop waits b' hdr payload) hdr payload b
        (ring_push to_host b hdr payload)

  -- The handles are not NULL. The result is the payload's length or ESP_FAIL (`none`), the block,
  -- and whether the host is rung.
  unfoldable pub shm_write : ℕ → Block → List ℕ → List ℕ → Option ℕ × Block × Bool
  shm_write waits b hdr payload =
      if length payload == 0 || ltb to_host_frame_max (length hdr + length payload)
      then (none, b, false)
      else write_result (length payload) (write_loop waits b hdr payload)

-- The result of `shm_read` once a frame is there: 0, or the frame. `doorbell` is whether the host
-- is rung.
pub data ReadResult : Type 0 where
  dropped : Block → ReadResult
  no_memory : ReadResult
  got : Frame → Block → Bool → ReadResult

-- `hdr` is `sizeof(struct esp_payload_header)`; `alloc` is whether `heap_caps_malloc` succeeds.
unfoldable pub shm_read_frame : ℕ → Bool → Block → ℕ → ReadResult
shm_read_frame hdr alloc b head =
    let tail = b.words (to_fw.ctrl + tail_off) in
    let len = from_le32 (ring_copy_out to_fw b tail 4) in
    let b' = set_word b (to_fw.ctrl + tail_off) (add32 tail (record_len len)) in
    if ltb len hdr || ltb to_fw_frame_max len || ltb (sub32 head tail) (record_len len)
    then dropped (set_word b (to_fw.ctrl + tail_off) head)
    else if not alloc
    then no_memory
    else (let frame = ring_copy_out to_fw b (add32 tail 4) len in
        if b'.words (to_fw.ctrl + wait_off) == 0
        then got frame b' false
        else got frame (set_word b' (to_fw.ctrl + wait_off) 0) true)

-- `shm_read` waits on the semaphore for as long as the ring is empty: `none`.
unfoldable pub shm_read : ℕ → Bool → Block → Option ReadResult
shm_read hdr alloc b =
    let head = b.words (to_fw.ctrl + head_off) in
    if head == b.words (to_fw.ctrl + tail_off) then none else some (shm_read_frame hdr alloc b head)

-- What `shm_service_host_requests` does: the block, whether the boot event is sent again, and
-- whether the chip goes into deep sleep. `shm_flash_kick` is always called.
unfoldable pub service_host_requests : Bool → Block → Block × Bool × Bool
service_host_requests boot_cap_valid b =
    let req = b.words host_req_off in
    (
      set_word b host_req_off 0,
      not (bit_and req 1 == 0) && boot_cap_valid,
      not (bit_and req 2 == 0),
    )

-- The block after `shm_init`: all zero, the flash words by `flash`, then the version and, last,
-- the magic.
unfoldable pub shm_init : (Block → Block) → Block
shm_init flash =
    let zeroed : Block = record { words = λ o. 0; bytes = λ o. 0 } in
    set_word (set_word (flash zeroed) version_off version) magic_off magic

unfoldable pub shm_deinit : Block → Block
shm_deinit b = set_word b magic_off 0
