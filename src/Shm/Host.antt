-- ===== src/Shm/Host.antt =====
-- The transport of the Linux driver, linux/drivers/net/wireless/espressif/esp_hosted/esp_shm.c:
-- the copies, the push of one frame, the transmit queue with its flow control, and the read.
-- `fw` is what the firmware does to the block across a full barrier. A frame is the bytes of an
-- skb; `netdev_alloc_skb` is the argument `alloc`, which may fail at each attempt.
pub mod Push
pub mod Queue
pub mod Read
pub mod Deliver
use esp32_s31_linux.Common.{
  ℕ, zero, suc, ◌+◌, ◌≤◌, ◌<◌, ◌^◌, List, [], ◌∷◌, ◌++◌, length, Bool, true, false, ◌&&◌, ◌||◌, not,
  Option, none, some, ltb, leb, ◌==◌, if◌then◌else◌, add32, sub32, le32, from_le32, Mem, update,
  replicate,
}
use Prim.Native.Nat.{bit_or}
use esp32_s31_linux.Shm.Layout.{
  Block, Ring, to_host, to_fw, head_off, tail_off, wait_off, record_len, set_word, host_req_off,
}
use esp32_s31_linux.Shm.Copy.{copy_in, copy_out}
use esp32_s31_linux.Shm.Records.{Frame}

abbrev pub tx_pause : ℕ
tx_pause = 64

abbrev pub tx_resume : ℕ
tx_resume = 16

abbrev pub tx_queue_max : ℕ
tx_queue_max = 256

pub data Errno : Type 0 where
  einval enodev emsgsize enomem ebusy etimedout eio : Errno

-- The calls of `esp_tx_pause` and `esp_tx_resume`, in order.
pub data NetEvent : Type 0 where
  pause resume : ℕ → NetEvent

-- `struct esp_shm_context`, with the registers that it points to.
pub record Context : Type 0 where
  pub shm : Block
  pub doorbell_fw : ℕ
  pub tx_queue : List Frame
  pub running : Bool
  pub tx_quiesced : Bool
  pub tx_paused : Bool
  pub net : List NetEvent

unfoldable pub ring_copy_in : Ring → Block → ℕ → List ℕ → Block
ring_copy_in r b pos src = record b { bytes = copy_in r.base r.size b.bytes pos src }

unfoldable pub ring_copy_out : Ring → Block → ℕ → ℕ → List ℕ
ring_copy_out r b pos len = copy_out r.base r.size b.bytes pos len

abbrev pub ring_firmware : Context → Context
ring_firmware ctx = record ctx { doorbell_fw = 1 }

-- `ESP_SHM_REQ_READY_REPLAY` is bit 0.
unfoldable pub request_ready_replay : Context → Context
request_ready_replay ctx =
    let req = ctx.shm.words host_req_off in
    ring_firmware (record ctx { shm = set_word ctx.shm host_req_off (bit_or req 1) })

-- The two stores of a push, before the barrier: the frame and its length, then `head`.
unfoldable pub push_store : Block → Frame → Block
push_store b frame =
    let head = b.words (to_fw.ctrl + head_off) in
    let b' =
      ring_copy_in to_fw (ring_copy_in to_fw b (add32 head 4) frame) head (le32 (length frame)) in
    set_word b' (to_fw.ctrl + head_off) (add32 head (record_len (length frame)))

unfoldable pub push_fits : Block → Frame → Bool
push_fits b frame =
    let head = b.words (to_fw.ctrl + head_off) in
    let tail = b.words (to_fw.ctrl + tail_off) in
    not (ltb (sub32 to_fw.size (sub32 head tail)) (record_len (length frame)))

module _ (fw : Block → Block) where
  -- The result, the block after it, and `*kick`.
  unfoldable pub esp_shm_push : Block → Frame → Bool → Bool × Block × Bool
  esp_shm_push b frame kick =
      let head = b.words (to_fw.ctrl + head_off) in
      let b' = fw (push_store b frame) in
      if push_fits b frame
      then (true, b', kick || (b'.words (to_fw.ctrl + tail_off) == head))
      else (false, b, kick)

  -- The loop of `esp_shm_tx_flush`: the block, the frames left in the queue, and `kick`. `rest`
  -- goes on with the queue behind the frame; the wait flag is set before the second try.
  unfoldable pub second_try :
      (Block → Bool → Block × List Frame × Bool)
      → List Frame
      → Bool × Block × Bool
      → Block × List Frame × Bool
  second_try rest q (true, b, kick) = rest b kick
  second_try rest q (false, b, kick) = (b, q, kick)

  unfoldable pub first_try :
      (Block → Bool → Block × List Frame × Bool)
      → Frame
      → List Frame
      → Bool × Block × Bool
      → Block × List Frame × Bool
  first_try rest f q (true, b, kick) = rest b kick
  first_try rest f q (false, b, kick) =
      second_try rest (f ∷ q) (esp_shm_push (fw (set_word b (to_fw.ctrl + wait_off) 1)) f kick)

  unfoldable pub flush_loop : Block → List Frame → Bool → Block × List Frame × Bool
  flush_loop b [] kick = (b, [], kick)
  flush_loop b (f ∷ q) kick =
      first_try (λ b' kick'. flush_loop b' q kick') f q (esp_shm_push b f kick)

abbrev pub flow_events : ℕ → Bool → List NetEvent
flow_events zero p = []
flow_events (suc i) p = flow_events i p ++ ((if p then pause i else resume i) ∷ [])

-- `for (i = 0; i < ESP_MAX_INTERFACE; i++)`
unfoldable pub tx_flow : ℕ → Context → Bool → Context
tx_flow interfaces ctx p =
    if (if p then ctx.tx_paused else not ctx.tx_paused)
    then ctx
    else record ctx { tx_paused = p; net = ctx.net ++ flow_events interfaces p }

module _ (fw : Block → Block) (interfaces : ℕ) where
  unfoldable pub tx_flush : Context → Context
  tx_flush ctx =
      if not ctx.running || ctx.tx_quiesced
      then ctx
      else (let (b, q, kick) = flush_loop fw ctx.shm ctx.tx_queue false in
          let ctx1 = record ctx { shm = b; tx_queue = q } in
          let ctx2 = if leb (length q) tx_resume then tx_flow interfaces ctx1 false else ctx1 in
          if kick then ring_firmware ctx2 else ctx2)

  -- `spin_unlock_bh` ends the part under `tx_lock`. `none` is the return value 0.
  unfoldable pub write_locked : Context → Frame → Option Errno × Context
  write_locked ctx skb =
      if not ctx.running || ctx.tx_quiesced
      then (some enodev, ctx)
      else if leb tx_queue_max (length ctx.tx_queue)
      then (some ebusy, ctx)
      else (let ctx1 = tx_flush (record ctx { tx_queue = ctx.tx_queue ++ (skb ∷ []) }) in
          (
            none,
            if leb tx_pause (length ctx1.tx_queue) then tx_flow interfaces ctx1 true else ctx1,
          ))

  -- The skb and the context can be NULL; `linear` is whether `skb_linearize` leaves it linear.
  unfoldable pub esp_shm_write :
      ℕ → Option Context → Option Frame → Bool → Option Errno × Option Context
  esp_shm_write tx_aggr_size none none linear = (some einval, none)
  esp_shm_write tx_aggr_size none (some skb) linear = (some enodev, none)
  esp_shm_write tx_aggr_size (some ctx) none linear = (some einval, some ctx)
  esp_shm_write tx_aggr_size (some ctx) (some skb) linear =
      if ltb tx_aggr_size (length skb)
      then (some emsgsize, some ctx)
      else if not linear
      then (some enomem, some ctx)
      else (let (ret, ctx') = write_locked ctx skb in (ret, some ctx'))

-- A bad length makes `esp_shm_read` drop all frames and ask for recovery. `stuck` is no result of
-- the code: the fuel ran out.
pub data ReadResult : Type 0 where
  nothing : ReadResult
  got : Frame → ReadResult
  recover : ReadResult
  stuck : ReadResult

unfoldable pub rx_done : Context → ℕ → Context
rx_done ctx tail =
    let b = set_word ctx.shm (to_host.ctrl + tail_off) tail in
    if b.words (to_host.ctrl + wait_off) == 0
    then record ctx { shm = b }
    else ring_firmware (record ctx { shm = set_word b (to_host.ctrl + wait_off) 0 })

-- `hdr` is `sizeof(struct esp_payload_header)`, of ESP-Hosted.
module _ (hdr : ℕ) (alloc : ℕ → Bool) where
  unfoldable pub read_loop : ℕ → ℕ → Context → ℕ → ReadResult × Context
  read_loop zero attempt ctx tail = (stuck, ctx)
  read_loop (suc fuel) attempt ctx tail =
      let head = ctx.shm.words (to_host.ctrl + head_off) in
      let len = from_le32 (ring_copy_out to_host ctx.shm tail 4) in
      let tail' = add32 tail (record_len len) in
      let rest = read_loop fuel (attempt + 1) (rx_done ctx tail') tail' in
      if head == tail
      then (nothing, ctx)
      else if ltb len hdr || ltb to_host.size len || ltb (sub32 head tail) (record_len len)
      then (recover, record ctx { shm = set_word ctx.shm (to_host.ctrl + tail_off) head })
      else if alloc attempt
      then (got (ring_copy_out to_host ctx.shm (add32 tail 4) len), rx_done ctx tail')
      else rest

  -- A record takes 4 bytes at least, so this many rounds are enough for a full ring.
  abbrev pub read_fuel : ℕ
  read_fuel = 0x2002

  unfoldable pub esp_shm_read : Option Context → ReadResult × Option Context
  esp_shm_read none = (nothing, none)
  esp_shm_read (some ctx) =
      if not ctx.running
      then (nothing, some ctx)
      else (let (r, ctx') = read_loop read_fuel 0 ctx (ctx.shm.words (to_host.ctrl + tail_off)) in
          (r, some ctx'))

unfoldable pub quiesce_for_fw_reset : Option Context → Option Errno × Option Context
quiesce_for_fw_reset none = (some enodev, none)
quiesce_for_fw_reset (some ctx) = (none, some (record ctx { tx_quiesced = true; tx_queue = [] }))

-- The scheduled work is a later `tx_flush`.
unfoldable pub reinit_after_fw_reset : Option Context → Option Errno × Option Context
reinit_after_fw_reset none = (some enodev, none)
reinit_after_fw_reset (some ctx) =
    if not ctx.running
    then (some enodev, some ctx)
    else (none, some (record ctx { tx_quiesced = false }))

unfoldable pub recover_transport : Option Context → Option Errno × Option Context
recover_transport none = (some enodev, none)
recover_transport (some ctx) =
    if not ctx.running then (some enodev, some ctx) else (none, some (request_ready_replay ctx))
