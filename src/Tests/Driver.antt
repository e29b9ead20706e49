-- ===== src/Tests/Driver.antt =====
-- Runs of the Linux driver.
use esp32_s31_linux.Common.{◌≡◌, refl, arith, [], ◌∷◌, length, true, false, none, some}
use esp32_s31_linux.Shm.Layout.{Block, to_host}
use esp32_s31_linux.Common.{read_bytes}
use esp32_s31_linux.Shm.Host.{
  Context, ring_copy_in, esp_shm_push, flush_loop, first_try, second_try, push_fits, push_store,
  write_locked, tx_flush, tx_flow, esp_shm_write, esp_shm_read,
}
use esp32_s31_linux.Shm.Host.Queue.{Settled, esp_shm_write-Settled}
use esp32_s31_linux.Shm.Host.Push.{IsConsumer, Flushed, flush_loop-Flushed}
use esp32_s31_linux.Shm.Host.Read.{ToHost, first_served, esp_shm_read-served}
use esp32_s31_linux.Shm.Host.Deliver.{write-Flushed}
use esp32_s31_linux.Shm.Link.{send, receive, run_to_fw, run_queue, run_to_fw-queue}
use esp32_s31_linux.Shm.Firmware.{push_store as slave_store, ring_copy_in as slave_copy_in}
use esp32_s31_linux.Shm.Circular.{rd}
use esp32_s31_linux.Shm.Copy.{copy_in}
use esp32_s31_linux.Common.{write_bytes}
use esp32_s31_linux.Shm.Return.{run_to_host, run_to_host-queue}
use esp32_s31_linux.Tests.Blocks.{
  empty_to_host, empty_block, frame, empty_to_fw, frame_ok, idle, context,
}

idle_consumer : IsConsumer 12 8192 (omega arith) idle
idle_consumer b fs v = record { gone = []; left = fs; split = refl; holds = v }

run_to_fw-queue_example :
    run_to_fw 12 empty_block (send frame ∷ receive ∷ receive ∷ [])
    ≡ run_queue 16384 [] (send frame ∷ receive ∷ receive ∷ [])
run_to_fw-queue_example =
    run_to_fw-queue 12 (send frame ∷ receive ∷ receive ∷ []) empty_block [] empty_to_fw
      (frame_ok, (tt, (tt, tt)))

run_to_host-queue_example :
    run_to_host 12 (context empty_block []) empty_block (send frame ∷ receive ∷ receive ∷ [])
    ≡ run_queue 32768 [] (send frame ∷ receive ∷ receive ∷ [])
run_to_host-queue_example =
    run_to_host-queue 12 (context empty_block []) (send frame ∷ receive ∷ receive ∷ []) empty_block
      [] refl (empty_to_host 16384) ((omega arith, omega arith), (tt, (tt, tt)))

flush_loop-Flushed_example :
    Flushed 12 8192
      (omega arith)
      idle
      idle_consumer
      []
      (frame ∷ frame ∷ [])
      (flush_loop idle empty_block (frame ∷ frame ∷ []) false).0
      (flush_loop idle empty_block (frame ∷ frame ∷ []) false).1
flush_loop-Flushed_example =
    flush_loop-Flushed 12 8192 (omega arith) idle idle_consumer (frame ∷ frame ∷ []) empty_block []
      false empty_to_fw (frame_ok, (frame_ok, tt))

written : (write_locked idle 2 (context empty_block (frame ∷ [])) frame).0 ≡ none
unfolding write_locked
written = refl

write-Flushed_example :
    Flushed 12 8192
      (omega arith)
      idle
      idle_consumer
      []
      (frame ∷ frame ∷ [])
      (write_locked idle 2 (context empty_block (frame ∷ [])) frame).1.shm
      (write_locked idle 2 (context empty_block (frame ∷ [])) frame).1.tx_queue
write-Flushed_example =
    write-Flushed idle 2 12 8192 (omega arith) idle_consumer (context empty_block (frame ∷ []))
      frame [] written empty_to_fw (frame_ok, tt) frame_ok

drained : length (write_locked idle 2 (context empty_block (frame ∷ [])) frame).1.tx_queue ≡ 0
unfolding write_locked tx_flush tx_flow flush_loop first_try second_try esp_shm_push push_fits
    push_store ring_copy_in
drained = refl

esp_shm_write-Settled_example :
    Settled 4092 true
      (context empty_block [])
      frame
      (esp_shm_write idle 2 4092 (some (context empty_block [])) (some frame) true)
esp_shm_write-Settled_example =
    esp_shm_write-Settled idle 2 4092 (context empty_block []) frame true (omega arith)

abbrev filled_block : Block
filled_block =
    slave_store to_host empty_block (1 ∷ 2 ∷ 3 ∷ 4 ∷ 5 ∷ 6 ∷ 7 ∷ 8 ∷ 9 ∷ 10 ∷ 11 ∷ 12 ∷ [])
      (13 ∷ [])

filled : ToHost 12 filled_block (frame ∷ [])
unfolding slave_store slave_copy_in copy_in write_bytes rd read_bytes
filled = record {
  tail_word = omega arith;
  head_word = refl;
  fits = omega arith;
  sound = ((omega arith, omega arith), tt);
  held = (refl, refl, tt);
}

esp_shm_read-served_example :
    (ctx' : Context) × (esp_shm_read 12 (λ i. true) (some (context filled_block []))
      ≡ ((first_served (λ i. true) 0 (frame ∷ [])).0, some ctx'))
    × ToHost 12 ctx'.shm (first_served (λ i. true) 0 (frame ∷ [])).1
esp_shm_read-served_example =
    esp_shm_read-served 12 (λ i. true) (context filled_block []) (frame ∷ []) refl filled
