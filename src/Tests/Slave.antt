-- ===== src/Tests/Slave.antt =====
-- Runs of the firmware's side.
use esp32_s31_linux.Common.{ℕ, ◌+◌, ◌<◌, ◌≡◌, refl, arith, List, [], ◌∷◌, false, some, read_bytes}
use esp32_s31_linux.Shm.Layout.{Block, to_fw, head_off, set_word}
use esp32_s31_linux.Shm.Records.{Frames}
use esp32_s31_linux.Shm.Copy.{copy_out}
use esp32_s31_linux.Shm.Host.{esp_shm_push}
use esp32_s31_linux.Shm.Firmware.{shm_write, ring_copy_out}
use esp32_s31_linux.Shm.Firmware.Push.{IsConsumer, Outcome, shm_write-Outcome, shm_write-succeeds}
use esp32_s31_linux.Shm.Firmware.Read.{length_at_tail}
use esp32_s31_linux.Shm.Link.{push-accepted}
use esp32_s31_linux.Tests.Blocks.{empty_block, frame, empty_to_fw, empty_to_host, frame_ok, idle}

idle_consumer : IsConsumer 12 idle
idle_consumer b fs v = record { gone = []; left = fs; split = refl; holds = v }

abbrev header : List ℕ
header = 1 ∷ 2 ∷ 3 ∷ 4 ∷ 5 ∷ 6 ∷ 7 ∷ 8 ∷ 9 ∷ 10 ∷ 11 ∷ 12 ∷ []

shm_write-Outcome_example :
    Outcome 12 idle idle_consumer [] header
      (13 ∷ [])
      (shm_write idle 3 empty_block header (13 ∷ []))
shm_write-Outcome_example =
    shm_write-Outcome 12 idle idle_consumer 3 empty_block [] header (13 ∷ []) (empty_to_host 16384)
      (omega arith)

shm_write-succeeds_example : (shm_write idle 3 empty_block header (13 ∷ [])).0 ≡ some 1
shm_write-succeeds_example =
    shm_write-succeeds 12 idle idle_consumer 2 empty_block [] header (13 ∷ []) (empty_to_host 16384)
      (omega arith) (omega arith) (omega arith) (omega arith)

-- The block with one frame of Linux in it.
abbrev sent_block : Block
sent_block = (esp_shm_push idle empty_block frame false).1

sent : Frames to_fw 12 8192 sent_block (frame ∷ [])
sent = (push-accepted 12 empty_block [] frame empty_to_fw frame_ok (omega arith)).1

abbrev bad_block : Block
bad_block = set_word empty_block (to_fw.ctrl + head_off) 16

zero_length : length_at_tail bad_block < 12
unfolding ring_copy_out copy_out read_bytes
zero_length = omega arith
