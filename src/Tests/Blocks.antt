-- ===== src/Tests/Blocks.antt =====
-- The blocks and frames of the runs.
use esp32_s31_linux.Common.{ℕ, refl, arith, List, [], ◌∷◌, true, false}
use esp32_s31_linux.Shm.Layout.{Block, to_host, to_fw}
use esp32_s31_linux.Shm.Records.{Frame, Frames, IsFrame}
use esp32_s31_linux.Shm.Host.{Context}

abbrev pub empty_block : Block
empty_block = record { words = λ i. 0; bytes = λ i. 0 }

abbrev pub frame : Frame
frame = 1 ∷ 2 ∷ 3 ∷ 4 ∷ 5 ∷ 6 ∷ 7 ∷ 8 ∷ 9 ∷ 10 ∷ 11 ∷ 12 ∷ 13 ∷ []

pub empty_to_fw : Frames to_fw 12 8192 empty_block []
empty_to_fw = record {
  tail_word = omega arith;
  head_word = refl;
  fits = omega arith;
  sound = tt;
  held = tt;
}

pub empty_to_host : (hi : ℕ) → Frames to_host 12 hi empty_block []
empty_to_host hi = record {
  tail_word = omega arith;
  head_word = refl;
  fits = omega arith;
  sound = tt;
  held = tt;
}

pub frame_ok : IsFrame 12 8192 frame
frame_ok = (omega arith, omega arith)

abbrev pub idle : Block → Block
idle b = b

abbrev pub context : Block → List Frame → Context
context b q = record {
  shm = b;
  doorbell_fw = 0;
  tx_queue = q;
  running = true;
  tx_quiesced = false;
  tx_paused = false;
  net = [];
}
