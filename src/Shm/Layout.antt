-- ===== src/Shm/Layout.antt =====
-- The shared block of shared/esp32s31-hosted-shm.h: its offsets, the ring descriptors of the two
-- sides, and the block as control words and data bytes. The control words are read and written as
-- aligned 32-bit words only, the data areas as bytes only, and the two do not overlap.
use esp32_s31_linux.Common.{ℕ, ◌*◌, ◌/◌, Mem, update, add32}

pub record Block : Type 0 where
  pub words : Mem
  pub bytes : Mem

-- `struct esp_shm_ring` of the driver and `struct shm_ring` of the firmware.
pub record Ring : Type 0 where
  pub ctrl : ℕ
  pub base : ℕ
  pub size : ℕ

-- Control words, at ESP_SHM_CTRL.
abbrev pub magic : ℕ
magic = 0x4d485345

abbrev pub version : ℕ
version = 2

abbrev pub magic_off : ℕ
magic_off = 0x00

abbrev pub version_off : ℕ
version_off = 0x04

abbrev pub host_req_off : ℕ
host_req_off = 0x08

abbrev pub cache_lock_off : ℕ
cache_lock_off = 0x0c

abbrev pub head_off : ℕ
head_off = 0x00

abbrev pub tail_off : ℕ
tail_off = 0x40

abbrev pub wait_off : ℕ
wait_off = 0x80

-- ESP_SHM_TO_HOST_CTRL, ESP_SHM_TO_HOST_DATA, ESP_SHM_TO_HOST_SIZE
abbrev pub to_host : Ring
to_host = record { ctrl = 0x0100; base = 0x5000; size = 0x8000 }

-- ESP_SHM_TO_FW_CTRL, ESP_SHM_TO_FW_DATA, ESP_SHM_TO_FW_SIZE
abbrev pub to_fw : Ring
to_fw = record { ctrl = 0x0200; base = 0x1000; size = 0x4000 }

-- `ESP_SHM_RECORD_LEN`, in 32-bit arithmetic; `& ~3U` clears the two low bits.
abbrev pub record_len : ℕ → ℕ
record_len n = add32 4 (add32 n 3 / 4 * 4)

-- A store to a control word.
abbrev pub set_word : Block → ℕ → ℕ → Block
set_word b off v = record b { words = update b.words off v }
