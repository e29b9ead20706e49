-- ===== src/Shm/Flash.antt =====
-- The flash window: the mailbox commands of Linux (esp_shm_flash.c, under
-- linux/drivers/net/wireless/espressif/esp_hosted) and their service in the firmware
-- (bootloader/components/esp_hosted/shm_flash.c). The flash chip is ESP-IDF's: the parameters
-- `program` and `erase`, each with an `esp_err_t`. `wait` is what happens to the state until the
-- wait of a command ends, by the cleared command word or by the timeout.
pub mod Service
pub mod Command
pub mod Write
pub mod Erase
use esp32_s31_linux.Common.{
  ℕ, zero, suc, ◌+◌, ◌-◌, ◌*◌, ◌/◌, ◌%◌, ◌^◌, ◌≤◌, ◌<◌, List, [], ◌∷◌, length, Bool, true, false,
  ◌&&◌, ◌||◌, not, Option, none, some, ltb, leb, ◌==◌, if◌then◌else◌, min, take, drop, add32,
  write_bytes, read_bytes,
}
use esp32_s31_linux.Shm.Layout.{Block, set_word}
use esp32_s31_linux.Shm.Host.{Errno, ebusy, etimedout, eio}

-- ESP_SHM_FLASH and its offsets, as offsets in the block.
abbrev pub size_word : ℕ
size_word = 0x0300

abbrev pub cmd_word : ℕ
cmd_word = 0x0304

abbrev pub status_word : ℕ
status_word = 0x0308

abbrev pub addr_word : ℕ
addr_word = 0x030c

abbrev pub len_word : ℕ
len_word = 0x0310

abbrev pub data_off : ℕ
data_off = 0x0800

abbrev pub data_size : ℕ
data_size = 0x0800

abbrev pub sector : ℕ
sector = 0x1000

abbrev pub block : ℕ
block = 0x10000

abbrev pub cmd_program : ℕ
cmd_program = 2

abbrev pub cmd_erase : ℕ
cmd_erase = 3

-- ESP_ERR_INVALID_ARG of ESP-IDF.
abbrev pub err_invalid_arg : ℕ
err_invalid_arg = 0x102

-- `esp_flash_write` and `esp_flash_erase_region` of the chip's state.
pub record Chip (F : Type 0) : Type 0 where
  pub program : F → ℕ → List ℕ → ℕ × F
  pub erase : F → ℕ → ℕ → ℕ × F

-- The block and the chip.
pub record State (F : Type 0) : Type 0 where
  pub shm : Block
  pub flash : F

-- `size` is `s_size`.
unfoldable pub flash_request_valid : ℕ → ℕ → ℕ → ℕ → Bool
flash_request_valid size cmd addr len =
    if leb size addr || ltb (size - addr) len
    then false
    else if cmd == cmd_erase
    then addr % block == 0 && len == block
    else cmd == cmd_program && (leb len data_size && leb (addr % sector + len) sector)

-- The state with the status stored and the command cleared.
abbrev pub completed : {F : Type 0} → State F → ℕ × F → State F
completed s (err, flash') = record {
  shm = set_word (set_word s.shm status_word err) cmd_word 0;
  flash = flash';
}

-- The stores of a command, up to the doorbell; the arguments are 32-bit words.
unfoldable pub issue : {F : Type 0} → State F → ℕ → ℕ → List ℕ → ℕ → State F
issue s cmd addr buf len =
    let b1 = set_word (set_word s.shm addr_word (addr % 2 ^ 32)) len_word len in
    let b2 =
      if cmd == cmd_program
      then record b1 { bytes = write_bytes b1.bytes data_off (take len buf) }
      else b1 in
    record s { shm = set_word b2 cmd_word cmd }

-- A transfer does not cross a mailbox block of the window.
abbrev pub transfer_len : ℕ → ℕ → ℕ
transfer_len to len = min len (data_size - to % data_size)

-- `base` is `s_base`.
unfoldable pub flash_op : {F : Type 0} → Chip F → ℕ → State F → ℕ → ℕ → ℕ → ℕ × F
flash_op chip base s cmd addr len =
    if cmd == cmd_program
    then chip.program s.flash (add32 base addr) (read_bytes s.shm.bytes data_off len)
    else chip.erase s.flash (add32 base addr) len

module _ {F : Type 0} (chip : Chip F) (base size : ℕ) where
  unfoldable pub shm_flash_service : State F → Bool × State F
  shm_flash_service s =
      let cmd = s.shm.words cmd_word in
      let addr = s.shm.words addr_word in
      let len = s.shm.words len_word in
      if cmd == 0
      then (false, s)
      else if not (flash_request_valid size cmd addr len)
      then (true, completed s (err_invalid_arg, s.flash))
      else (true, completed s (flash_op chip base s cmd addr len))

module _ {F : Type 0} (wait : State F → State F) where
  -- `none` is the return value 0.
  unfoldable pub esp_shm_flash_cmd : State F → ℕ → ℕ → List ℕ → ℕ → Option Errno × State F
  esp_shm_flash_cmd s cmd addr buf len =
      let s' = wait (issue s cmd addr buf len) in
      if not (s.shm.words cmd_word == 0)
      then (some ebusy, s)
      else if not (s'.shm.words cmd_word == 0)
      then (some etimedout, s')
      else if not (s'.shm.words status_word == 0)
      then (some eio, s')
      else (none, s')

  -- The loop of `esp_shm_flash_write`: the result, `*retlen`, and the state. Each round takes a
  -- byte at least.
  unfoldable pub write_loop : ℕ → State F → ℕ → List ℕ → ℕ → Option Errno × ℕ × State F
  write_loop zero s to buf retlen = (none, retlen, s)
  write_loop (suc fuel) s to [] retlen = (none, retlen, s)
  write_loop (suc fuel) s to (x ∷ buf) retlen =
      let n = transfer_len to (length (x ∷ buf)) in
      let (ret, s') = esp_shm_flash_cmd s cmd_program to (x ∷ buf) n in
      elim ret [
        | some e ↦ (some e, retlen, s')
        | none ↦ write_loop fuel s' (to + n) (drop n (x ∷ buf)) (retlen + n)
      ]

  unfoldable pub esp_shm_flash_write : State F → ℕ → List ℕ → Option Errno × ℕ × State F
  esp_shm_flash_write s to buf = write_loop (length buf) s to buf 0

  -- The loop of `esp_shm_flash_erase`, with the blocks left; the failed address goes to
  -- `instr->fail_addr`.
  unfoldable pub erase_loop : ℕ → State F → ℕ → Option (Errno × ℕ) × State F
  erase_loop zero s addr = (none, s)
  erase_loop (suc blocks) s addr =
      let (ret, s') = esp_shm_flash_cmd s cmd_erase addr [] block in
      elim ret [ some e ↦ (some (e, addr), s') | none ↦ erase_loop blocks s' (addr + block) ]

  -- `addr < instr->addr + instr->len` holds for this many steps of a block.
  unfoldable pub esp_shm_flash_erase : State F → ℕ → ℕ → Option (Errno × ℕ) × State F
  esp_shm_flash_erase s addr len = erase_loop ((len + (block - 1)) / block) s addr
