-- ===== src/Shm/Flash/Command.antt =====
-- One command of the mailbox, answered by the firmware.
use esp32_s31_linux.Common.{
  ℕ, ◌^◌, ◌≤◌, ◌<◌, ◌≡◌, ◌≢◌, ap, ◌∙◌, sym, arith, List, length, true, Option, none, some, ◌==◌,
  if◌then◌else◌, take, add32, length-take, write_bytes, read_bytes, read_bytes-write_bytes, inl,
  inr, Bool-cases,
}
use esp32_s31_linux.Shm.Host.{Errno, ebusy, eio}
use esp32_s31_linux.Shm.Flash.{
  Chip, State, flash_request_valid, flash_op, shm_flash_service, completed, issue,
  esp_shm_flash_cmd, cmd_word, addr_word, len_word, cmd_program, data_off,
}
use esp32_s31_linux.Shm.Flash.Service.{IsAllowed, valid_of_IsAllowed}

-- The return value for a status word.
abbrev pub errno_of : ℕ → Option Errno
errno_of status = if status == 0 then none else some eio

-- On a busy mailbox a command changes nothing.
pub cmd-busy :
    {F : Type 0} (wait : State F → State F) (s : State F) (cmd to : ℕ) (buf : List ℕ) (n : ℕ)
    → s.shm.words cmd_word ≢ 0
    → esp_shm_flash_cmd wait s cmd to buf n ≡ (some ebusy, s)
unfolding esp_shm_flash_cmd
cmd-busy wait s cmd to buf n h = ground arith

module _ {F : Type 0} (chip : Chip F) (base size : ℕ) where
  -- The firmware completes the command before the timeout.
  abbrev pub serve : State F → State F
  serve s = (shm_flash_service chip base size s).1

  service-valid :
      (s : State F)
      → s.shm.words cmd_word ≢ 0
      → flash_request_valid size
          (s.shm.words cmd_word)
          (s.shm.words addr_word)
          (s.shm.words len_word)
        ≡ true
      → serve s
        ≡ completed s (
            flash_op chip base s
              (s.shm.words cmd_word)
              (s.shm.words addr_word)
              (s.shm.words len_word))
  unfolding shm_flash_service
  service-valid s h v = ground arith

  issue-words :
      (s : State F) (cmd to : ℕ) (buf : List ℕ) (n : ℕ)
      → to < 2 ^ 32
      → let s' = issue s cmd to buf n in
        (s'.shm.words cmd_word ≡ cmd)
        × (s'.shm.words addr_word ≡ to)
        × (s'.shm.words len_word ≡ n)
        × (s'.flash ≡ s.flash)
  unfolding issue
  issue-words s cmd to buf n h = ground arith

  -- What the chip is asked to do for a command.
  abbrev pub chip_op : F → ℕ → ℕ → List ℕ → ℕ → ℕ × F
  chip_op flash cmd to buf n =
      if cmd == cmd_program
      then chip.program flash (add32 base to) (take n buf)
      else chip.erase flash (add32 base to) n

  issue-flash_op :
      (s : State F) (cmd to : ℕ) (buf : List ℕ) (n : ℕ)
      → (cmd ≡ cmd_program → n ≤ length buf)
      → flash_op chip base (issue s cmd to buf n) cmd to n ≡ chip_op s.flash cmd to buf n
  unfolding flash_op issue
  issue-flash_op s cmd to buf n k = elim (Bool-cases (cmd == cmd_program)) [
    | inr e ↦ rw e
    | inl e ↦ rw e (
        ap (chip.program s.flash (add32 base to)) (
          ap (read_bytes (write_bytes s.shm.bytes data_off (take n buf)) data_off)
            (omega (arith, length-take n buf, k (ground arith)))
          ∙ read_bytes-write_bytes (take n buf) s.shm.bytes data_off))
  ]

  serve-issue :
      (s : State F) (cmd to : ℕ) (buf : List ℕ) (n : ℕ)
      → cmd ≢ 0
      → IsAllowed size cmd to n
      → to < 2 ^ 32
      → (cmd ≡ cmd_program → n ≤ length buf)
      → serve (issue s cmd to buf n)
        ≡ completed (issue s cmd to buf n) (chip_op s.flash cmd to buf n)
  serve-issue s cmd to buf n ne ok h k =
      let (ec, ea, el, ef) = issue-words s cmd to buf n h in
      service-valid (issue s cmd to buf n) (λ z. ne (sym ec ∙ z))
        (rw (ec, ea, el) (valid_of_IsAllowed ok))
      ∙ ap (completed (issue s cmd to buf n)) (rw (ec, ea, el) (issue-flash_op s cmd to buf n k))

  -- On a free mailbox that the firmware answers, a command that the window allows reaches the chip
  -- with its own bytes; the return value is 0 or -EIO by the chip's status, and the mailbox is
  -- free again.
  pub cmd-served :
      (s : State F) (cmd to : ℕ) (buf : List ℕ) (n : ℕ)
      → s.shm.words cmd_word ≡ 0
      → cmd ≢ 0
      → IsAllowed size cmd to n
      → to < 2 ^ 32
      → (cmd ≡ cmd_program → n ≤ length buf)
      → let op = chip_op s.flash cmd to buf n in
        let (ret, s') = esp_shm_flash_cmd serve s cmd to buf n in
        (ret ≡ errno_of op.0) × (s'.flash ≡ op.1) × (s'.shm.words cmd_word ≡ 0)
  unfolding esp_shm_flash_cmd
  cmd-served s cmd to buf n free ne ok h k = ground (arith, serve-issue s cmd to buf n ne ok h k)
