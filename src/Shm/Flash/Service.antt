-- ===== src/Shm/Flash/Service.antt =====
-- What the firmware accepts and what it answers.
use esp32_s31_linux.Common.{
  ℕ, ◌+◌, ◌%◌, ◌≤◌, ◌<◌, ◌≡◌, ◌≢◌, inl, inr, arith, true, false, Bool-cases, ◌==◌,
}
use mathlib.Core.Path.{subst}
use esp32_s31_linux.Shm.Flash.{
  Chip, State, flash_request_valid, shm_flash_service, cmd_word, addr_word, len_word, status_word,
  cmd_program, cmd_erase, data_size, sector, block, err_invalid_arg,
}

-- The requests that the window allows: an aligned block to erase, or a program of a mailbox's
-- bytes in one sector, inside the window.
pub data IsAllowed (size : ℕ) : ℕ → ℕ → ℕ → Type 0 where
  erase_block :
      (addr len : ℕ)
      → addr % block ≡ 0
      → len ≡ block
      → addr + len ≤ size
      → IsAllowed size cmd_erase addr len
  program_part :
      (addr len : ℕ)
      → len ≤ data_size
      → addr % sector + len ≤ sector
      → addr < size
      → addr + len ≤ size
      → IsAllowed size cmd_program addr len

-- Every request that the window allows passes the check of the firmware.
pub valid_of_IsAllowed :
    {size cmd addr len : ℕ}
    → IsAllowed size cmd addr len
    → flash_request_valid size cmd addr len ≡ true
unfolding flash_request_valid
valid_of_IsAllowed (erase_block addr len a l f) = ground arith
valid_of_IsAllowed (program_part addr len d s i f) = ground arith

-- And nothing else does.
pub flash_request_valid-IsAllowed :
    (size cmd addr len : ℕ)
    → flash_request_valid size cmd addr len ≡ true
    → IsAllowed size cmd addr len
unfolding flash_request_valid
flash_request_valid-IsAllowed size cmd addr len h = elim (Bool-cases (cmd == cmd_erase)) [
  | inl e ↦
      subst (λ c. IsAllowed size c addr len) {x = cmd_erase} {y = cmd} (ground arith)
        (erase_block addr len (ground arith) (ground arith) (ground arith))
  | inr e ↦
      subst (λ c. IsAllowed size c addr len) {x = cmd_program} {y = cmd} (ground arith)
        (program_part addr len (ground arith) (ground arith) (ground arith) (ground arith))
]

module _ {F : Type 0} (chip : Chip F) (base size : ℕ) where
  -- The service answers a waiting command and no other: a request outside the window's rules gets
  -- the argument error and leaves the chip alone; any other has the chip's status.
  pub shm_flash_service_lem :
      (s : State F)
      → let cmd = s.shm.words cmd_word in
        let valid = flash_request_valid size cmd (s.shm.words addr_word) (s.shm.words len_word) in
        let (done, s') = shm_flash_service chip base size s in
        (cmd ≡ 0 → (done ≡ false) × (s' ≡ s))
        × (cmd ≢ 0 → (done ≡ true) × (s'.shm.words cmd_word ≡ 0))
        × (cmd ≢ 0
            → valid ≡ false
            → (s'.shm.words status_word ≡ err_invalid_arg) × (s'.flash ≡ s.flash))
  unfolding shm_flash_service
  shm_flash_service_lem s = ground arith

  -- A waiting request that the window does not allow gets the argument error and frees the mailbox;
  -- the chip is not touched.
  pub shm_flash_service-refused :
      (s : State F)
      → s.shm.words cmd_word ≢ 0
      → ¬ IsAllowed size (s.shm.words cmd_word) (s.shm.words addr_word) (s.shm.words len_word)
      → ((shm_flash_service chip base size s).1.shm.words status_word ≡ err_invalid_arg)
        × ((shm_flash_service chip base size s).1.shm.words cmd_word ≡ 0)
        × ((shm_flash_service chip base size s).1.flash ≡ s.flash)
  shm_flash_service-refused s ne bad =
      let cmd = s.shm.words cmd_word in
      let valid = flash_request_valid size cmd (s.shm.words addr_word) (s.shm.words len_word) in
      elim (Bool-cases valid) [
        | inl e ↦ absurd (bad (flash_request_valid-IsAllowed size cmd _ _ e))
        | inr e ↦ let l = shm_flash_service_lem s in ((l.2 ne e).0, (l.1 ne).1, (l.2 ne e).1)
      ]
