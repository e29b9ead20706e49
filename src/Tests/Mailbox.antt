-- ===== src/Tests/Mailbox.antt =====
-- Runs of the flash mailbox, on a chip that counts its erases and keeps the programmed bytes.
use esp32_s31_linux.Common.{ℕ, ◌*◌, ◌≡◌, refl, arith, List, [], ◌∷◌, ◌++◌, true, none}
use mathlib.Core.List.{append-nil, append_assoc}
use mathlib.Core.Path.{sym}
use esp32_s31_linux.Shm.Layout.{set_word}
use esp32_s31_linux.Shm.Flash.{
  Chip, State, flash_request_valid, shm_flash_service, esp_shm_flash_cmd, esp_shm_flash_write,
  esp_shm_flash_erase, cmd_word, status_word, cmd_erase, block, err_invalid_arg,
}
use esp32_s31_linux.Shm.Flash.Service.{
  IsAllowed, erase_block, valid_of_IsAllowed, shm_flash_service-refused,
}
use esp32_s31_linux.Shm.Flash.Command.{serve, errno_of, cmd-served}
use esp32_s31_linux.Shm.Flash.Write.{IsProgrammable, esp_shm_flash_write-program}
use esp32_s31_linux.Shm.Flash.Erase.{erase_blocks, esp_shm_flash_erase-blocks}
use esp32_s31_linux.Tests.Blocks.{empty_block}

-- The bytes that were programmed, in order.
abbrev log_chip : Chip (List ℕ)
log_chip = record { program = λ f a xs. (0, f ++ xs); erase = λ f a n. (0, f) }

log_laws : IsProgrammable log_chip
log_laws = record {
  program_ok = λ f a xs. refl;
  program_nil = λ f a. append-nil f;
  program_append = λ f a xs ys. sym (append_assoc f xs ys);
}

abbrev free_state : State (List ℕ)
free_state = record { shm = empty_block; flash = [] }

esp_shm_flash_write-program_example :
    ((esp_shm_flash_write (serve log_chip 0x10000 0x20000) free_state 0xfff (7 ∷ 8 ∷ [])).0 ≡ none)
    × ((esp_shm_flash_write (serve log_chip 0x10000 0x20000) free_state 0xfff (7 ∷ 8 ∷ [])).1 ≡ 2)
    × ((esp_shm_flash_write (serve log_chip 0x10000 0x20000) free_state 0xfff (7 ∷ 8 ∷ [])).2.flash
        ≡ (7 ∷ 8 ∷ []))
    × ((esp_shm_flash_write
            (serve log_chip 0x10000 0x20000)
            free_state
            0xfff
            (7 ∷ 8 ∷ [])).2.shm.words
          cmd_word
        ≡ 0)
esp_shm_flash_write-program_example =
    esp_shm_flash_write-program log_chip 0x10000 0x20000 log_laws (omega arith) free_state 0xfff
      (7 ∷ 8 ∷ []) refl (omega arith)

cmd-served_example :
    ((esp_shm_flash_cmd (serve log_chip 0x10000 0x20000) free_state cmd_erase 0x10000 [] block).0
      ≡ errno_of 0)
    × ((esp_shm_flash_cmd
          (serve log_chip 0x10000 0x20000)
          free_state
          cmd_erase
          0x10000
          []
          block).1.flash
        ≡ [])
    × ((esp_shm_flash_cmd
            (serve log_chip 0x10000 0x20000)
            free_state
            cmd_erase
            0x10000
            []
            block).1.shm.words
          cmd_word
        ≡ 0)
cmd-served_example =
    cmd-served log_chip 0x10000 0x20000 free_state cmd_erase 0x10000 [] block refl (omega arith)
      (erase_block 0x10000 block refl refl (omega arith)) (omega arith) (λ e. absurd (omega arith))

esp_shm_flash_erase-blocks_example :
    ((esp_shm_flash_erase (serve log_chip 0x10000 0x20000) free_state 0 (2 * block)).0
      ≡ (erase_blocks log_chip 0x10000 2 [] 0).0)
    × ((esp_shm_flash_erase (serve log_chip 0x10000 0x20000) free_state 0 (2 * block)).1.flash
        ≡ (erase_blocks log_chip 0x10000 2 [] 0).1)
    × ((esp_shm_flash_erase (serve log_chip 0x10000 0x20000) free_state 0 (2 * block)).1.shm.words
          cmd_word
        ≡ 0)
esp_shm_flash_erase-blocks_example =
    esp_shm_flash_erase-blocks log_chip 0x10000 0x20000 (omega arith) 2 free_state 0 refl refl
      (omega arith)

-- A request with an unknown command.
abbrev bad_state : State (List ℕ)
bad_state = record { shm = set_word empty_block cmd_word 9; flash = [] }

no_9 : (addr len : ℕ) → flash_request_valid 0x20000 9 addr len ≡ true → ⊥
unfolding flash_request_valid
no_9 addr len h = ground (arith, h)

not-IsAllowed : (addr len : ℕ) → ¬ IsAllowed 0x20000 9 addr len
not-IsAllowed addr len a = absurd (no_9 addr len (valid_of_IsAllowed a))

shm_flash_service-refused_example :
    ((shm_flash_service log_chip 0x10000 0x20000 bad_state).1.shm.words status_word
      ≡ err_invalid_arg)
    × ((shm_flash_service log_chip 0x10000 0x20000 bad_state).1.shm.words cmd_word ≡ 0)
    × ((shm_flash_service log_chip 0x10000 0x20000 bad_state).1.flash ≡ [])
shm_flash_service-refused_example =
    shm_flash_service-refused log_chip 0x10000 0x20000 bad_state (omega arith) (not-IsAllowed 0 0)
