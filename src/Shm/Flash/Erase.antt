-- ===== src/Shm/Flash/Erase.antt =====
-- An erase of the MTD device, answered by the firmware, erases each of its blocks, in order.
use esp32_s31_linux.Common.{
  ℕ, zero, suc, ◌+◌, ◌-◌, ◌*◌, ◌/◌, ◌%◌, ◌^◌, ◌≤◌, ◌≡◌, refl, ap, ◌∙◌, sym, arith, [], Option, none,
  some, add32, if◌then◌else◌, ◌==◌, Bool-cases, inl, inr, true,
}
use esp32_s31_linux.Shm.Host.{Errno, eio}
use esp32_s31_linux.Shm.Flash.{
  Chip, State, esp_shm_flash_cmd, erase_loop, esp_shm_flash_erase, cmd_word, cmd_erase, block,
}
use esp32_s31_linux.Shm.Flash.Service.{erase_block}
use esp32_s31_linux.Shm.Flash.Command.{serve, cmd-served}

module _ {F : Type 0} (chip : Chip F) where
  -- The blocks erased one after the other, up to the first failure, whose address is returned.
  unfoldable pub erase_blocks : ℕ → ℕ → F → ℕ → Option (Errno × ℕ) × F
  erase_blocks base zero f addr = (none, f)
  erase_blocks base (suc n) f addr =
      let more = erase_blocks base n (chip.erase f (base + addr) block).1 (addr + block) in
      if (chip.erase f (base + addr) block).0 == 0
      then more
      else (some (eio, addr), (chip.erase f (base + addr) block).1)

  erase_blocks-more :
      (base n : ℕ) (f : F) (addr : ℕ)
      → ((chip.erase f (base + addr) block).0 == 0) ≡ true
      → erase_blocks base (suc n) f addr
        ≡ erase_blocks base n (chip.erase f (base + addr) block).1 (addr + block)
  unfolding erase_blocks
  erase_blocks-more base n f addr e = rw e

  module _ (base size : ℕ) (room : base + size ≤ 2 ^ 32) where
    erase_loop-more :
        (n : ℕ) (s : State F) (addr : ℕ)
        → (esp_shm_flash_cmd (serve chip base size) s cmd_erase addr [] block).0 ≡ none
        → erase_loop (serve chip base size) (suc n) s addr
          ≡ erase_loop
              (serve chip base size)
              n
              (esp_shm_flash_cmd (serve chip base size) s cmd_erase addr [] block).1
              (addr + block)
    unfolding erase_loop
    erase_loop-more n s addr e = rw (e, erase_loop)

    erase_loop-stop :
        (n : ℕ) (s : State F) (addr : ℕ)
        → (esp_shm_flash_cmd (serve chip base size) s cmd_erase addr [] block).0 ≡ some eio
        → erase_loop (serve chip base size) (suc n) s addr ≡ (
          some (eio, addr),
          (esp_shm_flash_cmd (serve chip base size) s cmd_erase addr [] block).1,
        )
    unfolding erase_loop
    erase_loop-stop n s addr e = rw (e, erase_loop)

    erase_loop-blocks :
        (n : ℕ) (s : State F) (addr : ℕ)
        → s.shm.words cmd_word ≡ 0
        → addr % block ≡ 0
        → addr + n * block ≤ size
        → let (ret, s') = erase_loop (serve chip base size) n s addr in
          let (ret', f') = erase_blocks base n s.flash addr in
          (ret ≡ ret') × (s'.flash ≡ f') × (s'.shm.words cmd_word ≡ 0)
    erase_loop-blocks zero s addr free al fit = unfold erase_loop erase_blocks in (refl, refl, free)
    erase_loop-blocks (suc n) s addr free al fit =
        let (e, ef, ec) =
          cmd-served chip base size s cmd_erase addr [] block free (omega arith)
            (erase_block addr block al refl (omega arith)) (omega arith)
            (λ z. absurd (omega arith)) in
        let place : add32 base addr ≡ base + addr = omega arith in
        elim (Bool-cases ((chip.erase s.flash (base + addr) block).0 == 0)) [
          | inl fine ↦
              let s' = (esp_shm_flash_cmd (serve chip base size) s cmd_erase addr [] block).1 in
              let ih = erase_loop-blocks n s' (addr + block) ec (omega arith) (omega arith) in
              let eq : erase_blocks base n s'.flash (addr + block)
                  ≡ erase_blocks base (suc n) s.flash addr =
                ap (λ f. erase_blocks base n f (addr + block)) (ef ∙ rw place)
                ∙ sym (erase_blocks-more base n s.flash addr fine) in
              rw (erase_loop-more n s addr (e ∙ rw (place, fine)))
                (ih.0 ∙ ap (λ t. t.0) eq, ih.1 ∙ ap (λ t. t.1) eq, ih.2)
          | inr bad ↦
              rw (erase_loop-stop n s addr (e ∙ rw (place, bad)))
                (unfold erase_blocks in rw bad (refl, ef ∙ rw place, ec))
        ]

    -- An erase of aligned blocks inside the window, on a free mailbox that the firmware answers,
    -- erases them one by one up to the first failure of the chip, which it reports with its
    -- address; the mailbox is free again.
    pub esp_shm_flash_erase-blocks :
        (n : ℕ) (s : State F) (addr : ℕ)
        → s.shm.words cmd_word ≡ 0
        → addr % block ≡ 0
        → addr + n * block ≤ size
        → let (ret, s') = esp_shm_flash_erase (serve chip base size) s addr (n * block) in
          let (ret', f') = erase_blocks base n s.flash addr in
          (ret ≡ ret') × (s'.flash ≡ f') × (s'.shm.words cmd_word ≡ 0)
    esp_shm_flash_erase-blocks n s addr free al fit =
        unfold esp_shm_flash_erase in
        rw (let rounds : (n * block + (block - 1)) / block ≡ n = omega arith in rounds)
          (erase_loop-blocks n s addr free al fit)
