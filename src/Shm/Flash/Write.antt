-- ===== src/Shm/Flash/Write.antt =====
-- A write of the MTD device, answered by the firmware, is one program of the chip.
use esp32_s31_linux.Common.{
  ℕ, zero, suc, ◌+◌, ◌^◌, ◌≤◌, ◌<◌, ◌≡◌, refl, ap, ◌∙◌, sym, arith, List, [], ◌∷◌, ◌++◌, length,
  Option, none, take, drop, add32, length-take, length-drop, take-append-drop,
}
use mathlib.Core.Path.{ap₂ as ap2}
use esp32_s31_linux.Shm.Host.{Errno}
use esp32_s31_linux.Shm.Flash.{
  Chip, State, esp_shm_flash_cmd, write_loop, esp_shm_flash_write, transfer_len, cmd_word,
  cmd_program,
}
use esp32_s31_linux.Shm.Flash.Service.{IsAllowed, program_part}
use esp32_s31_linux.Shm.Flash.Command.{serve, cmd-served, errno_of}

-- A transfer takes a byte at least, no more than are left, and is a request that the window allows.
pub transfer-IsAllowed :
    (size to len : ℕ)
    → 0 < len
    → to + len ≤ size
    → (0 < transfer_len to len)
      × (transfer_len to len ≤ len)
      × IsAllowed size cmd_program to (transfer_len to len)
transfer-IsAllowed size to len pos fit = (
  omega arith,
  omega arith,
  program_part to (transfer_len to len) (omega arith) (omega arith) (omega arith) (omega arith),
)

-- A chip whose programs succeed and can be cut into parts.
pub record IsProgrammable {F : Type 0} (chip : Chip F) : Type 0 where
  pub program_ok : (f : F) (a : ℕ) (xs : List ℕ) → (chip.program f a xs).0 ≡ 0
  pub program_nil : (f : F) (a : ℕ) → (chip.program f a []).1 ≡ f
  pub program_append :
      (f : F) (a : ℕ) (xs ys : List ℕ)
      → (chip.program f a (xs ++ ys)).1
        ≡ (chip.program (chip.program f a xs).1 (a + length xs) ys).1

module _ {F : Type 0} (chip : Chip F) (base size : ℕ) (laws : IsProgrammable chip)
    (room : base + size ≤ 2 ^ 32) where
  -- One round of the loop.
  write_loop-step :
      (fuel : ℕ) (s : State F) (to x : ℕ) (buf : List ℕ) (retlen : ℕ)
      → let n = transfer_len to (length (x ∷ buf)) in
        let s' = (esp_shm_flash_cmd (serve chip base size) s cmd_program to (x ∷ buf) n).1 in
        (esp_shm_flash_cmd (serve chip base size) s cmd_program to (x ∷ buf) n).0 ≡ none
        → write_loop (serve chip base size) (suc fuel) s to (x ∷ buf) retlen
          ≡ write_loop (serve chip base size) fuel s' (to + n) (drop n (x ∷ buf)) (retlen + n)
  unfolding write_loop
  write_loop-step fuel s to x buf retlen e = rw (e, write_loop)

  record Written (s : State F) (to : ℕ) (buf : List ℕ) (retlen : ℕ)
      (out : Option Errno × ℕ × State F) : Type 0 where
    done : out.0 ≡ none
    count : out.1 ≡ retlen + length buf
    bytes : out.2.flash ≡ (chip.program s.flash (base + to) buf).1
    free : out.2.shm.words cmd_word ≡ 0

  program_split :
      (f : F) (a n : ℕ) (l : List ℕ)
      → n ≤ length l
      → (chip.program (chip.program f a (take n l)).1 (a + n) (drop n l)).1 ≡ (chip.program f a l).1
  program_split f a n l h =
      ap (λ k. (chip.program (chip.program f a (take n l)).1 (a + k) (drop n l)).1)
        (omega (arith, length-take n l))
      ∙ sym (laws.program_append f a (take n l) (drop n l))
      ∙ ap (λ k. (chip.program f a k).1) (take-append-drop n l)

  -- What the first transfer did, and what the rest of the loop does from there.
  Written-more :
      (s s' : State F) (to n retlen : ℕ) (l : List ℕ) (out : Option Errno × ℕ × State F)
      → n ≤ length l
      → s'.flash ≡ (chip.program s.flash (base + to) (take n l)).1
      → Written s' (to + n) (drop n l) (retlen + n) out
      → Written s to l retlen out
  Written-more s s' to n retlen l out h e w = record {
    done = w.done;
    count = omega (arith, w.count, length-drop n l);
    bytes =
        w.bytes
        ∙ ap2 (λ f a. (chip.program f a (drop n l)).1) e (omega arith)
        ∙ program_split s.flash (base + to) n l h;
    free = w.free;
  }

  write_loop-Written :
      (fuel : ℕ) (s : State F) (to : ℕ) (buf : List ℕ) (retlen : ℕ)
      → length buf ≤ fuel
      → s.shm.words cmd_word ≡ 0
      → to + length buf ≤ size
      → Written s to buf retlen (write_loop (serve chip base size) fuel s to buf retlen)
  write_loop-Written zero s to [] retlen h free fit =
      unfold write_loop in
      record {
        done = refl;
        count = omega arith;
        bytes = sym (laws.program_nil s.flash (base + to));
        free = free;
      }
  write_loop-Written zero s to (x ∷ buf) retlen h free fit = absurd (omega arith)
  write_loop-Written (suc fuel) s to [] retlen h free fit =
      unfold write_loop in
      record {
        done = refl;
        count = omega arith;
        bytes = sym (laws.program_nil s.flash (base + to));
        free = free;
      }
  write_loop-Written (suc fuel) s to (x ∷ buf) retlen h free fit =
      let n = transfer_len to (length (x ∷ buf)) in
      let s' = (esp_shm_flash_cmd (serve chip base size) s cmd_program to (x ∷ buf) n).1 in
      let (pos, le, ok) = transfer-IsAllowed size to (length (x ∷ buf)) (omega arith) fit in
      let (e, ef, ec) =
        cmd-served chip base size s cmd_program to (x ∷ buf) n free (omega arith) ok (omega arith)
          (λ z. le) in
      rw
        (write_loop-step fuel s to x buf retlen
          (e ∙ ap errno_of (laws.program_ok s.flash (add32 base to) (take n (x ∷ buf)))))
        (Written-more s s' to n retlen (x ∷ buf) _ le
          (ef ∙ ap (λ a. (chip.program s.flash a (take n (x ∷ buf))).1) (omega arith))
          (write_loop-Written fuel s' (to + n) (drop n (x ∷ buf)) (retlen + n)
            (omega (arith, length-drop n (x ∷ buf))) ec (omega (arith, length-drop n (x ∷ buf)))))

  -- A write inside the window, on a free mailbox that the firmware answers, to a chip whose
  -- programs succeed and can be cut, returns 0 with `*retlen` the whole length; the chip has one
  -- program of all bytes at their place, and the mailbox is free again.
  pub esp_shm_flash_write-program :
      (s : State F) (to : ℕ) (buf : List ℕ)
      → s.shm.words cmd_word ≡ 0
      → to + length buf ≤ size
      → let (ret, retlen, s') = esp_shm_flash_write (serve chip base size) s to buf in
        (ret ≡ none)
        × (retlen ≡ length buf)
        × (s'.flash ≡ (chip.program s.flash (base + to) buf).1)
        × (s'.shm.words cmd_word ≡ 0)
  unfolding esp_shm_flash_write
  esp_shm_flash_write-program s to buf free fit =
      let w = write_loop-Written (length buf) s to buf 0 (omega arith) free fit in
      (w.done, omega (arith, w.count), w.bytes, w.free)
