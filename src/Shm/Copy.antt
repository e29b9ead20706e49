-- ===== src/Shm/Copy.antt =====
-- The two-part copy of both sides: at the masked offset up to the end of the area, the rest at its
-- start. It is the circular copy of `Circular`.
use esp32_s31_linux.Common.{
  ℕ, zero, suc, ◌+◌, ◌-◌, ◌%◌, ◌≤◌, ◌<◌, ◌≡◌, refl, ap, ◌∙◌, arith, List, [], ◌∷◌, ◌++◌, length,
  take, drop, Mem, update, write_bytes, read_bytes, min, length-take, length-drop, take-append-drop,
  sym,
}
use mathlib.Core.Path.{ap₂}
use native.Mathlib.Nat.{mod-eq_of_lt, mod-add-mod, mod-lt, mod_self}
use esp32_s31_linux.Shm.Circular.{wr, rd, wr-append, rd-append, wr_cong, rd_cong, mod-step}

-- `off = pos & (size - 1)`, `size` a power of two; `first = min(len, size - off)`.
unfoldable pub copy_in : ℕ → ℕ → Mem → ℕ → List ℕ → Mem
copy_in base size m pos src =
    let off = pos % size in
    let first = min (length src) (size - off) in
    write_bytes (write_bytes m (base + off) (take first src)) base (drop first src)

unfoldable pub copy_out : ℕ → ℕ → Mem → ℕ → ℕ → List ℕ
copy_out base size m pos len =
    let off = pos % size in
    let first = min len (size - off) in
    read_bytes m (base + off) first ++ read_bytes m base (len - first)

module _ (base size : ℕ) where
  write_bytes-wr :
      (m : Mem) (p : ℕ) (xs : List ℕ)
      → p % size + length xs ≤ size
      → write_bytes m (base + p % size) xs ≡ wr base size m p xs
  unfolding write_bytes wr
  write_bytes-wr m p [] h = refl
  write_bytes-wr m p (x ∷ []) h = refl
  write_bytes-wr m p (x ∷ y ∷ xs) h =
      ap (λ i. write_bytes (update m (base + p % size) x) i (y ∷ xs)) {x = base + p % size + 1}
        {y = base + (p + 1) % size} (omega (arith, step))
      ∙ write_bytes-wr (update m (base + p % size) x) (p + 1) (y ∷ xs) (omega (arith, step))
    where
      step : (p + 1) % size ≡ p % size + 1
      step = mod-step p size (omega arith)

  read_bytes-rd :
      (m : Mem) (p n : ℕ)
      → p % size + n ≤ size
      → read_bytes m (base + p % size) n ≡ rd base size m p n
  unfolding read_bytes rd
  read_bytes-rd m p zero h = refl
  read_bytes-rd m p (suc zero) h = refl
  read_bytes-rd m p (suc (suc n)) h =
      ap (λ t. m (base + p % size) ∷ t)
        (ap (λ i. read_bytes m i (suc n)) {x = base + p % size + 1} {y = base + (p + 1) % size}
            (omega (arith, step))
          ∙ read_bytes-rd m (p + 1) (suc n) (omega (arith, step)))
    where
      step : (p + 1) % size ≡ p % size + 1
      step = mod-step p size (omega arith)

  -- The second part starts where the first reached the end of the area.
  round : (p k : ℕ) → 0 < size → p % size + k ≡ size → (p + k) % size ≡ 0
  round p k pos e = sym (mod-add-mod p size k) ∙ ap (λ t. t % size) e ∙ mod_self size

  at_start : 0 < size → base + zero % size ≡ base
  at_start pos = omega (arith, mod-eq_of_lt pos)

  write_bytes_rest :
      (m : Mem) (p k : ℕ) (xs : List ℕ)
      → 0 < size
      → length xs ≤ size
      → (0 < length xs → p % size + k ≡ size)
      → write_bytes m base xs ≡ wr base size m (p + k) xs
  unfolding write_bytes wr
  write_bytes_rest m p k [] pos h full = refl
  write_bytes_rest m p k (x ∷ xs) pos h full =
      ap (λ i. write_bytes m i (x ∷ xs)) (sym (at_start pos))
      ∙ write_bytes-wr m 0 (x ∷ xs) (omega (arith, mod-eq_of_lt pos))
      ∙ wr_cong base size m 0 (p + k) (x ∷ xs)
          (mod-eq_of_lt pos ∙ sym (round p k pos (full (omega arith))))

  read_bytes_rest :
      (m : Mem) (p k n : ℕ)
      → 0 < size
      → n ≤ size
      → (0 < n → p % size + k ≡ size)
      → read_bytes m base n ≡ rd base size m (p + k) n
  unfolding read_bytes rd
  read_bytes_rest m p k zero pos h full = refl
  read_bytes_rest m p k (suc n) pos h full =
      ap (λ i. read_bytes m i (suc n)) (sym (at_start pos))
      ∙ read_bytes-rd m 0 (suc n) (omega (arith, mod-eq_of_lt pos))
      ∙ rd_cong base size m 0 (p + k) (suc n)
          (mod-eq_of_lt pos ∙ sym (round p k pos (full (omega arith))))

  pub copy_in-wr :
      (m : Mem) (pos : ℕ) (src : List ℕ)
      → 0 < size
      → length src ≤ size
      → copy_in base size m pos src ≡ wr base size m pos src
  unfolding copy_in
  copy_in-wr m pos src hs hl =
      ap (λ t. write_bytes t base (drop first src))
        (write_bytes-wr m pos (take first src) (omega (arith, len_take, mod-lt pos hs)))
      ∙ write_bytes_rest (wr base size m pos (take first src)) pos (length (take first src))
          (drop first src) hs (omega (arith, len_drop))
          (λ h. omega (arith, len_take, len_drop, mod-lt pos hs))
      ∙ sym (wr-append base size m pos (take first src) (drop first src))
      ∙ ap (wr base size m pos) (take-append-drop first src)
    where
      first : ℕ
      first = min (length src) (size - pos % size)

      len_take : length (take first src) ≡ min first (length src)
      len_take = length-take first src

      len_drop : length (drop first src) ≡ length src - first
      len_drop = length-drop first src

  pub copy_out-rd :
      (m : Mem) (pos len : ℕ)
      → 0 < size
      → len ≤ size
      → copy_out base size m pos len ≡ rd base size m pos len
  unfolding copy_out
  copy_out-rd m pos len hs hl =
      ap₂ ◌++◌ (read_bytes-rd m pos first (omega (arith, mod-lt pos hs))) (
        read_bytes_rest m pos first (len - first) hs (omega arith)
          (λ h. omega (arith, mod-lt pos hs)))
      ∙ sym (rd-append base size m pos first (len - first))
      ∙ ap (rd base size m pos) (omega arith)
    where
      first : ℕ
      first = min len (size - pos % size)
