-- ===== src/Shm/Circular.antt =====
-- Circular writes and reads of a data area of `size` bytes from `base` on: what the two `memcpy`
-- calls of `ring_copy_in` and `ring_copy_out` (both sides) do to the area, position by position.
use esp32_s31_linux.Common.{
  ℕ, zero, suc, ◌+◌, ◌%◌, ◌≤◌, ◌<◌, ◌≡◌, refl, ap, ◌∙◌, arith, ◌≢◌, ◌⊎◌, List, [], ◌∷◌, ◌++◌,
  length, Mem, update, sym,
}
use native.Mathlib.Nat.{mod-eq_of_lt, mod-add-mod, mod-lt, div-add-mod}
use mathlib.Core.Path.{ap₂}

-- Two positions less than one round apart are different cells.
pub mod-ne : (a b size : ℕ) → a < b → b < a + size → a % size ≢ b % size
mod-ne a b size h k e = grind (arith, div-add-mod a size, div-add-mod b size)

pub mod-step : (p size : ℕ) → p % size + 1 < size → (p + 1) % size ≡ p % size + 1
mod-step p size h = sym (mod-add-mod p size 1) ∙ mod-eq_of_lt h

module _ (base size : ℕ) where
  unfoldable pub wr : Mem → ℕ → List ℕ → Mem
  wr m p [] = m
  wr m p (b ∷ bs) = wr (update m (base + p % size) b) (p + 1) bs

  unfoldable pub rd : Mem → ℕ → ℕ → List ℕ
  rd m p zero = []
  rd m p (suc n) = m (base + p % size) ∷ rd m (p + 1) n

  pub length-rd : (m : Mem) (p n : ℕ) → length (rd m p n) ≡ n
  unfolding rd
  length-rd m p zero = refl
  length-rd m p (suc n) = ap suc (length-rd m (p + 1) n)

  pub wr-append :
      (m : Mem) (p : ℕ) (xs ys : List ℕ) → wr m p (xs ++ ys) ≡ wr (wr m p xs) (p + length xs) ys
  unfolding wr
  wr-append m p [] ys = ap (λ q. wr m q ys) (omega arith)
  wr-append m p (x ∷ xs) ys =
      wr-append (update m (base + p % size) x) (p + 1) xs ys
      ∙ ap (λ q. wr (wr (update m (base + p % size) x) (p + 1) xs) q ys) (omega arith)

  pub rd-append : (m : Mem) (p a b : ℕ) → rd m p (a + b) ≡ rd m p a ++ rd m (p + a) b
  unfolding rd
  rd-append m p zero b = ap₂ (λ q n. rd m q n) (omega arith) (omega arith)
  rd-append m p (suc a) b =
      ap (λ n. rd m p n) {x = suc a + b} {y = suc (a + b)} (omega arith)
      ∙ ap (λ t. m (base + p % size) ∷ t)
          (rd-append m (p + 1) a b ∙ ap (λ q. rd m (p + 1) a ++ rd m q b) (omega arith))

  next_cell : (p q : ℕ) → p % size ≡ q % size → (p + 1) % size ≡ (q + 1) % size
  next_cell p q e = sym (mod-add-mod p size 1) ∙ ap (λ t. (t + 1) % size) e ∙ mod-add-mod q size 1

  pub wr_cong : (m : Mem) (p q : ℕ) (xs : List ℕ) → p % size ≡ q % size → wr m p xs ≡ wr m q xs
  unfolding wr
  wr_cong m p q [] e = refl
  wr_cong m p q (x ∷ xs) e =
      rw e (wr_cong (update m (base + q % size) x) (p + 1) (q + 1) xs (next_cell p q e))

  pub rd_cong : (m : Mem) (p q n : ℕ) → p % size ≡ q % size → rd m p n ≡ rd m q n
  unfolding rd
  rd_cong m p q zero e = refl
  rd_cong m p q (suc n) e =
      ap₂ (λ c t. m (base + c) ∷ t) e (rd_cong m (p + 1) (q + 1) n (next_cell p q e))

  -- A cell that the write does not reach keeps its byte.
  pub wr-cell :
      (m : Mem) (p : ℕ) (xs : List ℕ) (c : ℕ)
      → c < p
      → p + length xs ≤ c + size
      → wr m p xs (base + c % size) ≡ m (base + c % size)
  unfolding wr
  wr-cell m p [] c h k = refl
  wr-cell m p (x ∷ xs) c h k =
      wr-cell (update m (base + p % size) x) (p + 1) xs c (omega arith) (omega arith)
      ∙ ground (arith, mod-ne c p size h (omega arith))

  -- Outside the area nothing changes.
  pub wr-outside :
      (m : Mem) (p : ℕ) (xs : List ℕ) (j : ℕ)
      → 0 < size
      → (j < base) ⊎ (base + size ≤ j)
      → wr m p xs j ≡ m j
  unfolding wr
  wr-outside m p [] j pos out = refl
  wr-outside m p (x ∷ xs) j pos out =
      wr-outside (update m (base + p % size) x) (p + 1) xs j pos out ∙ ground (arith, mod-lt p pos)

  pub rd-wr_disjoint :
      (m : Mem) (p : ℕ) (xs : List ℕ) (q n : ℕ)
      → q + n ≤ p
      → p + length xs ≤ q + size
      → rd (wr m p xs) q n ≡ rd m q n
  unfolding rd
  rd-wr_disjoint m p xs q zero h k = refl
  rd-wr_disjoint m p xs q (suc n) h k =
      ap₂ ◌∷◌ (wr-cell m p xs q (omega arith) k)
        (rd-wr_disjoint m p xs (q + 1) n (omega arith) (omega arith))

  pub rd-wr_self :
      (m : Mem) (p : ℕ) (xs : List ℕ) → length xs ≤ size → rd (wr m p xs) p (length xs) ≡ xs
  unfolding rd wr
  rd-wr_self m p [] h = refl
  rd-wr_self m p (x ∷ xs) h =
      ap₂ ◌∷◌
        (wr-cell (update m (base + p % size) x) (p + 1) xs p (omega arith) (omega arith)
          ∙ ground arith)
        (rd-wr_self (update m (base + p % size) x) (p + 1) xs (omega arith))
