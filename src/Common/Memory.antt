-- ===== src/Common/Memory.antt =====
-- Byte memory as a function of the offset, with the block copies of `memcpy`.
use Prim.Native.Nat.{ℕ, zero, suc, ◌+◌, ◌<◌}
use mathlib.Core.Path.{◌≡◌, refl, ◌∙◌, ap, ap₂}
use mathlib.Core.List.{List, [], ◌∷◌, ◌++◌}
use native.Mathlib.Omega.{arith}
use esp32_s31_linux.Common.Tests.{◌==◌, if◌then◌else◌}
use esp32_s31_linux.Common.Lists.{length}

abbrev pub Mem : Type 0
Mem = ℕ → ℕ

abbrev pub update : Mem → ℕ → ℕ → Mem
update m i v j = if j == i then v else m j

-- `memcpy` of `bs` to offset `i`.
unfoldable pub write_bytes : Mem → ℕ → List ℕ → Mem
write_bytes m i [] = m
write_bytes m i (b ∷ bs) = write_bytes (update m i b) (i + 1) bs

-- `memcpy` of `n` bytes from offset `i`.
unfoldable pub read_bytes : Mem → ℕ → ℕ → List ℕ
read_bytes m i zero = []
read_bytes m i (suc n) = m i ∷ read_bytes m (i + 1) n

pub length-read_bytes : (m : Mem) (i n : ℕ) → length (read_bytes m i n) ≡ n
unfolding read_bytes
length-read_bytes m i zero = refl
length-read_bytes m i (suc n) = ap suc (length-read_bytes m (i + 1) n)

pub write_bytes-below : (xs : List ℕ) (m : Mem) (i j : ℕ) → j < i → write_bytes m i xs j ≡ m j
unfolding write_bytes
write_bytes-below [] m i j h = refl
write_bytes-below (x ∷ xs) m i j h =
    write_bytes-below xs (update m i x) (i + 1) j (omega arith) ∙ ground arith

pub read_bytes-write_bytes :
    (xs : List ℕ) (m : Mem) (i : ℕ) → read_bytes (write_bytes m i xs) i (length xs) ≡ xs
unfolding write_bytes read_bytes
read_bytes-write_bytes [] m i = refl
read_bytes-write_bytes (x ∷ xs) m i =
    ap₂ ◌∷◌ (write_bytes-below xs (update m i x) (i + 1) i (omega arith) ∙ ground arith)
      (read_bytes-write_bytes xs (update m i x) (i + 1))

pub write_bytes-append :
    (xs ys : List ℕ) (m : Mem) (i : ℕ)
    → write_bytes m i (xs ++ ys) ≡ write_bytes (write_bytes m i xs) (i + length xs) ys
unfolding write_bytes
write_bytes-append [] ys m i = ap (λ k. write_bytes m k ys) (omega arith)
write_bytes-append (x ∷ xs) ys m i =
    write_bytes-append xs ys (update m i x) (i + 1)
    ∙ ap (λ k. write_bytes (write_bytes (update m i x) (i + 1) xs) k ys) (omega arith)
