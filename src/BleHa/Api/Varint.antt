-- ===== src/BleHa/Api/Varint.antt =====
-- `read_varint` takes back what `pb_varint` wrote.
use esp32_s31_linux.Common.{
  ℕ, zero, suc, ◌+◌, ◌*◌, ◌/◌, ◌%◌, ◌^◌, ◌≤◌, ◌<◌, ◌≡◌, ap, ◌∙◌, arith, List, [], ◌∷◌, ◌++◌, length,
  ltb, Bool-cases, inl, inr, ltb→lt,
}
use native.Mathlib.Nat.{div-add-mod, mod-eq_of_lt, pow-suc}
use native.Mathlib.Numerals.{towards_suc}
use esp32_s31_linux.BleHa.Api.{varint_loop, pb_varint, value, read_loop, read_varint}

-- The next byte of a varint counts 128 times as much.
pow_next : (shift : ℕ) → 2 ^ (shift + 7) ≡ 128 * 2 ^ shift
pow_next shift = simp towards_suc (omega arith)

-- A value is its low seven bits and the rest, at any place `unit`, behind what was read before.
value_bits : (w unit v : ℕ) → v + w % 128 * unit + w / 128 * (128 * unit) ≡ v + w * unit
value_bits w unit v = omega (arith, ap (λ (x : ℕ). x * unit) (div-add-mod w 128))

varint_last : (fuel w : ℕ) → w < 128 → varint_loop (suc fuel) w ≡ w ∷ []
unfolding varint_loop
varint_last fuel w h = ground arith

varint_inner :
    (fuel w : ℕ) → 128 ≤ w → varint_loop (suc fuel) w ≡ (w % 128 + 128) ∷ varint_loop fuel (w / 128)
unfolding varint_loop
varint_inner fuel w h = ground arith

read_last :
    (rounds shift v w : ℕ) (rest : List ℕ)
    → w < 128
    → v + w * 2 ^ shift < 2 ^ 32
    → read_loop (suc rounds) shift v (w ∷ rest) ≡ value (v + w * 2 ^ shift) rest
unfolding read_loop
read_last rounds shift v w rest h fits =
    ground
      (arith, mod-eq_of_lt {n = w % 128 * 2 ^ shift} {m = 2 ^ 32}, mod-eq_of_lt {n = w} {m = 128} h)

read_inner :
    (rounds shift v g : ℕ) (rest : List ℕ)
    → g < 128
    → v + g * 2 ^ shift < 2 ^ 32
    → read_loop (suc rounds) shift v ((g + 128) ∷ rest)
      ≡ read_loop rounds (shift + 7) (v + g * 2 ^ shift) rest
unfolding read_loop
read_inner rounds shift v g rest h fits =
    ground (arith, low, mod-eq_of_lt {n = (g + 128) % 128 * 2 ^ shift} {m = 2 ^ 32})
  where
    low : (g + 128) % 128 ≡ g
    low = omega arith

read_loop-varint :
    (rounds fuel w v shift : ℕ) (rest : List ℕ)
    → rounds ≤ fuel
    → w < 128 ^ suc rounds
    → v + w * 2 ^ shift < 2 ^ 32
    → read_loop (suc rounds) shift v (varint_loop (suc fuel) w ++ rest)
      ≡ value (v + w * 2 ^ shift) rest
read_loop-varint zero fuel w v shift rest le lt fits =
    rw (varint_last fuel w (omega arith)) (read_last zero shift v w rest (omega arith) fits)
read_loop-varint (suc rounds) zero w v shift rest le lt fits = absurd (omega arith)
read_loop-varint (suc rounds) (suc fuel) w v shift rest le lt fits = elim (Bool-cases (ltb w 128)) [
  | inl small ↦
      rw (varint_last (suc fuel) w (ltb→lt _ _ small))
        (read_last (suc rounds) shift v w rest (ltb→lt _ _ small) fits)
  | inr large ↦
      let place = ap (λ (x : ℕ). w / 128 * x) (pow_next shift) in
      let bits = value_bits w (2 ^ shift) v in
      rw (varint_inner (suc fuel) w (ground arith)) (
        read_inner (suc rounds) shift v (w % 128) _ (omega arith) (omega arith)
        ∙ read_loop-varint rounds fuel (w / 128) (v + w % 128 * 2 ^ shift) (shift + 7) rest
            (omega arith) (omega (arith, pow-suc 128 (suc rounds))) (omega arith)
        ∙ ap (λ t. value t rest) (omega arith))
]

-- On every `uint32_t`, `read_varint` takes back what `pb_varint` wrote, and leaves what follows.
pub read_varint-pb_varint :
    (w : ℕ) (rest : List ℕ) → w < 2 ^ 32 → read_varint (pb_varint w ++ rest) ≡ value w rest
unfolding read_varint pb_varint
read_varint-pb_varint w rest h =
    read_loop-varint 4 9 w 0 0 rest (omega arith) (omega arith) (omega arith)
    ∙ ap (λ t. value t rest) (omega arith)

pub length-varint_loop : (fuel k w : ℕ) → w < 128 ^ suc k → length (varint_loop fuel w) ≤ suc k
unfolding varint_loop
length-varint_loop zero k w h = omega arith
length-varint_loop (suc fuel) zero w h = ground arith
length-varint_loop (suc fuel) (suc k) w h =
    ground (arith, length-varint_loop fuel k (w / 128) (omega (arith, pow-suc 128 (suc k))))
