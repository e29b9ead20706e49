-- ===== src/Clk/Laws.antt =====
-- The rates that the SD host divider gives when the clock framework sets it.
use esp32_s31_linux.Common.{ℕ, ◌+◌, ◌-◌, ◌*◌, ◌/◌, ◌%◌, ◌^◌, ◌≤◌, ◌<◌, ◌≡◌, ◌≢◌, arith, get_or}
use native.Mathlib.Nat.{div-mul-le_self, lt-div-mul-add, mul-le-mul_right, lt_of_mul-lt-mul_right}
use esp32_s31_linux.Clk.{sdio_div, sdio_recalc_rate, sdio_set_rate}

-- The divider from 2 to 16 that is the first with a rate of at most `rate`, or 16 if none is.
pub record IsBest (rate parent d : ℕ) : Type 0 where
  pub low : 2 ≤ d
  pub high : d ≤ 16
  pub fast : parent ≤ 16 * rate → parent ≤ d * rate
  pub first : (e : ℕ) → 2 ≤ e → parent ≤ e * rate → d ≤ e
  pub last : 16 * rate < parent → d ≡ 16

-- DIV_ROUND_UP of 32-bit words.
round_up : ℕ → ℕ → ℕ
round_up parent rate = (parent + rate + 2 ^ 32 - 1) % 2 ^ 32 / rate

module _ (rate parent : ℕ) (pos : 0 < rate) (word : parent + rate < 2 ^ 32) where
  up_lem : (parent ≤ round_up parent rate * rate) × (round_up parent rate * rate < parent + rate)
  unfolding round_up
  up_lem =
      let e : ((parent + rate + 2 ^ 32 - 1) % 2 ^ 32 ≡ parent + rate - 1) = omega arith in
      rw e (
        omega (arith, lt-div-mul-add {a = parent + rate - 1} {b = rate} pos),
        omega (arith, div-mul-le_self (parent + rate - 1) rate),
      )

  up-first : (e : ℕ) → parent ≤ e * rate → round_up parent rate ≤ e
  up-first e h =
      let lt : (round_up parent rate * rate < (e + 1) * rate) = omega (arith, up_lem) in
      omega (arith, lt_of_mul-lt-mul_right rate {m = round_up parent rate} {n = e + 1} lt)

  up-high : (k : ℕ) → round_up parent rate ≤ k → parent ≤ k * rate
  up-high k h = omega (arith, up_lem, mul-le-mul_right rate h)

  pub sdio_div-IsBest : IsBest rate parent (sdio_div rate parent)
  unfolding sdio_div round_up
  sdio_div-IsBest = record {
    low = ground arith;
    high = ground arith;
    fast = λ h. ground (arith, up-first 16 h, up-high 2, up_lem);
    first = λ e two h. ground (arith, up-first e h);
    last = λ h. ground (arith, up-high 16, up_lem);
  }

-- The rate after `clk_set_rate`: the clock framework gives `sdio_set_rate` the rate that
-- `sdio_determine_rate` found for the request, and then reads the register back.
abbrev pub rate_set : ℕ → ℕ → ℕ
rate_set asked parent = sdio_recalc_rate (get_or (sdio_set_rate asked parent) 1 0) parent

-- `asked` is what the driver determines, and `got` what the register then gives.
pub record Chosen (rate parent asked got : ℕ) : Type 0 where
  pub within : parent ≤ 16 * rate → asked ≤ rate
  pub closest : (e : ℕ) → 2 ≤ e → parent ≤ e * rate → parent / e ≤ asked
  pub lowest : 16 * rate < parent → asked ≡ parent / 16
  pub not_faster : got ≤ asked
  pub exact : (e : ℕ) → 2 ≤ e → e ≤ 16 → e * asked ≡ parent → got ≡ asked
  pub slower : parent < 16 * asked → ((e : ℕ) → 2 ≤ e → e ≤ 16 → e * asked ≢ parent) → got < asked

module _ (rate parent : ℕ) (pos : 0 < rate) (word : parent + rate < 2 ^ 32) (half : parent < 2 ^ 31)
    (some_cycles : 16 ≤ parent) where
  asked : ℕ
  asked = parent / sdio_div rate parent
