-- ===== src/I2c/Timing.antt =====
-- i2c-esp32s31.c: the timing fits the registers.
use esp32_s31_linux.Common.{ℕ, ◌+◌, ◌-◌, ◌*◌, ◌/◌, ◌%◌, ◌^◌, ◌≤◌, ◌<◌, ◌≡◌, arith, sub32, get_or}
use native.Mathlib.Nat.{div-mul-le_self, le-div_iff_mul-le, div-lt_iff_lt-mul, lt-div-mul-add}
use esp32_s31_linux.I2c.{}
use esp32_s31_linux.I2c.Handler.{half_period, wait_high, set_timing}

-- The rates that the driver's field widths are made for, with room for the 7-bit wait.
module _ (rate bus_freq : ℕ) (pos : 0 < bus_freq) (low : bus_freq * 8 ≤ rate)
    (high : rate ≤ bus_freq * 511) (word : rate + 2 * bus_freq < 2 ^ 32) where
  half-low : 4 ≤ half_period rate bus_freq
  unfolding half_period
  half-low =
      let e : ((rate + 2 * bus_freq + 2 ^ 32 - 1) % 2 ^ 32 ≡ rate + 2 * bus_freq - 1) =
        omega arith in
      rw e ((le-div_iff_mul-le {k = 2 * bus_freq} {x = 4} (omega arith)).1 (omega arith))

  half-high : half_period rate bus_freq < 257
  unfolding half_period
  half-high =
      let e : ((rate + 2 * bus_freq + 2 ^ 32 - 1) % 2 ^ 32 ≡ rate + 2 * bus_freq - 1) =
        omega arith in
      rw e ((div-lt_iff_lt-mul {k = 2 * bus_freq} {y = 257} (omega arith)).1 (omega arith))

  half-covers : rate ≤ half_period rate bus_freq * (2 * bus_freq)
  unfolding half_period
  half-covers =
      let e : ((rate + 2 * bus_freq + 2 ^ 32 - 1) % 2 ^ 32 ≡ rate + 2 * bus_freq - 1) =
        omega arith in
      rw e (
        omega
          (arith, lt-div-mul-add {a = rate + 2 * bus_freq - 1} {b = 2 * bus_freq} (omega arith)))

  half-least : half_period rate bus_freq * (2 * bus_freq) < rate + 2 * bus_freq
  unfolding half_period
  half-least =
      let e : ((rate + 2 * bus_freq + 2 ^ 32 - 1) % 2 ^ 32 ≡ rate + 2 * bus_freq - 1) =
        omega arith in
      rw e (omega (arith, div-mul-le_self (rate + 2 * bus_freq - 1) (2 * bus_freq)))

  wait-room : wait_high (half_period rate bus_freq) bus_freq < 128
  unfolding wait_high
  wait-room = ground (arith, half-low, half-high)

  wait-le : wait_high (half_period rate bus_freq) bus_freq ≤ half_period rate bus_freq
  unfolding wait_high
  wait-le = ground (arith, half-low, half-high)

  -- For source clocks of 8 to 511 cycles in a period of the bus, the timing is what is asked for:
  -- the high phase of SCL (bits 8 to 0) and its wait (bits 15 to 9 of the same word) together are
  -- half a period, the low phase is half a period too, less the one that the register adds, both
  -- fit nine bits, and the period is the shortest even number of cycles with which the bus is not
  -- faster than the frequency asked for.
  pub set_timing-fits :
      (order_base_2 : ℕ → ℕ)
      → let words = set_timing order_base_2 rate bus_freq in
        let high_word = (get_or words 1 (0, 0)).1 in
        let low_word = (get_or words 0 (0, 0)).1 in
        (high_word % 512 + high_word / 512 ≡ low_word + 1)
        × (low_word < 512)
        × (high_word < 65536)
        × (rate ≤ (low_word + (high_word % 512 + high_word / 512) + 1) * bus_freq)
        × ((low_word + (high_word % 512 + high_word / 512) + 1) * bus_freq < rate + 2 * bus_freq)
  unfolding set_timing
  set_timing-fits order_base_2 =
      let h = half_period rate bus_freq in
      let w = wait_high h bus_freq in
      let a : (sub32 h w ≡ h - w) = omega (arith, half-high, wait-le) in
      let b : (sub32 h 1 ≡ h - 1) = omega (arith, half-high, half-low) in
      let c : ((h - w + w % 128 * 512) % 512 ≡ h - w) = omega (arith, wait-room, half-high) in
      let d : ((h - w + w % 128 * 512) / 512 ≡ w) = omega (arith, wait-room, half-high) in
      let e : (h - w + w ≡ h) = omega (arith, wait-le) in
      let f : (h - 1 + 1 ≡ h) = omega (arith, half-low) in
      let g : (h - 1 + (h - w + w) + 1 ≡ 2 * h) = omega (arith, e, half-low) in
      rw (a, b, c, d)
        (
          omega (arith, e, f),
          omega (arith, half-high),
          omega (arith, wait-room, half-high, d),
          rw g (grind (arith, half-covers)),
          rw g (grind (arith, half-least)),
        )
