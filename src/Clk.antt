-- ===== src/Clk.antt =====
-- linux/drivers/clk/clk-esp32s31.c: the SD host divider, the MPLL and the reset bits. A register is
-- the number it holds, `unsigned long` has 32 bits, and the fields of a register word do not
-- overlap, so that `|` of them is a sum.
pub mod Laws
use esp32_s31_linux.Common.{
  ℕ, zero, suc, ◌+◌, ◌-◌, ◌*◌, ◌/◌, ◌%◌, ◌^◌, List, [], ◌∷◌, Bool, true, false, ltb, ◌==◌,
  if◌then◌else◌, Mem, update, get_or,
}

-- The CPU, SYS and APB clocks: DIV_NUM is bits 7 to 0, the numerator bits 10 to 8, the denominator
-- bits 13 to 11. Linux' `mult_frac` multiplies by a fraction.
unfoldable pub frac_recalc_rate : (ℕ → ℕ → ℕ → ℕ) → ℕ → ℕ → ℕ
frac_recalc_rate mult_frac val parent_rate =
    let div = val % 256 + 1 in
    let num = val / 256 % 8 in
    let den = val / 2048 % 8 in
    if den == 0 then parent_rate / div else mult_frac parent_rate den (div * den + num)

abbrev pub sdio_div_max : ℕ
sdio_div_max = 16

-- `FIELD_GET(LP_MSPI_FB_DIV, val)` is bits 7 to 3, `LP_MSPI_REF_DIV` bits 2 to 0.
unfoldable pub mpll_recalc_rate : ℕ → ℕ → ℕ
mpll_recalc_rate val parent_rate = parent_rate * (val / 8 % 32 + 1) % 2 ^ 32 / (val % 8 + 1)

unfoldable pub sdio_div : ℕ → ℕ → ℕ
sdio_div rate parent_rate =
    let up = (parent_rate + rate + 2 ^ 32 - 1) % 2 ^ 32 / rate in
    if rate == 0
    then sdio_div_max
    else if ltb up 2
    then 2
    else if ltb sdio_div_max up
    then sdio_div_max
    else up

-- `HP_SDIO_EDGE_N` is bits 12 to 9.
unfoldable pub sdio_recalc_rate : ℕ → ℕ → ℕ
sdio_recalc_rate val parent_rate = parent_rate / (val / 512 % 16 + 1)

unfoldable pub sdio_determine_rate : ℕ → ℕ → ℕ
sdio_determine_rate rate best_parent_rate = best_parent_rate / sdio_div rate best_parent_rate

-- The fields `EDGE_L` (4 to 1), `EDGE_H` (8 to 5), `EDGE_N`, `DRV_EDGE_SEL` (18 to 16) and
-- `PHASE_CLK_EN` (24 to 22).
unfoldable pub sdio_val : ℕ → ℕ
sdio_val div = (div - 1) * 2 + (div / 2 - 1) * 32 + (div - 1) * 512 + 65536 + 7 * 4194304

-- The words that are written to the register, in order: `EDGE_UPDATE` is bit 0.
unfoldable pub sdio_set_rate : ℕ → ℕ → List ℕ
sdio_set_rate rate parent_rate =
    let val = sdio_val (sdio_div rate parent_rate) in (val + 1) ∷ val ∷ []

-- A word without one of its bits, whose value is `mask`.
unfoldable pub clear_bit : ℕ → ℕ → ℕ
clear_bit mask val = val - val / mask % 2 * mask

-- `struct esp32s31_reset`, with a mask of one bit.
pub record Reset : Type 0 where
  pub offset : ℕ
  pub mask : ℕ

-- `regs` gives the word at each offset.
unfoldable pub reset_update : Reset → Bool → (ℕ → ℕ) → ℕ → ℕ
reset_update rst assert regs i =
    let val = clear_bit rst.mask (regs rst.offset) in
    if i == rst.offset then val + (if assert then rst.mask else 0) else regs i
