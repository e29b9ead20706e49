-- ===== src/Pins.antt =====
-- The pin blocks of the ESP32-S31, as linux/drivers/pinctrl/pinctrl-esp32s31.c and
-- tools/pinctrl/esp32s31.h have them: the IO MUX words by pin, the words of the GPIO page by
-- offset, and the CNNT word. The registers with one bit for each pin (OUT, ENABLE, IN, STATUS) are
-- functions of their offset and the bit: the code reads and writes single bits of them.
pub mod Driver
pub mod Irq
pub mod Tool
pub mod Set
pub mod Readback
pub mod Changes
pub mod Effects
pub mod Shown
pub mod Guard
pub mod Lines
use esp32_s31_linux.Common.{
  ℕ, zero, suc, ◌+◌, ◌-◌, ◌*◌, ◌/◌, ◌%◌, ◌^◌, List, [], ◌∷◌, Bool, true, false, ◌&&◌, ◌||◌, ltb,
  leb, ◌==◌, if◌then◌else◌, Mem, update,
}

pub record Regs : Type 0 where
  pub iomux : Mem
  pub gpio : Mem
  pub bits : ℕ → ℕ → Bool
  pub cnnt : ℕ

-- The field of `size` values whose lowest bit has the value `unit`, and a word with another value
-- of it: `(word & ~mask) | value << shift`.
abbrev pub field : ℕ → ℕ → ℕ → ℕ
field unit size word = word / unit % size

abbrev pub put_field : ℕ → ℕ → ℕ → ℕ → ℕ
put_field unit size value word = word - word / unit % size * unit + value * unit

abbrev pub bit_of : Bool → ℕ
bit_of true = 1
bit_of false = 0

abbrev pub npins : ℕ
npins = 62

abbrev pub nsigs : ℕ
nsigs = 256

abbrev pub func_gpio : ℕ
func_gpio = 1

abbrev pub sig_gpio_out : ℕ
sig_gpio_out = 256

abbrev pub gpio_pin : ℕ → ℕ
gpio_pin n = 0xf4 + n * 4

abbrev pub gpio_in_sel : ℕ → ℕ
gpio_in_sel s = 0x2f4 + s * 4

abbrev pub gpio_out_sel : ℕ → ℕ
gpio_out_sel n = 0xaf4 + n * 4

-- A write to the bit `n` of a W1TS register sets that bit of its base register, of a W1TC register
-- clears it; OUT, OUT1, ENABLE and ENABLE1 have them at +4 and +8, STATUS and STATUS1 at +8.
abbrev pub set_bit : Regs → ℕ → ℕ → Bool → Regs
set_bit r base n high = record r { bits = λ o k. if o == base && k == n then high else r.bits o k }

abbrev pub write_word : Regs → ℕ → ℕ → Regs
write_word r offset value = record r { gpio = update r.gpio offset value }

abbrev pub write_iomux : Regs → ℕ → ℕ → Regs
write_iomux r pin value = record r { iomux = update r.iomux pin value }

-- `esp32s31_bank`, and `bank` of the tool: bank 1 has pins 32 and higher.
abbrev pub bank : ℕ → ℕ → ℕ → ℕ
bank pin reg0 reg1 = if ltb pin 32 then reg0 else reg1

-- The CNNT pads: first, last, function, and the value of the select bit.
pub record CnntPads : Type 0 where
  pub first : ℕ
  pub last : ℕ
  pub func : ℕ
  pub sel : ℕ

abbrev pub cnnt_pads : List CnntPads
cnnt_pads =
    record { first = 13; last = 19; func = 2; sel = 2 }
    ∷ record { first = 20; last = 25; func = 4; sel = 1 }
    ∷ []

unfoldable pub select_loop : List CnntPads → Regs → ℕ → ℕ → Regs
select_loop [] r pin func = r
select_loop (p ∷ ps) r pin func =
    select_loop ps
      (if leb p.first pin && (leb pin p.last && func == p.func)
        then record r { cnnt = put_field p.sel 2 1 r.cnnt }
        else r)
      pin func

-- `esp32s31_cnnt_select`, and `cnnt_select` of the tool.
unfoldable pub cnnt_select : Regs → ℕ → ℕ → Regs
cnnt_select r pin func = select_loop cnnt_pads r pin func
