-- ===== src/Pins/Driver.antt =====
-- linux/drivers/pinctrl/pinctrl-esp32s31.c: pin functions, pin configuration and the GPIO chip. An
-- errno is a result of its own; the generic parameters of Linux are a data type.
use esp32_s31_linux.Common.{
  ℕ, ◌+◌, ◌-◌, ◌%◌, List, [], ◌∷◌, Option, none, some, Bool, true, false, ◌&&◌, ◌||◌, leb, ◌==◌,
  if◌then◌else◌, get_or,
}
use esp32_s31_linux.Pins.{
  Regs, field, put_field, npins, nsigs, func_gpio, sig_gpio_out, gpio_pin, gpio_in_sel,
  gpio_out_sel, set_bit, write_word, write_iomux, bank, cnnt_select,
}

-- `writel(BIT(n), ...)` to a W1TS or W1TC register of the GPIO page.
unfoldable pub write_w1 : Regs → ℕ → ℕ → Regs
write_w1 r offset n =
    if offset == 0x08 || (offset == 0x14 || (offset == 0x38 || offset == 0x44))
    then set_bit r (offset - 4) n true
    else set_bit r (offset - 8) n false

-- A "pinmux" cell: the signal, the bits for input and output, and the function.
unfoldable pub mux_one : Regs → ℕ → ℕ → Option Regs
mux_one r pin mux =
    let func = field 2048 8 mux in
    let sig = field 1 512 mux in
    let input = field 512 2 mux == 1 in
    let output = field 1024 2 mux == 1 in
    let routed =
      (if input
        then write_word r (gpio_in_sel sig) (if func == func_gpio then 0x200 + pin else 0x80)
        else r) in
    let driven = if output then write_word routed (gpio_out_sel pin) sig else routed in
    let word = put_field 4096 8 func (driven.iomux pin) in
    let muxed = write_iomux driven pin (if input then put_field 512 2 1 word else word) in
    if leb npins pin || leb nsigs sig then none else some (cnnt_select muxed pin func)

-- The pins of a group with their cells; `false` is the error of the first pin that has one.
unfoldable pub set_mux : Regs → List (ℕ × ℕ) → Bool × Regs
set_mux r [] = (true, r)
set_mux r ((pin, mux) ∷ ps) = elim (mux_one r pin mux) [
  | none ↦ (false, r)
  | some r' ↦ set_mux r' ps
]

unfoldable pub gpio_request_enable : Regs → ℕ → Regs
gpio_request_enable r pin =
    let input = write_w1 r (bank pin 0x3c 0x48) (pin % 32) in
    let driven = write_word input (gpio_out_sel pin) sig_gpio_out in
    write_iomux driven pin (put_field 512 2 1 (put_field 4096 8 func_gpio (driven.iomux pin)))

-- `enum pin_config_param` of Linux, the ones that the driver has.
pub data Param : Type 0 where
  bias_disable : Param
  bias_pull_up : Param
  bias_pull_down : Param
  input_enable : Param
  open_drain : Param
  push_pull : Param
  drive_strength : Param
  other : ℕ → Param

pub data Config : Type 0 where
  config : ℕ → Config
  einval : Config
  enotsupp : Config

abbrev pub drive_ma : List ℕ
drive_ma = 5 ∷ 10 ∷ 20 ∷ 40 ∷ []

abbrev pub if_on : Bool → ℕ → Config
if_on on arg = if on then config arg else einval

unfoldable pub pin_config_get : Regs → ℕ → Param → Config
pin_config_get r pin bias_disable =
    if_on (field 128 2 (r.iomux pin) == 0 && field 256 2 (r.iomux pin) == 0) 1
pin_config_get r pin bias_pull_up = if_on (field 256 2 (r.iomux pin) == 1) 1
pin_config_get r pin bias_pull_down = if_on (field 128 2 (r.iomux pin) == 1) 1
pin_config_get r pin input_enable = if_on (field 512 2 (r.iomux pin) == 1) 1
pin_config_get r pin open_drain = if_on (field 4 2 (r.gpio (gpio_pin pin)) == 1) 1
pin_config_get r pin push_pull = if_on (field 4 2 (r.gpio (gpio_pin pin)) == 0) 1
pin_config_get r pin drive_strength = config (get_or drive_ma (field 1024 4 (r.iomux pin)) 0)
pin_config_get r pin (other n) = enotsupp

-- The index of a strength in the table, from `i` on.
unfoldable pub drive_loop : List ℕ → ℕ → ℕ → Option ℕ
drive_loop [] i ma = none
drive_loop (x ∷ xs) i ma = if x == ma then some i else drive_loop xs (i + 1) ma

unfoldable pub drive_field : ℕ → Option ℕ
drive_field ma = drive_loop drive_ma 0 ma

pub data Configured : Type 0 where
  configured : Regs → Configured
  einval : Configured
  enotsupp : Configured

abbrev pub with_drive : Regs → ℕ → Option ℕ → Configured
with_drive r pin none = Configured.einval
with_drive r pin (some drv) = configured (write_iomux r pin (put_field 1024 4 drv (r.iomux pin)))

-- Both pull bits are one field here: pull-down is its bit 0, pull-up its bit 1.
unfoldable pub config_one : Regs → ℕ → Param → ℕ → Configured
config_one r pin bias_disable arg = configured (write_iomux r pin (put_field 128 4 0 (r.iomux pin)))
config_one r pin bias_pull_up arg = configured (write_iomux r pin (put_field 128 4 2 (r.iomux pin)))
config_one r pin bias_pull_down arg =
    configured (write_iomux r pin (put_field 128 4 1 (r.iomux pin)))
config_one r pin input_enable arg =
    configured (write_iomux r pin (put_field 512 2 (if arg == 0 then 0 else 1) (r.iomux pin)))
config_one r pin open_drain arg =
    configured (write_word r (gpio_pin pin) (put_field 4 2 1 (r.gpio (gpio_pin pin))))
config_one r pin push_pull arg =
    configured (write_word r (gpio_pin pin) (put_field 4 2 0 (r.gpio (gpio_pin pin))))
config_one r pin drive_strength arg = with_drive r pin (drive_field arg)
config_one r pin (other n) arg = Configured.enotsupp

-- The registers after the configurations up to the first that fails, and whether none did.
unfoldable pub pin_config_set : Regs → ℕ → List (Param × ℕ) → Bool × Regs
pin_config_set r pin [] = (true, r)
pin_config_set r pin ((param, arg) ∷ cs) = elim (config_one r pin param arg) [
  | configured r' ↦ pin_config_set r' pin cs
  | Configured.einval ↦ (false, r)
  | Configured.enotsupp ↦ (false, r)
]

unfoldable pub group_set : Regs → List ℕ → List (Param × ℕ) → Bool × Regs
group_set r [] cs = (true, r)
group_set r (pin ∷ pins) cs =
    let one = pin_config_set r pin cs in elim one.0 [ false ↦ one | true ↦ group_set one.1 pins cs ]

unfoldable pub gpio_set : Regs → ℕ → Bool → Regs
gpio_set r offset high =
    write_w1 r (if high then bank offset 0x08 0x14 else bank offset 0x0c 0x18) (offset % 32)

unfoldable pub gpio_get : Regs → ℕ → Bool
gpio_get r offset = r.bits (bank offset 0x64 0x68) (offset % 32)

-- `true` for GPIO_LINE_DIRECTION_OUT.
unfoldable pub gpio_get_direction : Regs → ℕ → Bool
gpio_get_direction r offset = r.bits (bank offset 0x34 0x40) (offset % 32)

unfoldable pub gpio_direction_input : Regs → ℕ → Regs
gpio_direction_input r offset = write_w1 r (bank offset 0x3c 0x48) (offset % 32)

unfoldable pub gpio_direction_output : Regs → ℕ → Bool → Regs
gpio_direction_output r offset high =
    write_w1 (gpio_set r offset high) (bank offset 0x38 0x44) (offset % 32)
