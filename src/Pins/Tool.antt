-- ===== src/Pins/Tool.antt =====
-- tools/pinctrl/esp32s31.c: the state of a pin from the registers, and its changes. The names that
-- `func` of a state shows are left out; that a matrix signal is on the pin is not.
use esp32_s31_linux.Common.{
  ℕ, zero, suc, ◌+◌, ◌*◌, ◌%◌, [], ◌∷◌, Option, none, some, Bool, true, false, not, ◌&&◌, ◌||◌, ltb,
  leb, ◌==◌, if◌then◌else◌, get_or,
}
use esp32_s31_linux.Pins.{
  Regs, field, put_field, bit_of, npins, nsigs, func_gpio, sig_gpio_out, gpio_pin, gpio_in_sel,
  gpio_out_sel, set_bit, write_word, write_iomux, bank, cnnt_select,
}

-- `enum mode`: `alt n` is MODE_A0 + n, of which the C code has the first five.
pub data Mode : Type 0 where
  alt : ℕ → Mode
  ip : Mode
  op : Mode
  no_function : Mode
  mx : Mode

-- `struct pin_state`: `level` is `none` with the input off, `pull` is `enum pull` with PULL_DOWN 1
-- and PULL_UP 2.
pub record PinState : Type 0 where
  pub mode : Mode
  pub pull : ℕ
  pub out : Bool
  pub level : Option Bool
  pub drive_ma : ℕ
  pub open_drain : Bool
  pub int_type : ℕ
  pub int_lines : ℕ
  pub int_pending : Bool

-- GPIO29 and GPIO41 are not on the chip.
unfoldable pub pin_exists : ℕ → Bool
pin_exists pin = ltb pin npins && not (pin == 29 || pin == 41)

unfoldable pub pin_is_flash : ℕ → Bool
pin_is_flash pin = leb 26 pin && leb pin 32

unfoldable pub gpio_bit : Regs → ℕ → ℕ → ℕ → Bool
gpio_bit r pin reg0 reg1 = r.bits (bank pin reg0 reg1) (pin % 32)

unfoldable pub gpio_w1 : Regs → ℕ → ℕ → ℕ → Bool → Regs
gpio_w1 r pin reg0 reg1 set = set_bit r (bank pin reg0 reg1) (pin % 32) set

unfoldable pub pin_level : Regs → ℕ → Option Bool
pin_level r pin = if field 512 2 (r.iomux pin) == 0 then none else some (gpio_bit r pin 0x64 0x68)

-- Whether an input signal from `sig` on reads the pin: `IN_SEL_MATRIX` is bit 9.
unfoldable pub inputs_loop : ℕ → ℕ → Regs → ℕ → Bool
inputs_loop zero sig r pin = false
inputs_loop (suc n) sig r pin =
    let rest = inputs_loop n (sig + 1) r pin in
    (field 512 2 (r.gpio (gpio_in_sel sig)) == 1 && field 1 256 (r.gpio (gpio_in_sel sig)) == pin)
    || rest

-- `OUT_SEL_SIG` is the low nine bits.
unfoldable pub matrix_signals : Regs → ℕ → Bool
matrix_signals r pin =
    not (field 1 512 (r.gpio (gpio_out_sel pin)) == sig_gpio_out) || inputs_loop nsigs 0 r pin

unfoldable pub pin_mode : Regs → ℕ → Mode
pin_mode r pin =
    let func = field 4096 8 (r.iomux pin) in
    if not (func == func_gpio)
    then (if ltb func 5 then alt func else no_function)
    else if matrix_signals r pin
    then mx
    else if gpio_bit r pin 0x34 0x40
    then op
    else if field 512 2 (r.iomux pin) == 1
    then ip
    else no_function

unfoldable pub pin_get : Regs → ℕ → PinState
pin_get r pin = record {
  mode = pin_mode r pin;
  pull = 2 * field 256 2 (r.iomux pin) + field 128 2 (r.iomux pin);
  out = gpio_bit r pin 0x04 0x10;
  level = pin_level r pin;
  drive_ma = get_or (5 ∷ 10 ∷ 20 ∷ 40 ∷ []) (field 1024 4 (r.iomux pin)) 0;
  open_drain = field 4 2 (r.gpio (gpio_pin pin)) == 1;
  int_type = field 128 8 (r.gpio (gpio_pin pin));
  int_lines = field 8192 16 (r.gpio (gpio_pin pin));
  int_pending = gpio_bit r pin 0x74 0x80;
}

-- The modes ip, op and no: the GPIO registers through the matrix.
unfoldable pub gpio_mode : Regs → ℕ → Bool → Bool → Regs
gpio_mode r pin output input =
    let routed = write_word r (gpio_out_sel pin) sig_gpio_out in
    let driven = gpio_w1 routed pin 0x34 0x40 output in
    write_iomux driven pin
      (put_field 512 2 (bit_of input) (put_field 4096 8 func_gpio (driven.iomux pin)))

-- A caller never sets `mx`, which stands behind MODE_NO in the C code.
unfoldable pub pin_set_mode : Regs → ℕ → Mode → Regs
pin_set_mode r pin (alt n) =
    let selected = cnnt_select r pin n in
    write_iomux selected pin (put_field 512 2 1 (put_field 4096 8 n (selected.iomux pin)))
pin_set_mode r pin ip = gpio_mode r pin false true
pin_set_mode r pin op = gpio_mode r pin true true
pin_set_mode r pin no_function = gpio_mode r pin false false
pin_set_mode r pin mx = gpio_mode r pin false true

-- The two pull bits as one field.
unfoldable pub pin_set_pull : Regs → ℕ → ℕ → Regs
pin_set_pull r pin pull = write_iomux r pin (put_field 128 4 pull (r.iomux pin))

unfoldable pub pin_set_out : Regs → ℕ → Bool → Regs
pin_set_out r pin high = gpio_w1 r pin 0x04 0x10 high
