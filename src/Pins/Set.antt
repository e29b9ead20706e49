-- ===== src/Pins/Set.antt =====
-- tools/pinctrl/pinctrl.c: `set` of one pin, with what it refuses, and the options of a `set`. What
-- is printed is left out. Without -p a number is a GPIO; with it, `pad_gpio` of board.c gives the
-- GPIO of a pin of the board's header.
use esp32_s31_linux.Common.{
  ℕ, Option, none, some, Bool, true, false, not, ◌&&◌, ◌==◌, if◌then◌else◌,
}
use esp32_s31_linux.Pins.{Regs}
use esp32_s31_linux.Pins.Tool.{
  Mode, op, pin_exists, pin_is_flash, pin_get, pin_set_mode, pin_set_pull, pin_set_out,
}

-- The part of `struct board` that `set` reads; the masks are functions of the bit.
pub record Board : Type 0 where
  pub reserved : ℕ → Bool
  pub used : ℕ → Bool
  pub have_lines : Bool

pub data Refusal : Type 0 where
  flash_pin : Refusal
  lines_unknown : Refusal
  reserved_line : Refusal
  used_line : Refusal
  interrupt_enabled : Refusal

unfoldable pub set_refusal : Board → Bool → Regs → ℕ → Option Refusal
set_refusal board force_mode regs gpio =
    if pin_is_flash gpio
    then some flash_pin
    else if not board.have_lines
    then some lines_unknown
    else if board.reserved gpio
    then some reserved_line
    else if board.used gpio && not force_mode
    then some used_line
    else if not ((pin_get regs gpio).int_lines == 0)
    then some interrupt_enabled
    else none

abbrev pub is_op : Mode → Bool
is_op op = true
is_op _ = false

abbrev pub or_else {ℓ} : {A : Type ℓ} → Option A → A → A
or_else none d = d
or_else (some a) d = a

-- `none` is NO_CHANGE.
unfoldable pub set_out : Regs → ℕ → Option Bool → Regs
set_out regs gpio none = regs
set_out regs gpio (some high) = pin_set_out regs gpio high

unfoldable pub set_mode : Regs → ℕ → Option Mode → Regs
set_mode regs gpio none = regs
set_mode regs gpio (some mode) = pin_set_mode regs gpio mode

unfoldable pub set_pull : Regs → ℕ → Option ℕ → Regs
set_pull regs gpio none = regs
set_pull regs gpio (some pull) = pin_set_pull regs gpio pull

abbrev pub changes {ℓ} : {A : Type ℓ} → Option A → Bool
changes none = false
changes (some a) = true

-- A GPIO that may be changed: the level first, so that a new output does not start at the old one.
-- `false` is the exit status 1.
unfoldable pub change : Regs → ℕ → Option Mode → Option Bool → Option ℕ → Bool × Regs
change regs gpio fsparam drive pull =
    let mode = or_else fsparam (pin_get regs gpio).mode in
    if changes drive && not (is_op mode)
    then (false, regs)
    else (true, set_pull (set_mode (set_out regs gpio drive) gpio fsparam) gpio pull)

-- `do_gpio_set` after `num_to_gpio`: `none` for a number without a GPIO.
unfoldable pub do_gpio_set :
    Board → Bool → Regs → Option ℕ → Option Mode → Option Bool → Option ℕ → Bool × Regs
do_gpio_set board force_mode regs none fsparam drive pull = (false, regs)
do_gpio_set board force_mode regs (some gpio) fsparam drive pull =
    elim (set_refusal board force_mode regs gpio) [
      | some why ↦ (false, regs)
      | none ↦ change regs gpio fsparam drive pull
    ]

-- Without -p.
unfoldable pub num_to_gpio : ℕ → Option ℕ
num_to_gpio num = if pin_exists num then some num else none
