-- ===== src/Pins/Lines.antt =====
-- GPIO lines of Linux, and what the pin tool shows of them.
use esp32_s31_linux.Common.{
  ℕ, ◌%◌, ◌<◌, ◌≡◌, refl, ap, ◌∙◌, sym, arith, Bool, true, false, if◌then◌else◌,
}
use esp32_s31_linux.Pins.{Regs, field, put_field, gpio_out_sel, gpio_in_sel, bank, nsigs}
use esp32_s31_linux.Pins.Driver.{
  write_w1, gpio_request_enable, gpio_set, gpio_get_direction, gpio_direction_output,
}
use esp32_s31_linux.Pins.Tool.{ip, op, gpio_bit, inputs_loop, matrix_signals, pin_mode, pin_get}
use esp32_s31_linux.Pins.Changes.{inputs_loop-cong}

-- A line that Linux has requested, with nothing else of the matrix on its pin.
abbrev IsLine : Regs → ℕ → Type 0
IsLine r pin =
    (field 4096 8 (r.iomux pin) ≡ 1)
    × (field 512 2 (r.iomux pin) ≡ 1)
    × (matrix_signals r pin ≡ false)

module _ (r : Regs) (pin : ℕ) (lt : pin < 62) where
  IsLine-mode :
      IsLine r pin
      → (pin_get r pin).mode ≡ (if r.bits (bank pin 0x34 0x40) (pin % 32) then op else ip)
  unfolding pin_get pin_mode gpio_bit
  IsLine-mode l = rw (l.2, l.0, l.1) refl

  request-word :
      (gpio_request_enable r pin).iomux pin ≡ put_field 512 2 1 (put_field 4096 8 1 (r.iomux pin))
  unfolding gpio_request_enable write_w1
  request-word = ground arith

  request-out_sel : (gpio_request_enable r pin).gpio (gpio_out_sel pin) ≡ 256
  unfolding gpio_request_enable write_w1
  request-out_sel = ground arith

  request-input : (gpio_request_enable r pin).bits (bank pin 0x34 0x40) (pin % 32) ≡ false
  unfolding gpio_request_enable write_w1
  request-input = ground arith

  request-in_sel :
      (s : ℕ) → s < 256 → (gpio_request_enable r pin).gpio (gpio_in_sel s) ≡ r.gpio (gpio_in_sel s)
  unfolding gpio_request_enable write_w1
  request-in_sel s l = ground arith

  request-signals :
      inputs_loop nsigs 0 r pin ≡ false → matrix_signals (gpio_request_enable r pin) pin ≡ false
  unfolding matrix_signals
  request-signals e =
      rw
        (
          request-out_sel,
          inputs_loop-cong 256 0 r (gpio_request_enable r pin) pin (omega arith) request-in_sel,
          e,
        )
        refl

  request-IsLine : inputs_loop nsigs 0 r pin ≡ false → IsLine (gpio_request_enable r pin) pin
  request-IsLine e =
      let w = r.iomux pin in
      let f : (field 4096 8 (put_field 512 2 1 (put_field 4096 8 1 w)) ≡ 1) = omega arith in
      let g : (field 512 2 (put_field 512 2 1 (put_field 4096 8 1 w)) ≡ 1) = omega arith in
      (rw request-word f, rw request-word g, request-signals e)

  module _ (high : Bool) where
    output-words :
        ((gpio_direction_output r pin high).iomux ≡ r.iomux)
        × ((gpio_direction_output r pin high).gpio ≡ r.gpio)
    unfolding gpio_direction_output gpio_set write_w1
    output-words = (ground arith, ground arith)

    output-enable : gpio_get_direction (gpio_direction_output r pin high) pin ≡ true
    unfolding gpio_direction_output gpio_set write_w1 gpio_get_direction
    output-enable = ground arith

    output-level : (pin_get (gpio_direction_output r pin high) pin).out ≡ high
    unfolding gpio_direction_output gpio_set write_w1 pin_get gpio_bit
    output-level = ground arith

    output-signals : matrix_signals (gpio_direction_output r pin high) pin ≡ matrix_signals r pin
    unfolding matrix_signals
    output-signals =
        rw
          (
            inputs_loop-cong 256 0 r (gpio_direction_output r pin high) pin (omega arith)
                (λ s l. rw output-words.1 refl),
            output-words.1,
          )
          refl

    output-IsLine : IsLine r pin → IsLine (gpio_direction_output r pin high) pin
    output-IsLine l = (
      ap (λ (m : ℕ → ℕ). field 4096 8 (m pin)) output-words.0 ∙ l.0,
      ap (λ (m : ℕ → ℕ). field 512 2 (m pin)) output-words.0 ∙ l.1,
      output-signals ∙ l.2,
    )

direction-bit :
    (r : Regs) (pin : ℕ) → gpio_get_direction r pin ≡ r.bits (bank pin 0x34 0x40) (pin % 32)
unfolding gpio_get_direction
direction-bit r pin = refl

-- A line that Linux requests, on a pin that no input signal of the matrix reads, is an input for
-- Linux and for the tool. When Linux makes it an output, both see an output, and the tool sees the
-- level that was asked for.
pub gpio_direction_output-shown :
    (r : Regs) (pin : ℕ) (high : Bool)
    → pin < 62
    → inputs_loop nsigs 0 r pin ≡ false
    → let requested = gpio_request_enable r pin in
      let driven = gpio_direction_output requested pin high in
      (gpio_get_direction requested pin ≡ false)
      × ((pin_get requested pin).mode ≡ ip)
      × (gpio_get_direction driven pin ≡ true)
      × ((pin_get driven pin).mode ≡ op)
      × ((pin_get driven pin).out ≡ high)
gpio_direction_output-shown r pin high lt e =
    let requested = gpio_request_enable r pin in
    let driven = gpio_direction_output requested pin high in
    let line = request-IsLine r pin lt e in
    let enable = output-enable requested pin lt high in
    (
      direction-bit requested pin ∙ request-input r pin lt,
      IsLine-mode requested pin lt line
          ∙ ap (λ (b : Bool). if b then op else ip) (request-input r pin lt),
      enable,
      IsLine-mode driven pin lt (output-IsLine requested pin lt high line)
          ∙ ap (λ (b : Bool). if b then op else ip) (sym (direction-bit driven pin) ∙ enable),
      output-level requested pin lt high,
    )
