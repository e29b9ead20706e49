-- ===== src/Pins/Effects.antt =====
-- tools/pinctrl: after a `set` of a pin, `get` shows what was asked for, and of all other pins what
-- it showed before.
use esp32_s31_linux.Common.{
  ℕ, ◌%◌, ◌<◌, ◌≡◌, ◌≢◌, refl, ◌∙◌, arith, Option, none, some, Bool, true, false, if◌then◌else◌,
}
use esp32_s31_linux.Pins.{
  Regs, field, put_field, gpio_pin, gpio_out_sel, gpio_in_sel, bank, cnnt_select, nsigs, bit_of,
}
use esp32_s31_linux.Pins.Tool.{
  Mode, alt, ip, op, no_function, mx, gpio_bit, gpio_w1, inputs_loop, matrix_signals, pin_mode,
  pin_get, gpio_mode, pin_set_mode, pin_set_pull, pin_set_out,
}
use esp32_s31_linux.Pins.Set.{or_else, set_out, set_pull}
use esp32_s31_linux.Pins.Changes.{inputs_loop-cong, cnnt_select-same}

-- The modes that `get` can show after they are set: an IO MUX function but the GPIO matrix, and an
-- input, an output or none, if no input signal of the matrix reads the pin.
abbrev pub Shows : Regs → ℕ → Mode → Type 0
Shows r pin (alt n) = (n < 5) × (n ≢ 1)
Shows r pin mx = ⊥
Shows r pin _ = inputs_loop nsigs 0 r pin ≡ false

gpio_mode-inputs :
    (r : Regs) (pin : ℕ) (output input : Bool)
    → pin < 62
    → inputs_loop nsigs 0 (gpio_mode r pin output input) pin ≡ inputs_loop nsigs 0 r pin
unfolding gpio_mode gpio_w1
gpio_mode-inputs r pin output input lt =
    inputs_loop-cong 256 0 r (gpio_mode r pin output input) pin (omega arith) (λ s lt. ground arith)

gpio_mode-signals :
    (r : Regs) (pin : ℕ) (output input : Bool)
    → pin < 62
    → inputs_loop nsigs 0 r pin ≡ false
    → matrix_signals (gpio_mode r pin output input) pin ≡ false
unfolding matrix_signals
gpio_mode-signals r pin output input lt e =
    let o : (field 1 512 ((gpio_mode r pin output input).gpio (gpio_out_sel pin)) ≡ 256) =
      unfold gpio_mode gpio_w1 in ground arith in
    rw (o, gpio_mode-inputs r pin output input lt, e) refl

module _ (r : Regs) (pin : ℕ) (lt : pin < 62) where
  gpio_mode-word :
      (output input : Bool)
      → (gpio_mode r pin output input).iomux pin
        ≡ put_field 512 2 (if input then 1 else 0) (put_field 4096 8 1 (r.iomux pin))
  unfolding gpio_mode gpio_w1
  gpio_mode-word output input = ground arith

  gpio_mode-enable :
      (output input : Bool)
      → (gpio_mode r pin output input).bits (bank pin 0x34 0x40) (pin % 32) ≡ output
  unfolding gpio_mode gpio_w1
  gpio_mode-enable output input = ground arith

  pub mode-set :
      (mode : Mode) → Shows r pin mode → (pin_get (pin_set_mode r pin mode) pin).mode ≡ mode
  unfolding pin_get pin_mode pin_set_mode gpio_bit
  mode-set (alt n) s =
      let w = (cnnt_select r pin n).iomux pin in
      let f : (field 4096 8 (put_field 512 2 1 (put_field 4096 8 n w)) ≡ n) = omega arith in
      ground (arith, f)
  mode-set mx s = absurd s
  mode-set ip s =
      rw
        (
          gpio_mode-signals r pin false true lt s,
          gpio_mode-word false true,
          gpio_mode-enable false true,
        )
        (ground arith)
  mode-set op s =
      rw
        (
          gpio_mode-signals r pin true true lt s,
          gpio_mode-word true true,
          gpio_mode-enable true true,
        )
        (ground arith)
  mode-set no_function s =
      rw
        (
          gpio_mode-signals r pin false false lt s,
          gpio_mode-word false false,
          gpio_mode-enable false false,
        )
        (ground arith)

-- The modes of the command line: `alt` is a0 to a4.
abbrev pub IsMode : Mode → Type 0
IsMode (alt n) = n < 5
IsMode _ = Unit {0}

mode-drive :
    (b : Bool) (w n : ℕ)
    → n < 8
    → field 1024 4 (put_field 512 2 (bit_of b) (put_field 4096 8 n w)) ≡ field 1024 4 w
mode-drive true w n h = omega arith
mode-drive false w n h = omega arith

mode-pulls :
    (b : Bool) (w n : ℕ)
    → n < 8
    → field 128 4 (put_field 512 2 (bit_of b) (put_field 4096 8 n w)) ≡ field 128 4 w
mode-pulls true w n h = omega arith
mode-pulls false w n h = omega arith

-- What an operation of `set` never changes of a pin: the pad word with its interrupt fields, the
-- drive strength, the pending bit, and the inputs of the matrix.
pub record Keeps (r r' : Regs) (pin : ℕ) : Type 0 where
  pub pad : r'.gpio (gpio_pin pin) ≡ r.gpio (gpio_pin pin)
  pub drive : field 1024 4 (r'.iomux pin) ≡ field 1024 4 (r.iomux pin)
  pub status : r'.bits (bank pin 0x74 0x80) (pin % 32) ≡ r.bits (bank pin 0x74 0x80) (pin % 32)
  pub in_sel : (s : ℕ) → s < 256 → r'.gpio (gpio_in_sel s) ≡ r.gpio (gpio_in_sel s)

pub Keeps-trans : (r r' r'' : Regs) (pin : ℕ) → Keeps r r' pin → Keeps r' r'' pin → Keeps r r'' pin
Keeps-trans r r' r'' pin a b = record {
  pad = b.pad ∙ a.pad;
  drive = b.drive ∙ a.drive;
  status = b.status ∙ a.status;
  in_sel = λ s lt. b.in_sel s lt ∙ a.in_sel s lt;
}

-- What the step to another mode also leaves alone: the pulls and the output level.
pub record KeepsLevels (r r' : Regs) (pin : ℕ) : Type 0 where
  pub pulls : field 128 4 (r'.iomux pin) ≡ field 128 4 (r.iomux pin)
  pub out : r'.bits (bank pin 0x04 0x10) (pin % 32) ≡ r.bits (bank pin 0x04 0x10) (pin % 32)

module _ (r : Regs) (pin : ℕ) (lt : pin < 62) where
  pub Keeps-self : Keeps r r pin
  Keeps-self = record { pad = refl; drive = refl; status = refl; in_sel = λ s l. refl }

  pub set_out-Keeps : (drive : Option Bool) → Keeps r (set_out r pin drive) pin
  unfolding set_out pin_set_out gpio_w1
  set_out-Keeps none = Keeps-self
  set_out-Keeps (some high) = record {
    pad = refl;
    drive = refl;
    status = ground arith;
    in_sel = λ s l. refl;
  }

  pull-drive : (pull w : ℕ) → pull < 4 → field 1024 4 (put_field 128 4 pull w) ≡ field 1024 4 w
  pull-drive pull w h = omega arith

  pub set_pull-Keeps : (pull : Option ℕ) → or_else pull 0 < 4 → Keeps r (set_pull r pin pull) pin
  unfolding set_pull pin_set_pull
  set_pull-Keeps none l = Keeps-self
  set_pull-Keeps (some pull) l = record {
    pad = refl;
    drive = ground (arith, pull-drive pull (r.iomux pin) l);
    status = refl;
    in_sel = λ s l. refl;
  }

  gpio_mode-Keeps : (output input : Bool) → Keeps r (gpio_mode r pin output input) pin
  unfolding gpio_mode gpio_w1
  gpio_mode-Keeps output input = record {
    pad = ground arith;
    drive = ground (arith, mode-drive input (r.iomux pin) 1 (omega arith));
    status = ground arith;
    in_sel = λ s l. ground arith;
  }

  pub pin_set_mode-Keeps : (mode : Mode) → IsMode mode → Keeps r (pin_set_mode r pin mode) pin
  unfolding pin_set_mode
  pin_set_mode-Keeps (alt n) m =
      let same = cnnt_select-same r pin n in
      let w : ((cnnt_select r pin n).iomux pin ≡ r.iomux pin) = rw same.0 refl in
      record {
        pad = rw same.1 refl;
        drive = ground (arith, w, mode-drive true (r.iomux pin) n (omega arith));
        status = rw same.2 refl;
        in_sel = λ s l. rw same.1 refl;
      }
  pin_set_mode-Keeps ip m = gpio_mode-Keeps false true
  pin_set_mode-Keeps op m = gpio_mode-Keeps true true
  pin_set_mode-Keeps no_function m = gpio_mode-Keeps false false
  pin_set_mode-Keeps mx m = gpio_mode-Keeps false true

  gpio_mode-KeepsLevels : (output input : Bool) → KeepsLevels r (gpio_mode r pin output input) pin
  unfolding gpio_mode gpio_w1
  gpio_mode-KeepsLevels output input = record {
    pulls = ground (arith, mode-pulls input (r.iomux pin) 1 (omega arith));
    out = ground arith;
  }

  pub pin_set_mode-KeepsLevels :
      (mode : Mode) → IsMode mode → KeepsLevels r (pin_set_mode r pin mode) pin
  unfolding pin_set_mode
  pin_set_mode-KeepsLevels (alt n) m =
      let same = cnnt_select-same r pin n in
      let w : ((cnnt_select r pin n).iomux pin ≡ r.iomux pin) = rw same.0 refl in
      record {
        pulls = ground (arith, w, mode-pulls true (r.iomux pin) n (omega arith));
        out = rw same.2 refl;
      }
  pin_set_mode-KeepsLevels ip m = gpio_mode-KeepsLevels false true
  pin_set_mode-KeepsLevels op m = gpio_mode-KeepsLevels true true
  pin_set_mode-KeepsLevels no_function m = gpio_mode-KeepsLevels false false
  pin_set_mode-KeepsLevels mx m = gpio_mode-KeepsLevels false true
