-- ===== src/Pins/Changes.antt =====
-- What `set` of the pin tool changes of a pin, and what it leaves alone.
use esp32_s31_linux.Common.{
  ℕ, zero, suc, ◌+◌, ◌%◌, ◌<◌, ◌≤◌, ◌≡◌, ◌≢◌, refl, arith, Bool, true, false,
}
use esp32_s31_linux.Pins.{Regs, gpio_pin, gpio_out_sel, gpio_in_sel, bank, select_loop, cnnt_select}
use esp32_s31_linux.Pins.Tool.{
  Mode, alt, ip, op, no_function, mx, gpio_bit, gpio_w1, pin_level, inputs_loop, matrix_signals,
  pin_mode, pin_get, gpio_mode, pin_set_mode, pin_set_pull, pin_set_out,
}

-- Two states of the registers show the same of a pin.
pub record SameView (r r' : Regs) (q : ℕ) : Type 0 where
  pub word : r'.iomux q ≡ r.iomux q
  pub pad : r'.gpio (gpio_pin q) ≡ r.gpio (gpio_pin q)
  pub out_sel : r'.gpio (gpio_out_sel q) ≡ r.gpio (gpio_out_sel q)
  pub in_sel : (s : ℕ) → s < 256 → r'.gpio (gpio_in_sel s) ≡ r.gpio (gpio_in_sel s)
  pub out : r'.bits (bank q 0x04 0x10) (q % 32) ≡ r.bits (bank q 0x04 0x10) (q % 32)
  pub enable : r'.bits (bank q 0x34 0x40) (q % 32) ≡ r.bits (bank q 0x34 0x40) (q % 32)
  pub input : r'.bits (bank q 0x64 0x68) (q % 32) ≡ r.bits (bank q 0x64 0x68) (q % 32)
  pub status : r'.bits (bank q 0x74 0x80) (q % 32) ≡ r.bits (bank q 0x74 0x80) (q % 32)

pub inputs_loop-cong :
    (n s : ℕ) (r r' : Regs) (q : ℕ)
    → n + s ≤ 256
    → ((s : ℕ) → s < 256 → r'.gpio (gpio_in_sel s) ≡ r.gpio (gpio_in_sel s))
    → inputs_loop n s r' q ≡ inputs_loop n s r q
unfolding inputs_loop
inputs_loop-cong zero s r r' q h e = refl
inputs_loop-cong (suc n) s r r' q h e =
    rw (e s (omega arith), inputs_loop-cong n (s + 1) r r' q (omega arith) e) refl

matrix_signals-cong :
    (r r' : Regs) (q : ℕ) → SameView r r' q → matrix_signals r' q ≡ matrix_signals r q
unfolding matrix_signals
matrix_signals-cong r r' q v =
    rw (v.out_sel, inputs_loop-cong 256 0 r r' q (omega arith) v.in_sel) refl

pub pin_get-cong : (r r' : Regs) (q : ℕ) → SameView r r' q → pin_get r' q ≡ pin_get r q
unfolding pin_get pin_mode pin_level gpio_bit
pin_get-cong r r' q v =
    rw (matrix_signals-cong r r' q v, v.word, v.pad, v.out, v.enable, v.input, v.status) refl

pub cnnt_select-same :
    (r : Regs) (pin func : ℕ)
    → ((cnnt_select r pin func).iomux ≡ r.iomux)
      × ((cnnt_select r pin func).gpio ≡ r.gpio)
      × ((cnnt_select r pin func).bits ≡ r.bits)
unfolding cnnt_select select_loop
cnnt_select-same r pin func = (ground arith, ground arith, ground arith)

module _ (r : Regs) (pin q : ℕ) (p62 : pin < 62) (q62 : q < 62) (ne : q ≢ pin) where
  pub set_out-other : (high : Bool) → SameView r (pin_set_out r pin high) q
  unfolding pin_set_out gpio_w1
  set_out-other high = record {
    word = refl;
    pad = refl;
    out_sel = refl;
    in_sel = λ s lt. refl;
    out = ground arith;
    enable = ground arith;
    input = ground arith;
    status = ground arith;
  }

  pub set_pull-other : (pull : ℕ) → SameView r (pin_set_pull r pin pull) q
  unfolding pin_set_pull
  set_pull-other pull = record {
    word = ground arith;
    pad = refl;
    out_sel = refl;
    in_sel = λ s lt. refl;
    out = refl;
    enable = refl;
    input = refl;
    status = refl;
  }

  pub gpio_mode-other : (output input : Bool) → SameView r (gpio_mode r pin output input) q
  unfolding gpio_mode gpio_w1
  gpio_mode-other output input = record {
    word = ground arith;
    pad = ground arith;
    out_sel = ground arith;
    in_sel = λ s lt. ground arith;
    out = ground arith;
    enable = ground arith;
    input = ground arith;
    status = ground arith;
  }

  pub set_mode-other : (mode : Mode) → SameView r (pin_set_mode r pin mode) q
  unfolding pin_set_mode
  set_mode-other (alt n) =
      let same = cnnt_select-same r pin n in
      record {
        word = rw same.0 (ground arith);
        pad = rw same.1 refl;
        out_sel = rw same.1 refl;
        in_sel = λ s lt. rw same.1 refl;
        out = rw same.2 refl;
        enable = rw same.2 refl;
        input = rw same.2 refl;
        status = rw same.2 refl;
      }
  set_mode-other ip = gpio_mode-other false true
  set_mode-other op = gpio_mode-other true true
  set_mode-other no_function = gpio_mode-other false false
  set_mode-other mx = gpio_mode-other false true
