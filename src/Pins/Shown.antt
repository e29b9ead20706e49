-- ===== src/Pins/Shown.antt =====
-- tools/pinctrl: `get` after `set`, for the pin itself and for the others.
use esp32_s31_linux.Common.{
  ℕ, ◌%◌, ◌<◌, ◌≡◌, ◌≢◌, refl, ap, ◌∙◌, sym, arith, Option, none, some, Bool, true, not, ◌&&◌,
  Bool-cases, inl, inr,
}
use esp32_s31_linux.Pins.{Regs, field, put_field, gpio_in_sel, bank}
use esp32_s31_linux.Pins.Tool.{
  Mode, alt, ip, op, no_function, mx, gpio_bit, gpio_w1, matrix_signals, pin_mode, pin_get,
  pin_set_pull, pin_set_out,
}
use esp32_s31_linux.Pins.Set.{or_else, is_op, changes, set_out, set_mode, set_pull, change}
use esp32_s31_linux.Pins.Changes.{
  inputs_loop-cong, set_out-other, set_mode-other, set_pull-other, pin_get-cong,
}
use esp32_s31_linux.Pins.Effects.{
  Shows, IsMode, mode-set, Keeps, Keeps-trans, Keeps-self, KeepsLevels, set_out-Keeps,
  set_pull-Keeps, pin_set_mode-Keeps, pin_set_mode-KeepsLevels,
}

-- What `get` shows of the pin after a `set`, against what it showed before.
pub record Shown (r r' : Regs) (pin : ℕ) (fsparam : Option Mode) (drive : Option Bool)
    (pull : Option ℕ) : Type 0 where
  pub pulled : (pin_get r' pin).pull ≡ or_else pull (pin_get r pin).pull
  pub driven : (pin_get r' pin).out ≡ or_else drive (pin_get r pin).out
  pub muxed : (mode : Mode) → fsparam ≡ some mode → Shows r pin mode → (pin_get r' pin).mode ≡ mode
  pub unmuxed : fsparam ≡ none → (pin_get r' pin).mode ≡ (pin_get r pin).mode
  pub drive_ma : (pin_get r' pin).drive_ma ≡ (pin_get r pin).drive_ma
  pub open_drain : (pin_get r' pin).open_drain ≡ (pin_get r pin).open_drain
  pub int_type : (pin_get r' pin).int_type ≡ (pin_get r pin).int_type
  pub int_lines : (pin_get r' pin).int_lines ≡ (pin_get r pin).int_lines
  pub int_pending : (pin_get r' pin).int_pending ≡ (pin_get r pin).int_pending

-- The options of one command: a0 to a4, ip, op or no; and pn, pd or pu.
abbrev pub AreOptions : Option Mode → Option ℕ → Type 0
AreOptions fsparam pull = IsMode (or_else fsparam no_function) × (or_else pull 0 < 4)

pin_mode-cong :
    (r r' : Regs) (pin : ℕ)
    → field 4096 8 (r'.iomux pin) ≡ field 4096 8 (r.iomux pin)
    → field 512 2 (r'.iomux pin) ≡ field 512 2 (r.iomux pin)
    → r'.gpio ≡ r.gpio
    → r'.bits (bank pin 0x34 0x40) (pin % 32) ≡ r.bits (bank pin 0x34 0x40) (pin % 32)
    → pin_mode r' pin ≡ pin_mode r pin
unfolding pin_mode matrix_signals gpio_bit
pin_mode-cong r r' pin f i g e =
    rw (f, i, inputs_loop-cong 256 0 r r' pin (omega arith) (λ s l. rw g refl), g, e) refl

Shows-cong :
    (r r' : Regs) (pin : ℕ) (mode : Mode)
    → ((s : ℕ) → s < 256 → r'.gpio (gpio_in_sel s) ≡ r.gpio (gpio_in_sel s))
    → Shows r pin mode
    → Shows r' pin mode
Shows-cong r r' pin (alt n) e s = s
Shows-cong r r' pin ip e s = inputs_loop-cong 256 0 r r' pin (omega arith) e ∙ s
Shows-cong r r' pin op e s = inputs_loop-cong 256 0 r r' pin (omega arith) e ∙ s
Shows-cong r r' pin no_function e s = inputs_loop-cong 256 0 r r' pin (omega arith) e ∙ s
Shows-cong r r' pin mx e s = s

pin_get-pull : (r : Regs) (pin : ℕ) → (pin_get r pin).pull ≡ field 128 4 (r.iomux pin)
unfolding pin_get
pin_get-pull r pin = omega arith

pin_get-out :
    (r r' : Regs) (pin : ℕ)
    → r'.bits (bank pin 0x04 0x10) (pin % 32) ≡ r.bits (bank pin 0x04 0x10) (pin % 32)
    → (pin_get r' pin).out ≡ (pin_get r pin).out
unfolding pin_get gpio_bit
pin_get-out r r' pin e = e

module _ (r r' : Regs) (pin : ℕ) (k : Keeps r r' pin) where
  pin_get-drive_ma : (pin_get r' pin).drive_ma ≡ (pin_get r pin).drive_ma
  unfolding pin_get
  pin_get-drive_ma = rw k.drive refl

  pin_get-open_drain : (pin_get r' pin).open_drain ≡ (pin_get r pin).open_drain
  unfolding pin_get
  pin_get-open_drain = rw k.pad refl

  pin_get-int_type : (pin_get r' pin).int_type ≡ (pin_get r pin).int_type
  unfolding pin_get
  pin_get-int_type = rw k.pad refl

  pin_get-int_lines : (pin_get r' pin).int_lines ≡ (pin_get r pin).int_lines
  unfolding pin_get
  pin_get-int_lines = rw k.pad refl

  pin_get-int_pending : (pin_get r' pin).int_pending ≡ (pin_get r pin).int_pending
  unfolding pin_get gpio_bit
  pin_get-int_pending = k.status

module _ (r : Regs) (pin : ℕ) (lt : pin < 62) where
  set_mode-Shows :
      (fsparam : Option Mode) (mode : Mode)
      → fsparam ≡ some mode
      → Shows r pin mode
      → (pin_get (set_mode r pin fsparam) pin).mode ≡ mode
  unfolding set_mode
  set_mode-Shows fsparam mode e s = rw e (mode-set r pin lt mode s)

  set_mode-none :
      (fsparam : Option Mode)
      → fsparam ≡ none
      → (pin_get (set_mode r pin fsparam) pin).mode ≡ pin_mode r pin
  unfolding set_mode pin_get
  set_mode-none fsparam e = rw e refl

  set_out-mode : (drive : Option Bool) → pin_mode (set_out r pin drive) pin ≡ pin_mode r pin
  unfolding set_out pin_set_out gpio_w1
  set_out-mode none = refl
  set_out-mode (some high) =
      pin_mode-cong r (pin_set_out r pin high) pin refl refl refl (ground arith)

  set_out-out :
      (drive : Option Bool)
      → (pin_get (set_out r pin drive) pin).out ≡ or_else drive (pin_get r pin).out
  unfolding set_out pin_set_out gpio_w1 pin_get gpio_bit
  set_out-out none = refl
  set_out-out (some high) = ground arith

  set_out-word : (drive : Option Bool) → (set_out r pin drive).iomux pin ≡ r.iomux pin
  unfolding set_out pin_set_out gpio_w1
  set_out-word none = refl
  set_out-word (some high) = refl

  set_mode-Keeps :
      (fsparam : Option Mode)
      → IsMode (or_else fsparam no_function)
      → Keeps r (set_mode r pin fsparam) pin × KeepsLevels r (set_mode r pin fsparam) pin
  unfolding set_mode
  set_mode-Keeps none m = (Keeps-self r pin lt, record { pulls = refl; out = refl })
  set_mode-Keeps (some mode) m =
      (pin_set_mode-Keeps r pin lt mode m, pin_set_mode-KeepsLevels r pin lt mode m)

  set_pull-word :
      (pull : Option ℕ)
      → or_else pull 0 < 4
      → field 128 4 ((set_pull r pin pull).iomux pin) ≡ or_else pull (field 128 4 (r.iomux pin))
  unfolding set_pull pin_set_pull
  set_pull-word none l = refl
  set_pull-word (some pull) l =
      let f : (field 128 4 (put_field 128 4 pull (r.iomux pin)) ≡ pull) = omega arith in
      ground (arith, f)

  set_pull-mode :
      (pull : Option ℕ) → or_else pull 0 < 4 → pin_mode (set_pull r pin pull) pin ≡ pin_mode r pin
  unfolding set_pull pin_set_pull
  set_pull-mode none l = refl
  set_pull-mode (some pull) l =
      let w = r.iomux pin in
      let f : (field 4096 8 (put_field 128 4 pull w) ≡ field 4096 8 w) = omega arith in
      let g : (field 512 2 (put_field 128 4 pull w) ≡ field 512 2 w) = omega arith in
      pin_mode-cong r (pin_set_pull r pin pull) pin (ground (arith, f)) (ground (arith, g)) refl
        refl

  set_pull-bits : (pull : Option ℕ) → (set_pull r pin pull).bits ≡ r.bits
  unfolding set_pull pin_set_pull
  set_pull-bits none = refl
  set_pull-bits (some pull) = refl

module _ (r : Regs) (pin : ℕ) (lt : pin < 62) (q : ℕ) (q62 : q < 62) (ne : q ≢ pin) where
  set_out-get : (drive : Option Bool) → pin_get (set_out r pin drive) q ≡ pin_get r q
  unfolding set_out
  set_out-get none = refl
  set_out-get (some high) = pin_get-cong r _ q (set_out-other r pin q lt q62 ne high)

  set_mode-get : (fsparam : Option Mode) → pin_get (set_mode r pin fsparam) q ≡ pin_get r q
  unfolding set_mode
  set_mode-get none = refl
  set_mode-get (some mode) = pin_get-cong r _ q (set_mode-other r pin q lt q62 ne mode)

  set_pull-get : (pull : Option ℕ) → pin_get (set_pull r pin pull) q ≡ pin_get r q
  unfolding set_pull
  set_pull-get none = refl
  set_pull-get (some pull) = pin_get-cong r _ q (set_pull-other r pin q lt q62 ne pull)

module _ (r : Regs) (pin : ℕ) (lt : pin < 62) where
  applied : Option Mode → Option Bool → Option ℕ → Regs
  applied fsparam drive pull = set_pull (set_mode (set_out r pin drive) pin fsparam) pin pull

  change-applied :
      (fsparam : Option Mode) (drive : Option Bool) (pull : Option ℕ) {r' : Regs}
      → change r pin fsparam drive pull ≡ (true, r')
      → r' ≡ applied fsparam drive pull
  unfolding change applied
  change-applied fsparam drive pull h =
      elim (Bool-cases (changes drive && not (is_op (or_else fsparam (pin_get r pin).mode)))) [
        | inl stop ↦ absurd (let e = rw stop at h in cc)
        | inr go ↦ let e = rw go at h in sym (ap (λ (t : Bool × Regs). t.1) e)
      ]

  module _ (fsparam : Option Mode) (drive : Option Bool) (pull : Option ℕ)
      (options : AreOptions fsparam pull) where
    applied-Keeps : Keeps r (applied fsparam drive pull) pin
    unfolding applied
    applied-Keeps = Keeps-trans r _ _ pin (set_out-Keeps r pin lt drive) (
        Keeps-trans _ _ _ pin (set_mode-Keeps (set_out r pin drive) pin lt fsparam options.0).0
          (set_pull-Keeps (set_mode (set_out r pin drive) pin fsparam) pin lt pull options.1))

    applied-Shown : Shown r (applied fsparam drive pull) pin fsparam drive pull
    unfolding applied pin_get
    applied-Shown =
        let r1 = set_out r pin drive in
        let r2 = set_mode r1 pin fsparam in
        let levels = (set_mode-Keeps r1 pin lt fsparam options.0).1 in
        let keeps = applied-Keeps in
        record {
          pulled =
              pin_get-pull (set_pull r2 pin pull) pin
              ∙ set_pull-word r2 pin lt pull options.1
              ∙ ap (or_else pull) (
                  levels.pulls
                  ∙ ap (field 128 4) (set_out-word r pin lt drive)
                  ∙ sym (pin_get-pull r pin));
          driven =
              pin_get-out r2 _ pin (
                ap (λ (b : ℕ → ℕ → Bool). b (bank pin 0x04 0x10) (pin % 32))
                  (set_pull-bits r2 pin lt pull))
              ∙ pin_get-out r1 r2 pin levels.out
              ∙ set_out-out r pin lt drive;
          muxed = λ mode e s.
              set_pull-mode r2 pin lt pull options.1
              ∙ set_mode-Shows r1 pin lt fsparam mode e
                  (Shows-cong r r1 pin mode (set_out-Keeps r pin lt drive).in_sel s);
          unmuxed = λ e.
              set_pull-mode r2 pin lt pull options.1
              ∙ set_mode-none r1 pin lt fsparam e
              ∙ set_out-mode r pin lt drive;
          drive_ma = pin_get-drive_ma r _ pin keeps;
          open_drain = pin_get-open_drain r _ pin keeps;
          int_type = pin_get-int_type r _ pin keeps;
          int_lines = pin_get-int_lines r _ pin keeps;
          int_pending = pin_get-int_pending r _ pin keeps;
        }

  applied-other :
      (fsparam : Option Mode) (drive : Option Bool) (pull : Option ℕ) (q : ℕ)
      → q < 62
      → q ≢ pin
      → pin_get (applied fsparam drive pull) q ≡ pin_get r q
  unfolding applied
  applied-other fsparam drive pull q q62 ne =
      set_pull-get _ pin lt q q62 ne pull
      ∙ set_mode-get _ pin lt q q62 ne fsparam
      ∙ set_out-get r pin lt q q62 ne drive

-- A `set` that goes through, of a pin on the chip, is what `get` shows of the pin: the pull and the
-- output level that were asked for, else those that were there; the mode, where it can be shown,
-- else, without a mode, the one that was there. It never changes the drive strength, the open
-- drain, or the interrupt of the pin. Of every other pin `get` shows what it showed.
pub change-Shown :
    (r : Regs) (pin : ℕ) (fsparam : Option Mode) (drive : Option Bool) (pull : Option ℕ) {r' : Regs}
    → pin < 62
    → AreOptions fsparam pull
    → change r pin fsparam drive pull ≡ (true, r')
    → Shown r r' pin fsparam drive pull × ((q : ℕ) → q < 62 → q ≢ pin → pin_get r' q ≡ pin_get r q)
change-Shown r pin fsparam drive pull lt options h =
    rw (change-applied r pin lt fsparam drive pull h) (
      applied-Shown r pin lt fsparam drive pull options,
      λ q q62 ne. applied-other r pin lt fsparam drive pull q q62 ne,
    )
