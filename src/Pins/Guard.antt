-- ===== src/Pins/Guard.antt =====
-- The pin controller of Linux and the pin tool on the same registers: interrupts of pins.
use esp32_s31_linux.Common.{
  ℕ, ◌/◌, ◌%◌, ◌<◌, ◌≡◌, ◌≢◌, refl, sym, arith, Option, none, some, Bool, true, false, ◌||◌, leb,
  ◌==◌, get_or, Bool-cases, inl, inr, Option-cases,
}
use esp32_s31_linux.Pins.{Regs, field, put_field, gpio_pin, write_word}
use esp32_s31_linux.Pins.Driver.{write_w1}
use esp32_s31_linux.Pins.Irq.{irq_ack, irq_unmask, irq_set_type, int_type}
use esp32_s31_linux.Pins.Tool.{Mode, gpio_bit, pin_is_flash, pin_get}
use esp32_s31_linux.Pins.Set.{Board, set_refusal, do_gpio_set}

unmasked-lines : (r : Regs) (pin : ℕ) → pin < 62 → (pin_get (irq_unmask r pin) pin).int_lines ≢ 0
unfolding pin_get irq_unmask
unmasked-lines r pin lt = elim (Bool-cases (pin / 32 == 0)) [
  | inl low ↦
      let k : (field 8192 16 (put_field 32768 2 1 (r.gpio (gpio_pin pin))) ≢ 0) =
        λ e. omega arith in
      rw low (ground (arith, k))
  | inr high ↦
      let k : (field 8192 16 (put_field 65536 2 1 (r.gpio (gpio_pin pin))) ≢ 0) =
        λ e. omega arith in
      rw high (ground (arith, k))
]

-- Why a pin must not be changed, whatever the command and with or without -f.
pub data IsGuarded (board : Board) (r : Regs) (pin : ℕ) : Type 0 where
  flash : pin_is_flash pin ≡ true → IsGuarded board r pin
  unknown : board.have_lines ≡ false → IsGuarded board r pin
  reserved : board.reserved pin ≡ true → IsGuarded board r pin
  unmasked : (r0 : Regs) → r ≡ irq_unmask r0 pin → IsGuarded board r pin

set_refusal-IsGuarded :
    (board : Board) (force_mode : Bool) (r : Regs) (pin : ℕ)
    → pin < 62
    → IsGuarded board r pin
    → set_refusal board force_mode r pin ≢ none
unfolding set_refusal
set_refusal-IsGuarded board force_mode r pin lt (flash e) h = ground arith
set_refusal-IsGuarded board force_mode r pin lt (unknown e) h = ground arith
set_refusal-IsGuarded board force_mode r pin lt (reserved e) h = ground arith
set_refusal-IsGuarded board force_mode r pin lt (unmasked r0 e) h =
    let lines : ((pin_get r pin).int_lines ≢ 0) = rw e (unmasked-lines r0 pin lt) in ground arith

-- No `set` changes a register when the pin is a flash pin, is reserved in the device tree, has an
-- interrupt that Linux has unmasked, or when the lines are not known: with any options, and with -f
-- too.
pub do_gpio_set-IsGuarded :
    (board : Board) (force_mode : Bool) (r : Regs) (pin : ℕ) (fsparam : Option Mode)
    (drive : Option Bool) (pull : Option ℕ)
    → pin < 62
    → IsGuarded board r pin
    → do_gpio_set board force_mode r (some pin) fsparam drive pull ≡ (false, r)
unfolding do_gpio_set
do_gpio_set-IsGuarded board force_mode r pin fsparam drive pull lt g =
    elim (Option-cases (set_refusal board force_mode r pin)) [
      | inl free ↦ absurd (set_refusal-IsGuarded board force_mode r pin lt g free)
      | inr (why, e) ↦ rw (e, do_gpio_set) refl
    ]

-- What the tool is to show after Linux has set the type of an interrupt.
record Typed (r r' : Regs) (pin : ℕ) (type : ℕ) : Type 0 where
  pub seen : (pin_get r' pin).int_type ≡ get_or int_type (type % 16) 0
  pub is_type : (pin_get r' pin).int_type ≢ 0
  pub not_pending : (pin_get r' pin).int_pending ≡ false
  pub same_lines : (pin_get r' pin).int_lines ≡ (pin_get r pin).int_lines
  pub same_drain : (pin_get r' pin).open_drain ≡ (pin_get r pin).open_drain
  pub same_out : (pin_get r' pin).out ≡ (pin_get r pin).out
  pub same_word : r'.iomux ≡ r.iomux

small_type : (sense : ℕ) → get_or int_type sense 0 < 8
small_type sense = ground arith

typed : Regs → ℕ → ℕ → Regs
typed r pin t =
    irq_ack (write_word r (gpio_pin pin) (put_field 128 8 t (r.gpio (gpio_pin pin)))) pin

irq_set_type-typed :
    (r : Regs) (pin type : ℕ) {r' : Regs}
    → irq_set_type r pin type ≡ some r'
    → (get_or int_type (type % 16) 0 ≢ 0) × (r' ≡ typed r pin (get_or int_type (type % 16) 0))
unfolding irq_set_type typed
irq_set_type-typed r pin type h =
    elim (Bool-cases (leb 9 (type % 16) || get_or int_type (type % 16) 0 == 0)) [
      | inl bad ↦ absurd (let e = rw bad at h in cc)
      | inr good ↦ let e = rw good at h in (ground arith, sym (cc))
    ]

typed-pad :
    (r : Regs) (pin t : ℕ)
    → (typed r pin t).gpio (gpio_pin pin) ≡ put_field 128 8 t (r.gpio (gpio_pin pin))
unfolding typed irq_ack write_w1
typed-pad r pin t = ground arith

typed-Typed :
    (r : Regs) (pin type : ℕ)
    → get_or int_type (type % 16) 0 ≢ 0
    → Typed r (typed r pin (get_or int_type (type % 16) 0)) pin type
unfolding pin_get gpio_bit
typed-Typed r pin type ne =
    let t = get_or int_type (type % 16) 0 in
    let w = r.gpio (gpio_pin pin) in
    let l8 = small_type (type % 16) in
    let f : (field 128 8 (put_field 128 8 t w) ≡ t) = omega arith in
    let g : (field 8192 16 (put_field 128 8 t w) ≡ field 8192 16 w) = omega arith in
    let h : (field 4 2 (put_field 128 8 t w) ≡ field 4 2 w) = omega arith in
    record {
      seen = rw (typed-pad r pin t) f;
      is_type = rw (typed-pad r pin t, f) ne;
      not_pending = unfold typed irq_ack write_w1 in ground arith;
      same_lines = rw (typed-pad r pin t) g;
      same_drain = rw (typed-pad r pin t, h) refl;
      same_out = unfold typed irq_ack write_w1 in ground arith;
      same_word = unfold typed irq_ack write_w1 in ground arith;
    }

-- After Linux has set the type of a pin's interrupt, the tool shows that type, and nothing pending
-- of the old one; the enabled lines, the open drain, the output level and the pin's function are
-- as before.
irq_set_type-Typed :
    (r : Regs) (pin type : ℕ) {r' : Regs} → irq_set_type r pin type ≡ some r' → Typed r r' pin type
irq_set_type-Typed r pin type h =
    let k = irq_set_type-typed r pin type h in rw k.1 (typed-Typed r pin type k.0)
