-- ===== src/Pins/Readback.antt =====
-- What the pin controller reads back after it has configured a pin.
use esp32_s31_linux.Common.{
  ℕ, ◌<◌, ◌≡◌, ◌≢◌, refl, arith, [], ◌∷◌, some, ◌==◌, if◌then◌else◌, get_or, Option-cases, inl, inr,
}
use esp32_s31_linux.Pins.{Regs, field, put_field, gpio_pin, write_word, write_iomux}
use esp32_s31_linux.Pins.Driver.{
  Param, bias_disable, bias_pull_up, bias_pull_down, input_enable, open_drain, push_pull,
  drive_strength, other, Config, config, configured, drive_field, drive_loop, pin_config_get,
  config_one,
}

-- What is read back of a parameter: the argument of a strength, 1 for what is on, and an error for
-- an input that was turned off.
abbrev pub read_back : Param → ℕ → Config
read_back input_enable arg = if arg == 0 then Config.einval else config 1
read_back drive_strength arg = config arg
read_back (other n) arg = Config.enotsupp
read_back _ arg = config 1

drive_field-inverse :
    (ma : ℕ) {drv : ℕ}
    → drive_field ma ≡ some drv
    → (drv < 4) × (get_or (5 ∷ 10 ∷ 20 ∷ 40 ∷ []) drv 0 ≡ ma)
unfolding drive_field drive_loop
drive_field-inverse ma h = ground arith

iomux_same : (r : Regs) (pin v : ℕ) → (write_iomux r pin v).iomux pin ≡ v
iomux_same r pin v = ground arith

word_same : (r : Regs) (o v : ℕ) → (write_word r o v).gpio o ≡ v
word_same r o v = ground arith

config_one-read_back :
    (r : Regs) (pin : ℕ) (param : Param) (arg : ℕ) {r' : Regs}
    → config_one r pin param arg ≡ configured r'
    → pin_config_get r' pin param ≡ read_back param arg
unfolding config_one pin_config_get
config_one-read_back r pin bias_disable arg h = ground arith
config_one-read_back r pin bias_pull_up arg h = ground arith
config_one-read_back r pin bias_pull_down arg h = ground arith
config_one-read_back r pin input_enable arg h = ground arith
config_one-read_back r pin open_drain arg h = ground arith
config_one-read_back r pin push_pull arg h = ground arith
config_one-read_back r pin drive_strength arg h = elim (Option-cases (drive_field arg)) [
  | inl bad ↦ absurd (let e = rw bad at h in cc)
  | inr (drv, e) ↦
      let (lt, ma) = drive_field-inverse arg e in
      let k : (field 1024 4 (put_field 1024 4 drv (r.iomux pin)) ≡ drv) = omega arith in
      ground (arith, k, ma, e, h)
]
config_one-read_back r pin (other n) arg h = cc

config_one-others :
    (r : Regs) (pin : ℕ) (param : Param) (arg : ℕ) {r' : Regs} (q : ℕ)
    → q ≢ pin
    → config_one r pin param arg ≡ configured r'
    → (r'.iomux q ≡ r.iomux q) × (r'.gpio (gpio_pin q) ≡ r.gpio (gpio_pin q))
unfolding config_one
config_one-others r pin bias_disable arg q ne h = (ground arith, ground arith)
config_one-others r pin bias_pull_up arg q ne h = (ground arith, ground arith)
config_one-others r pin bias_pull_down arg q ne h = (ground arith, ground arith)
config_one-others r pin input_enable arg q ne h = (ground arith, ground arith)
config_one-others r pin open_drain arg q ne h = (ground arith, ground arith)
config_one-others r pin push_pull arg q ne h = (ground arith, ground arith)
config_one-others r pin drive_strength arg q ne h = elim (Option-cases (drive_field arg)) [
  | inl bad ↦ absurd (let e = rw bad at h in cc)
  | inr (drv, e) ↦ (ground (arith, e, h), ground (arith, e, h))
]
config_one-others r pin (other n) arg q ne h = cc

pin_config_get-cong :
    (r r' : Regs) (q : ℕ) (param : Param)
    → r'.iomux q ≡ r.iomux q
    → r'.gpio (gpio_pin q) ≡ r.gpio (gpio_pin q)
    → pin_config_get r' q param ≡ pin_config_get r q param
unfolding pin_config_get
pin_config_get-cong r r' q bias_disable e f = rw e refl
pin_config_get-cong r r' q bias_pull_up e f = rw e refl
pin_config_get-cong r r' q bias_pull_down e f = rw e refl
pin_config_get-cong r r' q input_enable e f = rw e refl
pin_config_get-cong r r' q open_drain e f = rw f refl
pin_config_get-cong r r' q push_pull e f = rw f refl
pin_config_get-cong r r' q drive_strength e f = rw e refl
pin_config_get-cong r r' q (other n) e f = refl

-- A configuration that the driver accepts is what it reads back of that pin: the strength in mA, 1
-- for what is on, and an error for an input that was turned off. Every parameter of every other
-- pin reads back as before.
pub pin_config_get-config_one :
    (r : Regs) (pin : ℕ) (param : Param) (arg : ℕ) {r' : Regs}
    → config_one r pin param arg ≡ configured r'
    → (pin_config_get r' pin param ≡ read_back param arg)
      × ((q : ℕ) (param' : Param)
          → q ≢ pin
          → pin_config_get r' q param' ≡ pin_config_get r q param')
pin_config_get-config_one r pin param arg {r'} h = (
  config_one-read_back r pin param arg h,
  λ q param' ne.
      let same = config_one-others r pin param arg q ne h in
      pin_config_get-cong r r' q param' same.0 same.1,
)
