-- ===== src/Tests/Pads.antt =====
-- Runs of the pin controller and of the pin tool on the same registers.
use esp32_s31_linux.Common.{
  ℕ, zero, suc, ◌+◌, ◌<◌, ◌≡◌, ◌≢◌, refl, arith, true, false, none, some, ◌==◌,
}
use esp32_s31_linux.Pins.{Regs, nsigs, gpio_pin, write_word, write_iomux}
use esp32_s31_linux.Pins.Driver.{
  Param, drive_strength, configured, config_one, pin_config_get, gpio_request_enable,
  gpio_direction_output, gpio_get_direction, drive_field, drive_loop,
}
use esp32_s31_linux.Pins.Irq.{irq_set_type, irq_unmask, irq_ack}
use esp32_s31_linux.Pins.Tool.{ip, op, inputs_loop, pin_get}
use esp32_s31_linux.Pins.Set.{Board, set_out, set_mode, set_pull, change, do_gpio_set}
use esp32_s31_linux.Pins.Readback.{read_back, pin_config_get-config_one}
use esp32_s31_linux.Pins.Shown.{Shown, change-Shown}
use esp32_s31_linux.Pins.Guard.{unmasked, do_gpio_set-IsGuarded}
use esp32_s31_linux.Pins.Lines.{gpio_direction_output-shown}

-- After a reset: every pad is function 0 with 20 mA, every signal comes from the IO MUX.
abbrev reset : Regs
reset = record { iomux = λ x. 0x800; gpio = λ o. 0x80; bits = λ o k. false; cnnt = 0 }

abbrev board : Board
board = record { reserved = λ k. false; used = λ k. k == 47; have_lines = true }

-- 40 mA for GPIO47.
abbrev strong : Regs
strong = write_iomux reset 47 0xc00

strong-configured : config_one reset 47 drive_strength 40 ≡ configured strong
unfolding config_one drive_field drive_loop
strong-configured = refl

pin_config_get-config_one_example :
    (pin_config_get strong 47 drive_strength ≡ read_back drive_strength 40)
    × ((q : ℕ) (param' : Param)
        → q ≢ 47
        → pin_config_get strong q param' ≡ pin_config_get reset q param')
pin_config_get-config_one_example =
    pin_config_get-config_one reset 47 drive_strength 40 strong-configured

-- `pinctrl set 47 op pu dh`.
abbrev applied : Regs
applied = set_pull (set_mode (set_out reset 47 (some true)) 47 (some op)) 47 (some 2)

change_op : change reset 47 (some op) (some true) (some 2) ≡ (true, applied)
unfolding change
change_op = refl

change-Shown_example :
    Shown reset applied 47 (some op) (some true) (some 2)
    × ((q : ℕ) → q < 62 → q ≢ 47 → pin_get applied q ≡ pin_get reset q)
change-Shown_example =
    change-Shown reset 47 (some op) (some true) (some 2) (omega arith) (tt, omega arith) change_op

do_gpio_set-IsGuarded_example :
    do_gpio_set board true (irq_unmask reset 47) (some 47) (some ip) none none
    ≡ (false, irq_unmask reset 47)
do_gpio_set-IsGuarded_example =
    do_gpio_set-IsGuarded board true (irq_unmask reset 47) 47 (some ip) none none (omega arith)
      (unmasked reset refl)

-- A falling edge for GPIO47.
abbrev falling : Regs
falling = irq_ack (write_word reset (gpio_pin 47) 0x100) 47

falling-set : irq_set_type reset 47 2 ≡ some falling
unfolding irq_set_type
falling-set = refl

no_inputs : (n s : ℕ) → inputs_loop n s reset 47 ≡ false
unfolding inputs_loop
no_inputs zero s = refl
no_inputs (suc n) s = no_inputs n (s + 1)

gpio_direction_output-shown_example :
    let requested = gpio_request_enable reset 47 in
    let driven = gpio_direction_output requested 47 true in
    (gpio_get_direction requested 47 ≡ false)
    × ((pin_get requested 47).mode ≡ ip)
    × (gpio_get_direction driven 47 ≡ true)
    × ((pin_get driven 47).mode ≡ op)
    × ((pin_get driven 47).out ≡ true)
gpio_direction_output-shown_example =
    gpio_direction_output-shown reset 47 true (omega arith) (no_inputs nsigs 0)
