-- ===== src/Pins/Irq.antt =====
-- linux/drivers/pinctrl/pinctrl-esp32s31.c: the interrupts of the GPIOs and /dev/esp32s31-gpiomem.
-- The calls of the GPIO and interrupt core around a step are left out; the handler's result is the
-- list of interrupts that it hands to the core.
use esp32_s31_linux.Common.{
  ℕ, zero, suc, ◌+◌, ◌*◌, ◌/◌, ◌%◌, ◌^◌, List, [], ◌∷◌, Option, none, some, Bool, not, ◌||◌, leb,
  ◌==◌, if◌then◌else◌, get_or,
}
use esp32_s31_linux.Pins.{Regs, put_field, gpio_pin, write_word, bank}
use esp32_s31_linux.Pins.Driver.{write_w1}

-- `ESP32S31_PIN_INT_ENA(line)`, as the value of the bit, and the line of a pin's bank.
abbrev pub irq_ena : ℕ → ℕ
irq_ena hwirq = if hwirq / 32 == 0 then 2 ^ 15 else 2 ^ 16

unfoldable pub irq_ack : Regs → ℕ → Regs
irq_ack r hwirq = write_w1 r (bank hwirq 0x7c 0x88) (hwirq % 32)

unfoldable pub irq_mask : Regs → ℕ → Regs
irq_mask r hwirq =
    write_word r (gpio_pin hwirq) (put_field (irq_ena hwirq) 2 0 (r.gpio (gpio_pin hwirq)))

unfoldable pub irq_unmask : Regs → ℕ → Regs
irq_unmask r hwirq =
    write_word r (gpio_pin hwirq) (put_field (irq_ena hwirq) 2 1 (r.gpio (gpio_pin hwirq)))

-- `int_type`, by the sense bits of Linux: rising 1, falling 2, both 3, high 4, low 8.
abbrev pub int_type : List ℕ
int_type = 0 ∷ 1 ∷ 2 ∷ 3 ∷ 5 ∷ 0 ∷ 0 ∷ 0 ∷ 4 ∷ []

-- `IRQ_TYPE_SENSE_MASK` is the low four bits. `none` is EINVAL.
unfoldable pub irq_set_type : Regs → ℕ → ℕ → Option Regs
irq_set_type r hwirq type =
    let sense = type % 16 in
    let typed =
      write_word r (gpio_pin hwirq)
        (put_field 128 8 (get_or int_type sense 0) (r.gpio (gpio_pin hwirq))) in
    if leb 9 sense || get_or int_type sense 0 == 0 then none else some (irq_ack typed hwirq)

-- The pending bits `bit`, ..., of the line of a bank, lowest first.
unfoldable pub pending_loop : ℕ → ℕ → (ℕ → Bool) → ℕ → List ℕ
pending_loop zero bit pending number = []
pending_loop (suc n) bit pending number =
    let rest = pending_loop n (bit + 1) pending number in
    if pending bit then (number * 32 + bit) ∷ rest else rest

-- `ESP32S31_GPIO_INT(line, bank)`, with lines 2 and 3 for the banks 0 and 1.
unfoldable pub gpio_irq_handler : Regs → ℕ → List ℕ
gpio_irq_handler r number =
    pending_loop 32 0 (r.bits (0xa4 + number * 0x10 + (2 + number) * 4)) number

-- The loop of `esp32s31_irq_init`: no pin has an enabled line of Linux.
unfoldable pub init_loop : ℕ → ℕ → Regs → Regs
init_loop zero pin r = r
init_loop (suc n) pin r =
    init_loop n (pin + 1)
      (write_word r (gpio_pin pin) (put_field (2 ^ 15) 4 0 (r.gpio (gpio_pin pin))))

-- The CNNT word through the device: `none` is EINVAL.
unfoldable pub gpiomem_read : Regs → ℕ → ℕ → Option ℕ
gpiomem_read r pos len = if not (pos == 0x2000) || not (len == 4) then none else some r.cnnt

unfoldable pub gpiomem_write : Regs → ℕ → ℕ → ℕ → Option Regs
gpiomem_write r pos len val =
    if not (pos == 0x2000) || not (len == 4) then none else some (record r { cnnt = val })

-- The page that is mapped, of the two: `none` is EINVAL.
unfoldable pub gpiomem_mmap : ℕ → ℕ → ℕ → Option ℕ
gpiomem_mmap page_size pgoff len =
    if leb 2 pgoff || not (len == page_size) then none else some pgoff
