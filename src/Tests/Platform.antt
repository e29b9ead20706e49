-- ===== src/Tests/Platform.antt =====
-- Runs of the OpenSBI platform.
use esp32_s31_linux.Common.{ℕ, ◌+◌, ◌≡◌, refl, arith, some, min, ◌⊎◌}
use esp32_s31_linux.Sbi.{
  timer_value, MachineTimer, timer_event_start, vendor_ext, cache_sync, success, invalid,
  cache_op_allowed, passes,
}
use esp32_s31_linux.Sbi.Timer.{IsCounter, timer_value-now, Programmed, timer_event_start-Programmed}
use esp32_s31_linux.Sbi.Calls.{Governed, vendor_ext-Governed}

-- The low word carries between the first read and the third.
abbrev carrying : ℕ → ℕ
carrying i = 0xfffffffe + min i 5

carrying-IsCounter : IsCounter carrying
carrying-IsCounter = record { grows = λ i j le. ground arith; word = λ i. ground arith }

timer_value-now_example :
    (timer_value carrying 2 0 ≡ some (carrying 1)) ⊎ (timer_value carrying 2 0 ≡ some (carrying 4))
timer_value-now_example = timer_value-now carrying carrying-IsCounter 0 (omega arith)

second_round : timer_value carrying 2 0 ≡ some 0x100000002
unfolding timer_value
second_round = refl

abbrev old_event : MachineTimer
old_event = record { ip = 1; cmp_hi = 0; cmp_lo = 0x1000 }

timer_event_start-Programmed_example :
    Programmed 0x2000 0x100000010 (timer_event_start old_event 0x100000010)
timer_event_start-Programmed_example =
    timer_event_start-Programmed old_event 0x2000 0x100000010 (omega arith) (omega arith)

-- An invalidate of two lines below OpenSBI.
vendor_ext-Governed_example : Governed 1 1 0x50efff80 0x80 (vendor_ext 1 1 0x50efff80 0x80)
vendor_ext-Governed_example =
    vendor_ext-Governed 1 1 0x50efff80 0x80 (omega arith) (omega arith) (omega arith)

below_served : vendor_ext 1 1 0x50efff80 0x80 ≡ success (cache_sync 16 1 0x50efff80 0x80)
unfolding vendor_ext cache_op_allowed cache_sync passes
below_served = refl

one_line_more : vendor_ext 1 1 0x50efff80 0xc0 ≡ invalid
unfolding vendor_ext cache_op_allowed
one_line_more = refl

wrapped : vendor_ext 1 1 0x50000000 0xf0000000 ≡ invalid
unfolding vendor_ext cache_op_allowed
wrapped = refl
