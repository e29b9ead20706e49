-- ===== src/Tests/Inputs.antt =====
-- Runs of the interrupt controller.
use esp32_s31_linux.Common.{ℕ, ◌≤◌, ◌<◌, ◌≡◌, refl, [], ◌∷◌, some}
use esp32_s31_linux.Clic.{Clic, reg_at, parse_fwspec, alloc_one, domain_alloc, init_cpu}
use esp32_s31_linux.Clic.Laws.{IsOff, init_cpu-IsOff, Routed, domain_alloc-Routed}

abbrev ones : Clic
ones = record { regs = λ a. 0xff; matrix = λ s. 0xffff; sintthresh = 0xff }

init_cpu-IsOff_example :
    ((j : ℕ) → 16 ≤ j → j < 48 → IsOff (init_cpu ones) j)
    × ((j k : ℕ)
        → (j < 48 → j < 16)
        → k < 4
        → (init_cpu ones).regs (reg_at j k) ≡ ones.regs (reg_at j k))
init_cpu-IsOff_example = init_cpu-IsOff ones

-- UART0: input 32, source 9, a high level.
abbrev uart : Clic
uart = alloc_one ones 32 9 4

uart-alloc : domain_alloc ones (32 ∷ 9 ∷ 4 ∷ []) ≡ some uart
unfolding domain_alloc parse_fwspec
uart-alloc = refl

domain_alloc-Routed_example : Routed ones uart 32 9 4
domain_alloc-Routed_example = domain_alloc-Routed ones 32 9 4 uart-alloc
