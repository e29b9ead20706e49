-- ===== src/Clic/Laws.antt =====
-- What the set-up of the controller, and of one interrupt, leaves in the registers.
use esp32_s31_linux.Common.{
  ℕ, zero, suc, ◌+◌, ◌/◌, ◌%◌, ◌<◌, ◌≤◌, ◌≡◌, ◌≢◌, refl, ◌∙◌, sym, arith, [], ◌∷◌, some, leb, ◌==◌,
  Bool-cases, inl, inr,
}
use esp32_s31_linux.Clic.{
  Clic, reg_at, clic_writeb, set_type, intmatrix_route, parse_fwspec, alloc_one, domain_alloc,
  init_one, init_loop, init_cpu,
}

-- The four bytes of an input that is off: a level input of S-mode with the high priority.
pub record IsOff (clic : Clic) (i : ℕ) : Type 0 where
  pub ip : clic.regs (reg_at i 0) ≡ 0
  pub ie : clic.regs (reg_at i 1) ≡ 0
  pub attr : clic.regs (reg_at i 2) ≡ 0x40
  pub ctl : clic.regs (reg_at i 3) ≡ 0xe0

init_one-IsOff : (clic : Clic) (i : ℕ) → IsOff (init_one clic i) i
unfolding init_one clic_writeb
init_one-IsOff clic i = record {
  ip = ground arith;
  ie = ground arith;
  attr = ground arith;
  ctl = ground arith;
}

init_one-other :
    (clic : Clic) (i j k : ℕ)
    → j ≢ i
    → k < 4
    → (init_one clic i).regs (reg_at j k) ≡ clic.regs (reg_at j k)
unfolding init_one clic_writeb
init_one-other clic i j k ne lt = ground arith

init_loop-outside :
    (n i : ℕ) (clic : Clic) (j k : ℕ)
    → (j < i + n → j < i)
    → k < 4
    → (init_loop n i clic).regs (reg_at j k) ≡ clic.regs (reg_at j k)
unfolding init_loop
init_loop-outside zero i clic j k out lt = refl
init_loop-outside (suc n) i clic j k out lt =
    init_loop-outside n (i + 1) (init_one clic i) j k (λ h. omega (arith, out (omega arith))) lt
    ∙ init_one-other clic i j k (λ e. omega (arith, out (omega (arith, e)))) lt

init_loop-IsOff : (n i : ℕ) (clic : Clic) (j : ℕ) → i ≤ j → j < i + n → IsOff (init_loop n i clic) j
unfolding init_loop
init_loop-IsOff zero i clic j le lt = absurd (omega arith)
init_loop-IsOff (suc n) i clic j le lt = elim (Bool-cases (j == i)) [
  | inl same ↦
      let e : (j ≡ i) = ground arith in
      let one = init_one-IsOff clic i in
      let kept = λ (k : ℕ) (l : k < 4).
        init_loop-outside n (i + 1) (init_one clic i) i k (λ h. omega arith) l in
      rw e (record {
        ip = kept 0 (omega arith) ∙ one.ip;
        ie = kept 1 (omega arith) ∙ one.ie;
        attr = kept 2 (omega arith) ∙ one.attr;
        ctl = kept 3 (omega arith) ∙ one.ctl;
      })
  | inr other ↦
      let ne : (j ≢ i) = λ e. ground arith in
      init_loop-IsOff n (i + 1) (init_one clic i) j (omega (arith, ne)) (omega arith)
]

-- After the set-up of a core, whatever its registers held, every external input is off, not
-- pending, and a level input of S-mode with the high priority; no byte of another input is changed,
-- the local ones, which OpenSBI controls, among them.
pub init_cpu-IsOff :
    (clic : Clic)
    → ((j : ℕ) → 16 ≤ j → j < 48 → IsOff (init_cpu clic) j)
      × ((j k : ℕ)
          → (j < 48 → j < 16)
          → k < 4
          → (init_cpu clic).regs (reg_at j k) ≡ clic.regs (reg_at j k))
unfolding init_cpu
init_cpu-IsOff clic = (
  λ j low high. init_loop-IsOff 32 16 _ j low high,
  λ j k out lt. init_loop-outside 32 16 _ j k out lt,
)

-- What an interrupt of the device tree leaves in the registers.
pub record Routed (clic clic' : Clic) (hwirq source type : ℕ) : Type 0 where
  pub input : hwirq < 48
  pub map : source < 512 → clic'.matrix source % 64 ≡ hwirq
  pub level : source < 512 → clic'.matrix source / 256 % 4 ≡ 1
  pub middle : source < 512 → clic'.matrix source / 64 % 4 ≡ clic.matrix source / 64 % 4
  pub rest : source < 512 → clic'.matrix source / 1024 ≡ clic.matrix source / 1024
  pub sources : (s : ℕ) → s ≢ source → clic'.matrix s ≡ clic.matrix s
  pub outside : 512 ≤ source → clic'.matrix source ≡ clic.matrix source
  pub ctl : clic'.regs (reg_at hwirq 3) ≡ 0xe0
  pub attr : type / 4 % 4 ≢ 0 → clic'.regs (reg_at hwirq 2) ≡ 0x40
  pub inputs : (j k : ℕ) → j ≢ hwirq → k < 4 → clic'.regs (reg_at j k) ≡ clic.regs (reg_at j k)
  pub enable : clic'.regs (reg_at hwirq 1) ≡ clic.regs (reg_at hwirq 1)

alloc_one-Routed :
    (clic : Clic) (hwirq source type : ℕ)
    → hwirq < 48
    → type < 16
    → Routed clic (alloc_one clic hwirq source type) hwirq source type
unfolding alloc_one set_type clic_writeb intmatrix_route
alloc_one-Routed clic hwirq source type lt t16 = record {
  input = lt;
  map = λ s. ground arith;
  level = λ s. ground arith;
  middle = λ s. ground arith;
  rest = λ s. ground arith;
  sources = λ s ne. ground arith;
  outside = λ s. ground arith;
  ctl = ground arith;
  attr = λ t. ground arith;
  inputs = λ j k ne l. ground arith;
  enable = ground arith;
}

-- An interrupt that the driver accepts, cells `hwirq`, `source` and `type`, is below 48. Its source
-- goes to that input, for S-mode, with the other bits of the matrix word as before; a source beyond
-- the matrix changes no word of it. The input has the high priority, a level type makes it a level
-- input of S-mode, and it is enabled as before. No other source and no other input is changed.
pub domain_alloc-Routed :
    (clic : Clic) (hwirq source type : ℕ) {clic' : Clic}
    → domain_alloc clic (hwirq ∷ source ∷ type ∷ []) ≡ some clic'
    → Routed clic clic' hwirq source (type % 16)
unfolding domain_alloc parse_fwspec
domain_alloc-Routed clic hwirq source type {clic'} h = elim (Bool-cases (leb 48 hwirq)) [
  | inl high ↦ absurd (let e = rw high at h in cc)
  | inr low ↦
      let e = rw low at h in
      let f : (clic' ≡ alloc_one clic hwirq source (type % 16)) = sym (cc) in
      rw f (alloc_one-Routed clic hwirq source (type % 16) (ground arith) (omega arith))
]
