-- ===== src/Clic.antt =====
-- linux/drivers/irqchip/irq-esp32s31-clic.c: the interrupt controller of a core. `regs` are the
-- bytes of the window of the inputs, four for each, `matrix` the words of the Interrupt Matrix by
-- source. Calls of the interrupt core are the result of a step.
pub mod Laws
use esp32_s31_linux.Common.{
  ℕ, zero, suc, ◌+◌, ◌-◌, ◌*◌, ◌/◌, ◌%◌, ◌^◌, List, [], ◌∷◌, Option, none, some, Bool, true, false,
  not, ◌&&◌, ◌||◌, ltb, leb, ◌==◌, if◌then◌else◌, Mem, update,
}

pub record Clic : Type 0 where
  pub regs : Mem
  pub matrix : Mem
  pub sintthresh : ℕ

abbrev pub int_ip : ℕ
int_ip = 0

abbrev pub int_ie : ℕ
int_ie = 1

abbrev pub int_attr : ℕ
int_attr = 2

abbrev pub int_ctl : ℕ
int_ctl = 3

abbrev pub ext_min_id : ℕ
ext_min_id = 16

abbrev pub nr_irqs : ℕ
nr_irqs = 48

abbrev pub irq_work_id : ℕ
irq_work_id = 16

-- One level bit over two priority bits, in the high bits of a byte.
abbrev pub clicctl_make : ℕ → ℕ → ℕ
clicctl_make level prio = level * 2 ^ 7 + prio * 2 ^ 5

abbrev pub max_priority : ℕ
max_priority = 3

-- CLIC_ATTR_MODE_S with a level or an edge trigger.
abbrev pub attr_level : ℕ
attr_level = 0x40

abbrev pub attr_edge : ℕ
attr_edge = 0x42

abbrev pub reg_at : ℕ → ℕ → ℕ
reg_at irq_id byte_off = irq_id * 4 + byte_off

unfoldable pub clic_readb : Clic → ℕ → ℕ → ℕ
clic_readb clic irq_id byte_off = clic.regs (reg_at irq_id byte_off)

unfoldable pub clic_writeb : Clic → ℕ → ℕ → ℕ → Clic
clic_writeb clic irq_id byte_off val = record clic {
  regs = update clic.regs (reg_at irq_id byte_off) val;
}

unfoldable pub irq_mask : Clic → ℕ → Clic
irq_mask clic hwirq = clic_writeb clic hwirq int_ie 0

unfoldable pub irq_unmask : Clic → ℕ → Clic
irq_unmask clic hwirq = clic_writeb clic hwirq int_ie 1

-- `IRQ_TYPE_LEVEL_MASK` of Linux is bits 2 and 3 of the type. `none` is EINVAL.
unfoldable pub set_type : Clic → ℕ → ℕ → Option Clic
set_type clic hwirq flow_type =
    if flow_type / 4 % 4 == 0 then none else some (clic_writeb clic hwirq int_attr attr_level)

-- Before the probe there is no controller, and nothing is raised.
unfoldable pub irq_work_raise : Option Clic → Option Clic
irq_work_raise none = none
irq_work_raise (some clic) = some (clic_writeb clic irq_work_id int_ip 1)

-- The pending bit is cleared before `run`, the work that may raise it again.
unfoldable pub irq_work_interrupt : (Clic → Clic) → Clic → Clic
irq_work_interrupt run clic = run (clic_writeb clic irq_work_id int_ip 0)

unfoldable pub irq_work_set_up : Clic → Clic
irq_work_set_up clic =
    clic_writeb (clic_writeb (clic_writeb clic irq_work_id int_ip 0) irq_work_id int_attr attr_edge)
      irq_work_id int_ctl (clicctl_make 1 max_priority)

-- With the mapping of `irq_create_mapping`, zero for none, and the result of `request_irq`: the
-- errno, zero for success, and the controller. 12 is ENOMEM.
unfoldable pub irq_work_init : ℕ → ℕ → Clic → ℕ × Clic
irq_work_init virq requested clic =
    let ready = irq_work_set_up clic in
    if virq == 0
    then (12, ready)
    else if not (requested == 0)
    then (requested, ready)
    else (0, clic_writeb ready irq_work_id int_ip 1)

-- The map is bits 5 to 0, the pass level bits 9 and 8, of which 1 is S-mode.
unfoldable pub intmatrix_route : Clic → ℕ → ℕ → Clic
intmatrix_route clic source hwirq =
    let val = clic.matrix source in
    let cleared = val - val % 64 - val / 256 % 4 * 256 in
    if leb 512 source
    then clic
    else record clic { matrix = update clic.matrix source (cleared + hwirq % 64 + 256) }

-- `struct irq_fwspec`: an interrupt of the device tree as a list of cells. `IRQ_TYPE_SENSE_MASK` is
-- the low four bits.
unfoldable pub parse_fwspec : List ℕ → Option (ℕ × ℕ × ℕ)
parse_fwspec (hwirq ∷ source ∷ type ∷ []) = some (hwirq, source, type % 16)
parse_fwspec _ = none

unfoldable pub domain_translate : List ℕ → Option (ℕ × ℕ)
domain_translate fwspec = elim (parse_fwspec fwspec) [
  | none ↦ none
  | some (hwirq, source, type) ↦ some (hwirq, type)
]

abbrev pub or_same : Clic → Option Clic → Clic
or_same clic none = clic
or_same clic (some clic') = clic'

unfoldable pub alloc_one : Clic → ℕ → ℕ → ℕ → Clic
alloc_one clic hwirq source type =
    let routed =
      clic_writeb (intmatrix_route clic source hwirq) hwirq int_ctl (clicctl_make 1 max_priority) in
    if type == 0 then routed else or_same routed (set_type routed hwirq type)

-- `none` is EINVAL.
unfoldable pub domain_alloc : Clic → List ℕ → Option Clic
domain_alloc clic fwspec = elim (parse_fwspec fwspec) [
  | none ↦ none
  | some (hwirq, source, type) ↦
      if leb nr_irqs hwirq then none else some (alloc_one clic hwirq source type)
]

-- What the handler hands on: a local cause to the handler before it, with the cause that it reads,
-- an external interrupt to its domain, or nothing.
pub data Action : Type 0 where
  no_controller : Action
  local : (cause : ℕ) → Action
  spurious : Action
  external : (irq_id : ℕ) → Action

-- `CAUSE_IRQ_FLAG` is the high bit of a cause; bit 1 of the attributes is an edge trigger.
unfoldable pub handle_irq : Option Clic → ℕ → Action × Option Clic
handle_irq none cause = (no_controller, none)
handle_irq (some clic) cause =
    let irq_id = cause % 2 ^ 12 in
    let edge = not (clic_readb clic irq_id int_attr / 2 % 2 == 0) in
    if ltb irq_id ext_min_id
    then (local (2 ^ 31 + irq_id), some (if edge then clic_writeb clic irq_id int_ip 0 else clic))
    else if leb nr_irqs irq_id
    then (spurious, some clic)
    else (external irq_id, some clic)

unfoldable pub init_one : Clic → ℕ → Clic
init_one clic i =
    clic_writeb
      (clic_writeb (clic_writeb (clic_writeb clic i int_ip 0) i int_ie 0) i int_attr attr_level) i
      int_ctl (clicctl_make 1 max_priority)

-- The loop over the inputs from `i` on.
unfoldable pub init_loop : ℕ → ℕ → Clic → Clic
init_loop zero i clic = clic
init_loop (suc n) i clic = init_loop n (i + 1) (init_one clic i)

unfoldable pub init_cpu : Clic → Clic
init_cpu clic = init_loop (nr_irqs - ext_min_id) ext_min_id (record clic { sintthresh = 0 })
