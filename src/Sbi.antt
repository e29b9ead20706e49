-- ===== src/Sbi.antt =====
-- opensbi/platform/esp32s31/platform.c: the machine timer and the cache calls of the vendor
-- extension, on RV32. A loop that waits for the lock or for the cache is one entry of the log.
pub mod Timer
pub mod Cache
pub mod Calls
use esp32_s31_linux.Common.{
  ℕ, zero, suc, ◌+◌, ◌*◌, ◌/◌, ◌%◌, ◌^◌, List, [], ◌∷◌, ◌++◌, Option, none, some, Bool, true, false,
  not, ◌&&◌, ◌||◌, ltb, leb, ◌==◌, if◌then◌else◌, length, get_or,
}

-- `clock i` is the counter when the register read number `i` is made; the rounds of the loop read
-- the registers from number `k` on.
unfoldable pub timer_value : (ℕ → ℕ) → ℕ → ℕ → Option ℕ
timer_value clock zero k = none
timer_value clock (suc rounds) k =
    let hi = clock k / 2 ^ 32 % 2 ^ 32 in
    let lo = clock (k + 1) % 2 ^ 32 in
    let tmp = clock (k + 2) / 2 ^ 32 % 2 ^ 32 in
    let rest = timer_value clock rounds (k + 3) in
    if not (hi == tmp) then rest else some (hi * 2 ^ 32 + lo)

-- The pending bit of the timer input and the two words of the comparator.
pub record MachineTimer : Type 0 where
  pub ip : ℕ
  pub cmp_hi : ℕ
  pub cmp_lo : ℕ

abbrev pub comparator : MachineTimer → ℕ
comparator t = t.cmp_hi * 2 ^ 32 + t.cmp_lo

-- The state after each of the writes.
unfoldable pub timer_event_start : MachineTimer → ℕ → List MachineTimer
timer_event_start t next_event =
    let t1 = record t { ip = 0 } in
    let t2 = record t1 { cmp_hi = 0xffffffff } in
    let t3 = record t2 { cmp_lo = next_event % 2 ^ 32 } in
    let t4 = record t3 { cmp_hi = next_event / 2 ^ 32 % 2 ^ 32 } in t1 ∷ t2 ∷ t3 ∷ t4 ∷ []

unfoldable pub timer_event_stop : MachineTimer → List MachineTimer
timer_event_stop t =
    let t1 = record t { cmp_hi = 0xffffffff } in
    let t2 = record t1 { cmp_lo = 0xffffffff } in let t3 = record t2 { ip = 0 } in t1 ∷ t2 ∷ t3 ∷ []

abbrev pub fw_base : ℕ
fw_base = 0x50f00000

abbrev pub fw_size : ℕ
fw_size = 0x30000

abbrev pub invalidate : ℕ
invalidate = 1

abbrev pub writeback : ℕ
writeback = 4

abbrev pub writeback_inv : ℕ
writeback_inv = 8

abbrev pub map_l1_dcache : ℕ
map_l1_dcache = 16

-- What a cache call does: the lock taken and given back, the three registers of a range, and an
-- operation, started and waited for.
pub data Access : Type 0 where
  lock : Access
  unlock : Access
  sync_map : ℕ → Access
  sync_addr : ℕ → Access
  sync_size : ℕ → Access
  sync_ctrl : ℕ → Access

unfoldable pub passes : ℕ → List Access
passes op = if op == invalidate then sync_ctrl op ∷ [] else sync_ctrl op ∷ sync_ctrl op ∷ []

unfoldable pub cache_sync : ℕ → ℕ → ℕ → ℕ → List Access
cache_sync map op addr size =
    lock ∷ sync_map map ∷ sync_addr addr ∷ sync_size size ∷ passes op ++ unlock ∷ []

-- The operation on the D-cache, then that on the I-cache, or 0.
abbrev pub cache_ops : List (ℕ × ℕ)
cache_ops =
    (writeback, 0)
    ∷ (invalidate, 0)
    ∷ (writeback, 0)
    ∷ (writeback_inv, 0)
    ∷ (writeback, invalidate)
    ∷ []

unfoldable pub cache_op_allowed : ℕ → ℕ → ℕ → Bool
cache_op_allowed op addr size =
    let end = (addr + size) % 2 ^ 32 in
    if not (op == invalidate)
    then true
    else not (size == 0) && (ltb addr end && (leb end fw_base || leb (fw_base + fw_size) addr))

-- What the call returns: SBI_ENOTSUPP, SBI_EINVAL, or 0 after the accesses.
pub data Ret : Type 0 where
  not_supported : Ret
  invalid : Ret
  success : List Access → Ret

-- `1UL << hartid` is the map of the I-cache of the hart.
abbrev pub icache_accesses : ℕ → ℕ → ℕ → ℕ → List Access
icache_accesses hartid op addr size =
    if op == 0 then [] else cache_sync (2 ^ hartid % 2 ^ 32) op addr size

abbrev pub cache_call : ℕ → ℕ × ℕ → ℕ → ℕ → Ret
cache_call hartid ops addr size =
    if not (cache_op_allowed ops.0 addr size)
    then invalid
    else success
        (cache_sync map_l1_dcache ops.0 addr size ++ icache_accesses hartid ops.1 addr size)

-- `funcid` and the registers a0 and a1 are 32-bit words; a negative `long` is one from 2^31 on.
unfoldable pub vendor_ext : ℕ → ℕ → ℕ → ℕ → Ret
vendor_ext hartid funcid a0 a1 =
    let all = funcid == 0 in
    if leb (2 ^ 31) funcid || leb (length cache_ops) funcid
    then not_supported
    else cache_call hartid (get_or cache_ops funcid (0, 0)) (if all then 0 else a0)
        (if all then 0 else a1)
