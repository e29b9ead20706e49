-- ===== src/Sbi/Cache.antt =====
-- opensbi/platform/esp32s31/platform.c: what a cache call of S-mode can do. An invalidate of the
-- D-cache drops lines that were not written back, so that it must not reach the memory of OpenSBI.
use esp32_s31_linux.Common.{
  ℕ, zero, suc, ◌+◌, ◌%◌, ◌^◌, ◌≤◌, ◌<◌, ◌≡◌, ◌≢◌, refl, ap, arith, List, [], ◌∷◌, ◌++◌, Bool, true,
  false, ltb, leb, ◌==◌, ◌⊎◌, inl, inr, Bool-cases, if_elim, ◌∙◌, sym,
}
use mathlib.Core.Path.{subst}
use mathlib.Core.List.{append-nil}
use esp32_s31_linux.Sbi.{
  Access, lock, unlock, sync_map, sync_addr, sync_size, sync_ctrl, passes, cache_sync,
  cache_op_allowed, fw_base, fw_size, invalidate, map_l1_dcache, Ret, success, icache_accesses,
  cache_call,
}

-- The registers of the cache, and whether the lock is held.
pub record CacheRegs : Type 0 where
  pub held : Bool
  pub map : ℕ
  pub addr : ℕ
  pub size : ℕ

abbrev pub after : CacheRegs → Access → CacheRegs
after r lock = record r { held = true }
after r unlock = record r { held = false }
after r (sync_map x) = record r { map = x }
after r (sync_addr x) = record r { addr = x }
after r (sync_size x) = record r { size = x }
after r (sync_ctrl x) = r

-- A range that has lines, does not wrap, and does not meet the memory of OpenSBI.
pub record IsClear (addr size : ℕ) : Type 0 where
  pub some_line : 0 < size
  pub word : addr + size < 2 ^ 32
  pub clear : (x : ℕ) → addr ≤ x → x < addr + size → (x < fw_base) ⊎ (fw_base + fw_size ≤ x)

-- An operation is started under the lock only, and an invalidate of the D-cache on a clear range.
pub record IsSafe (r : CacheRegs) (op : ℕ) : Type 0 where
  pub locked : r.held ≡ true
  pub drops : op ≡ invalidate → r.map ≡ map_l1_dcache → IsClear r.addr r.size

abbrev StartOf : CacheRegs → Access → Type 0
StartOf r (sync_ctrl op) = IsSafe r op
StartOf r _ = Unit {0}

-- Every start of a log is safe, and the log ends with the lock given back.
abbrev pub SafeFrom : CacheRegs → List Access → Type 0
SafeFrom r [] = r.held ≡ false
SafeFrom r (a ∷ log) = StartOf r a × SafeFrom (after r a) log

abbrev Allowed : ℕ → ℕ → ℕ → ℕ → Type 0
Allowed map op addr size = op ≡ invalidate → map ≡ map_l1_dcache → IsClear addr size

-- One synchronization, with what comes after it.
cache_sync-SafeFrom :
    (r : CacheRegs) (map op addr size : ℕ) (log : List Access)
    → Allowed map op addr size
    → SafeFrom (record { held = false; map = map; addr = addr; size = size }) log
    → SafeFrom r (cache_sync map op addr size ++ log)
unfolding cache_sync passes
cache_sync-SafeFrom r map op addr size log ok next = elim (Bool-cases (op == invalidate)) [
  | inl one ↦ rw one (tt, (tt, (tt, (tt, (record { locked = refl; drops = ok }, (tt, next))))))
  | inr two ↦
      let start : IsSafe (record { held = true; map = map; addr = addr; size = size }) op = record {
        locked = refl;
        drops = ok;
      } in
      rw two (tt, (tt, (tt, (tt, (start, (start, (tt, next)))))))
]

-- The test of the code, which looks at the wrapped end, allows clear ranges only.
pub cache_op_allowed-IsClear :
    (addr size : ℕ)
    → addr < 2 ^ 32
    → size < 2 ^ 32
    → cache_op_allowed invalidate addr size ≡ true
    → IsClear addr size
unfolding cache_op_allowed
cache_op_allowed-IsClear addr size a s h = record {
  some_line = ground arith;
  word = ground arith;
  clear = λ x low high. elim (Bool-cases (ltb x fw_base)) [
    | inl below ↦ inl (ground arith)
    | inr above ↦ inr (ground arith)
  ];
}

pub IsClear-cache_op_allowed :
    (addr size : ℕ) → IsClear addr size → cache_op_allowed invalidate addr size ≡ true
unfolding cache_op_allowed
IsClear-cache_op_allowed addr size c = elim (Bool-cases (ltb addr fw_base)) [
  | inl below ↦ elim (Bool-cases (leb (addr + size) fw_base)) [
    | inl fits ↦ ground (arith, c.some_line, c.word)
    | inr meets ↦ absurd (elim (c.clear fw_base (ground arith) (ground arith)) [
      | inl l ↦ omega arith
      | inr h ↦ omega arith
    ])
  ]
  | inr above ↦ elim (c.clear addr (omega arith) (omega (arith, c.some_line))) [
    | inl l ↦ absurd (ground arith)
    | inr h ↦ ground (arith, c.some_line, c.word)
  ]
]

-- The map of an I-cache is not that of the D-cache.
icache_map : (hartid : ℕ) → hartid < 2 → 2 ^ hartid % 2 ^ 32 ≢ map_l1_dcache
icache_map zero lt e = cc
icache_map (suc zero) lt e = cc
icache_map (suc (suc h)) lt e = omega arith

icache_accesses-SafeFrom :
    (r : CacheRegs) (hartid op addr size : ℕ)
    → hartid < 2
    → r.held ≡ false
    → SafeFrom r (icache_accesses hartid op addr size)
icache_accesses-SafeFrom r hartid op addr size lt free = if_elim (SafeFrom r) (op == 0) _ _ free (
    subst (SafeFrom r) (append-nil (cache_sync (2 ^ hartid % 2 ^ 32) op addr size))
      (cache_sync-SafeFrom r _ op addr size [] (λ _ e. absurd (icache_map hartid lt e)) refl))

abbrev pub SafeRet : Ret → Type 0
SafeRet (success log) = (r : CacheRegs) → SafeFrom r log
SafeRet _ = Unit {0}

pub cache_call-SafeRet :
    (hartid : ℕ) (ops : ℕ × ℕ) (addr size : ℕ)
    → hartid < 2
    → addr < 2 ^ 32
    → size < 2 ^ 32
    → SafeRet (cache_call hartid ops addr size)
cache_call-SafeRet hartid ops addr size lt a s =
    elim (Bool-cases (cache_op_allowed ops.0 addr size)) [
      | inl ok ↦ rw ok λ r.
          cache_sync-SafeFrom r map_l1_dcache ops.0 addr size _
            (λ e _.
              cache_op_allowed-IsClear addr size a s
                (ap (λ op. cache_op_allowed op addr size) (sym e) ∙ ok))
            (icache_accesses-SafeFrom _ hartid ops.1 addr size lt refl)
      | inr bad ↦ rw bad tt
    ]
