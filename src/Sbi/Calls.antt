-- ===== src/Sbi/Calls.antt =====
-- opensbi/platform/esp32s31/platform.c: which cache operations a call of S-mode starts, and which
-- calls are refused.
use esp32_s31_linux.Common.{
  ℕ, zero, suc, ◌%◌, ◌^◌, ◌≤◌, ◌<◌, ◌≡◌, ◌≢◌, refl, ap, arith, List, [], ◌∷◌, ◌++◌, true, false,
  leb, ◌==◌, if◌then◌else◌, inl, inr, Bool-cases, get_or, length, ◌||◌,
}
use esp32_s31_linux.Sbi.{
  Access, lock, unlock, sync_map, sync_addr, sync_size, sync_ctrl, passes, cache_sync, cache_ops,
  cache_op_allowed, invalidate, map_l1_dcache, Ret, not_supported, invalid, success,
  icache_accesses, cache_call, vendor_ext,
}
use esp32_s31_linux.Sbi.Cache.{
  CacheRegs, after, IsClear, SafeRet, cache_call-SafeRet, IsClear-cache_op_allowed,
  cache_op_allowed-IsClear,
}

-- An operation that the cache is told to start, with the range that its registers hold then.
pub record Start : Type 0 where
  pub map : ℕ
  pub op : ℕ
  pub addr : ℕ
  pub size : ℕ

abbrev pub starts : CacheRegs → List Access → List Start
starts r [] = []
starts r (sync_ctrl op ∷ log) =
    record { map = r.map; op = op; addr = r.addr; size = r.size } ∷ starts r log
starts r (lock ∷ log) = starts (after r lock) log
starts r (unlock ∷ log) = starts (after r unlock) log
starts r (sync_map x ∷ log) = starts (after r (sync_map x)) log
starts r (sync_addr x ∷ log) = starts (after r (sync_addr x)) log
starts r (sync_size x ∷ log) = starts (after r (sync_size x)) log

abbrev on_dcache : ℕ → ℕ → ℕ → Start
on_dcache op addr size = record { map = 16; op = op; addr = addr; size = size }

-- What the functions of the extension promise: 0 writes all of the D-cache back, 1 invalidates a
-- range of it, 2 writes a range back, 3 writes it back and invalidates it, and 4 writes it back and
-- invalidates it in the I-cache of the hart. The number of a write-back is 4, of an invalidate 1,
-- and of both 8; each with a write-back runs twice, for an erratum. A size of 0 is all of a cache.
abbrev pub promised : ℕ → ℕ → ℕ → ℕ → List Start
promised hartid zero a0 a1 = on_dcache 4 0 0 ∷ on_dcache 4 0 0 ∷ []
promised hartid (suc zero) a0 a1 = on_dcache 1 a0 a1 ∷ []
promised hartid (suc (suc zero)) a0 a1 = on_dcache 4 a0 a1 ∷ on_dcache 4 a0 a1 ∷ []
promised hartid (suc (suc (suc zero))) a0 a1 = on_dcache 8 a0 a1 ∷ on_dcache 8 a0 a1 ∷ []
promised hartid (suc (suc (suc (suc zero)))) a0 a1 =
    on_dcache 4 a0 a1
    ∷ on_dcache 4 a0 a1
    ∷ record { map = 2 ^ hartid; op = 1; addr = a0; size = a1 }
    ∷ []
promised hartid (suc (suc (suc (suc (suc n))))) a0 a1 = []

pub record Served (hartid funcid a0 a1 : ℕ) (ret : Ret) : Type 0 where
  pub log : List Access
  pub returned : ret ≡ success log
  pub operations : (r : CacheRegs) → starts r log ≡ promised hartid funcid a0 a1

hart_map : (hartid : ℕ) → hartid < 2 → 2 ^ hartid % 2 ^ 32 ≡ 2 ^ hartid
hart_map zero lt = refl
hart_map (suc zero) lt = refl
hart_map (suc (suc h)) lt = absurd (omega arith)

abbrev call_log : ℕ → ℕ × ℕ → ℕ → ℕ → List Access
call_log hartid ops addr size =
    cache_sync map_l1_dcache ops.0 addr size ++ icache_accesses hartid ops.1 addr size

cache_call-allowed :
    (hartid : ℕ) (ops : ℕ × ℕ) (addr size : ℕ)
    → cache_op_allowed ops.0 addr size ≡ true
    → cache_call hartid ops addr size ≡ success (call_log hartid ops addr size)
cache_call-allowed hartid ops addr size ok = rw ok refl

cache_call-refused :
    (hartid : ℕ) (ops : ℕ × ℕ) (addr size : ℕ)
    → cache_op_allowed ops.0 addr size ≡ false
    → cache_call hartid ops addr size ≡ invalid
cache_call-refused hartid ops addr size bad = rw bad refl

other_op : (op addr size : ℕ) → op ≢ invalidate → cache_op_allowed op addr size ≡ true
unfolding cache_op_allowed
other_op op addr size ne = ground arith

-- The ranges that the calls are allowed on.
call-allowed :
    (funcid addr size : ℕ)
    → funcid < 5
    → (funcid ≡ 1 → IsClear addr size)
    → cache_op_allowed (get_or cache_ops funcid (0, 0)).0 addr size ≡ true
call-allowed zero addr size lt c = other_op _ addr size (λ e. cc)
call-allowed (suc zero) addr size lt c = IsClear-cache_op_allowed addr size (c refl)
call-allowed (suc (suc zero)) addr size lt c = other_op _ addr size (λ e. cc)
call-allowed (suc (suc (suc zero))) addr size lt c = other_op _ addr size (λ e. cc)
call-allowed (suc (suc (suc (suc zero)))) addr size lt c = other_op _ addr size (λ e. cc)
call-allowed (suc (suc (suc (suc (suc n))))) addr size lt c = absurd (omega arith)

starts-promised :
    (hartid funcid a0 a1 : ℕ) (r : CacheRegs)
    → hartid < 2
    → funcid < 5
    → starts r (
        call_log hartid
          (get_or cache_ops funcid (0, 0))
          (if funcid == 0 then 0 else a0)
          (if funcid == 0 then 0 else a1))
      ≡ promised hartid funcid a0 a1
unfolding cache_sync passes
starts-promised hartid zero a0 a1 r h lt = refl
starts-promised hartid (suc zero) a0 a1 r h lt = refl
starts-promised hartid (suc (suc zero)) a0 a1 r h lt = refl
starts-promised hartid (suc (suc (suc zero))) a0 a1 r h lt = refl
starts-promised hartid (suc (suc (suc (suc zero)))) a0 a1 r h lt =
    ap
      (λ m.
        on_dcache 4 a0 a1
        ∷ on_dcache 4 a0 a1
        ∷ record { map = m; op = 1; addr = a0; size = a1 }
        ∷ [])
      (hart_map hartid h)
starts-promised hartid (suc (suc (suc (suc (suc n))))) a0 a1 r h lt = absurd (omega arith)

-- What a call returns, for the function `funcid` on the range of a0 and a1.
pub record Governed (hartid funcid a0 a1 : ℕ) (ret : Ret) : Type 0 where
  pub safe : SafeRet ret
  pub served : funcid < 5 → (funcid ≡ 1 → IsClear a0 a1) → Served hartid funcid a0 a1 ret
  pub refused : funcid ≡ 1 → (IsClear a0 a1 → ⊥) → ret ≡ invalid
  pub unknown : 5 ≤ funcid → ret ≡ not_supported

range-IsClear :
    (funcid a0 a1 : ℕ)
    → (funcid ≡ 1 → IsClear a0 a1)
    → (funcid ≡ 1 → IsClear (if funcid == 0 then 0 else a0) (if funcid == 0 then 0 else a1))
range-IsClear funcid a0 a1 c e = let z : ((funcid == 0) ≡ false) = ground arith in rw z (c e)

call-Served :
    (hartid funcid a0 a1 : ℕ)
    → hartid < 2
    → funcid < 5
    → (funcid ≡ 1 → IsClear a0 a1)
    → Served hartid funcid a0 a1 (
        cache_call hartid
          (get_or cache_ops funcid (0, 0))
          (if funcid == 0 then 0 else a0)
          (if funcid == 0 then 0 else a1))
call-Served hartid funcid a0 a1 h lt c = record {
  log = _;
  returned =
      cache_call-allowed hartid _ _ _ (call-allowed funcid _ _ lt (range-IsClear funcid a0 a1 c));
  operations = λ r. starts-promised hartid funcid a0 a1 r h lt;
}

call-refused :
    (hartid funcid a0 a1 : ℕ)
    → a0 < 2 ^ 32
    → a1 < 2 ^ 32
    → funcid ≡ 1
    → (IsClear a0 a1 → ⊥)
    → cache_call hartid
        (get_or cache_ops funcid (0, 0))
        (if funcid == 0 then 0 else a0)
        (if funcid == 0 then 0 else a1)
      ≡ invalid
call-refused hartid zero a0 a1 w0 w1 e n = absurd (omega (arith, e))
call-refused hartid (suc zero) a0 a1 w0 w1 e n =
    elim (Bool-cases (cache_op_allowed invalidate a0 a1)) [
      | inl ok ↦ absurd (n (cache_op_allowed-IsClear a0 a1 w0 w1 ok))
      | inr bad ↦ cache_call-refused hartid (invalidate, 0) a0 a1 bad
    ]
call-refused hartid (suc (suc k)) a0 a1 w0 w1 e n = absurd (omega (arith, e))

-- Whatever words S-mode of hart 0 or 1 gives, a call starts operations under the lock only and
-- gives the lock back, and it invalidates D-cache lines only in a range that has a line, does not
-- wrap, and does not meet the memory of OpenSBI. Each of the five functions returns 0 after exactly
-- the operations that it promises, the invalidate on every such range and the others on every
-- range; the invalidate returns SBI_EINVAL on another range, and an unknown function SBI_ENOTSUPP.
pub vendor_ext-Governed :
    (hartid funcid a0 a1 : ℕ)
    → hartid < 2
    → a0 < 2 ^ 32
    → a1 < 2 ^ 32
    → Governed hartid funcid a0 a1 (vendor_ext hartid funcid a0 a1)
unfolding vendor_ext
vendor_ext-Governed hartid funcid a0 a1 lt w0 w1 =
    elim (Bool-cases (leb (2 ^ 31) funcid || leb (length cache_ops) funcid)) [
      | inl big ↦
          let five : (5 ≤ funcid) = ground arith in
          rw big (record {
            safe = tt;
            served = λ l c. absurd (omega (arith, five));
            refused = λ e n. absurd (omega (arith, five, e));
            unknown = λ l. refl;
          })
      | inr call ↦
          let low : (funcid < 5) = ground arith in
          rw call (record {
            safe = cache_call-SafeRet hartid _ _ _ lt (ground arith) (ground arith);
            served = λ l c. call-Served hartid funcid a0 a1 lt l c;
            refused = λ e n. call-refused hartid funcid a0 a1 w0 w1 e n;
            unknown = λ l. absurd (omega (arith, low));
          })
    ]
