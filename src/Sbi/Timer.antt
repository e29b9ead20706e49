-- ===== src/Sbi/Timer.antt =====
-- opensbi/platform/esp32s31/platform.c: the counter and the comparator of the machine timer are
-- 64 bits wide, in two words each.
use esp32_s31_linux.Common.{
  ℕ, ◌+◌, ◌*◌, ◌/◌, ◌%◌, ◌^◌, ◌≤◌, ◌<◌, ◌≡◌, refl, ap, ◌∙◌, arith, List, [], ◌∷◌, some, suc, ◌++◌,
  true, false, ◌==◌, ◌⊎◌, inl, inr, Bool-cases,
}
use esp32_s31_linux.Sbi.{timer_value, MachineTimer, comparator, timer_event_start}

-- A counter that never goes back and stays in its 64 bits.
pub record IsCounter (clock : ℕ → ℕ) : Type 0 where
  pub grows : (i j : ℕ) → i ≤ j → clock i ≤ clock j
  pub word : (i : ℕ) → clock i < 2 ^ 64

-- With the same high word around it, the low word gives the counter at its own read.
words_around :
    (a b c : ℕ)
    → a ≤ b
    → b ≤ c
    → c < 2 ^ 64
    → a / 2 ^ 32 % 2 ^ 32 ≡ c / 2 ^ 32 % 2 ^ 32
    → a / 2 ^ 32 % 2 ^ 32 * 2 ^ 32 + b % 2 ^ 32 ≡ b
words_around a b c ab bc w e = omega arith

module _ (clock : ℕ → ℕ) (counter : IsCounter clock) where
  timer_value-same :
      (n k : ℕ)
      → (clock k / 2 ^ 32 % 2 ^ 32 == clock (k + 2) / 2 ^ 32 % 2 ^ 32) ≡ true
      → timer_value clock (suc n) k ≡ some (clock (k + 1))
  unfolding timer_value
  timer_value-same n k e = rw e (
      ap some (
        words_around (clock k) (clock (k + 1)) (clock (k + 2))
          (counter.grows k (k + 1) (omega arith)) (counter.grows (k + 1) (k + 2) (omega arith))
          (counter.word (k + 2)) (ground arith)))

  timer_value-again :
      (n k : ℕ)
      → (clock k / 2 ^ 32 % 2 ^ 32 == clock (k + 2) / 2 ^ 32 % 2 ^ 32) ≡ false
      → timer_value clock (suc n) k ≡ timer_value clock n (k + 3)
  unfolding timer_value
  timer_value-again n k e = rw e refl

  -- If the counter moves by less than 2^32 in six reads, the loop ends in its second round at the
  -- latest, and what it returns is the counter when one of its low words was read, although the
  -- counter moves between the reads and may carry into the high word.
  pub timer_value-now :
      (k : ℕ)
      → clock (k + 5) < clock k + 2 ^ 32
      → (timer_value clock 2 k ≡ some (clock (k + 1)))
        ⊎ (timer_value clock 2 k ≡ some (clock (k + 4)))
  timer_value-now k near =
      elim (Bool-cases (clock k / 2 ^ 32 % 2 ^ 32 == clock (k + 2) / 2 ^ 32 % 2 ^ 32)) [
        | inl same ↦ inl (timer_value-same 1 k same)
        | inr moved ↦ inr (
            timer_value-again 1 k moved
            ∙ timer_value-same 0 (k + 3) (second moved)
            ∙ ap (λ i. some (clock i)) (omega arith))
      ]
    where
      second :
          (clock k / 2 ^ 32 % 2 ^ 32 == clock (k + 2) / 2 ^ 32 % 2 ^ 32) ≡ false
          → (clock (k + 3) / 2 ^ 32 % 2 ^ 32 == clock (k + 3 + 2) / 2 ^ 32 % 2 ^ 32) ≡ true
      second moved = ground (
        arith,
        counter.grows k (k + 2) (omega arith),
        counter.grows (k + 2) (k + 3) (omega arith),
        counter.grows (k + 3) (k + 5) (omega arith),
        counter.word (k + 5),
      )

-- No state of a list has reached its comparator at the time `now`.
abbrev pub NotDue : ℕ → List MachineTimer → Type 0
NotDue now [] = Unit {0}
NotDue now (t ∷ ts) = (now < comparator t) × NotDue now ts

-- What the writes of `timer_event_start` pass through.
pub record Programmed (now next_event : ℕ) (states : List MachineTimer) : Type 0 where
  pub first : MachineTimer
  pub between : List MachineTimer
  pub final : MachineTimer
  pub writes : states ≡ first ∷ between ++ final ∷ []
  pub cleared : (first.ip ≡ 0) × (final.ip ≡ 0)
  pub early : NotDue now between
  pub exact : comparator final ≡ next_event

-- The first write clears the pending bit, the last leaves the comparator at the next event, and
-- none of the states between these two, in which the comparator holds a word of the old event or a
-- half-written value, has reached it at any time before the counter's last 2^32 values.
pub timer_event_start-Programmed :
    (t : MachineTimer) (now next_event : ℕ)
    → now < 0xffffffff * 2 ^ 32
    → next_event < 2 ^ 64
    → Programmed now next_event (timer_event_start t next_event)
unfolding timer_event_start
timer_event_start-Programmed t now next_event low word = record {
  first = _;
  between = _ ∷ _ ∷ [];
  final = _;
  writes = refl;
  cleared = (refl, refl);
  early = (omega arith, (omega arith, tt));
  exact = omega arith;
}
