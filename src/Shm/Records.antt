-- ===== src/Shm/Records.antt =====
-- The abstract view of one ring: the frames that it holds, oldest first, and what appending a
-- record at `head` or dropping the record at `tail` does to that list.
use esp32_s31_linux.Common.{
  ℕ, zero, suc, ◌+◌, ◌*◌, ◌/◌, ◌%◌, ◌^◌, ◌≤◌, ◌<◌, ◌≡◌, refl, ap, ◌∙◌, arith, List, [], ◌∷◌, ◌++◌,
  length, Mem, sym, add32, sub32, le32, All,
}
use Prim.Native.Nat.{◌∣◌}
use mathlib.Core.Path.{ap₂}
use native.Mathlib.Nat.{mod-add-mod, mod-lt, mod-mod_of_dvd, add-mod_right}
use esp32_s31_linux.Shm.Layout.{Block, Ring, head_off, tail_off}
use esp32_s31_linux.Shm.Circular.{wr, rd, wr_cong, rd_cong, rd-wr_disjoint, rd-wr_self}

abbrev pub Frame : Type 0
Frame = List ℕ

-- The space of a record: the length word and the padded frame.
abbrev pub space : ℕ → ℕ
space n = 4 + (n + 3) / 4 * 4

abbrev pub used : List Frame → ℕ
used [] = 0
used (f ∷ fs) = space (length f) + used fs

pub used-append : (fs : List Frame) (f : Frame) → used (fs ++ (f ∷ [])) ≡ used fs + space (length f)
used-append [] f = omega arith
used-append (g ∷ fs) f = omega (arith, used-append fs f)

abbrev pub IsFrame : ℕ → ℕ → Frame → Type 0
IsFrame lo hi f = (lo ≤ length f) × (length f ≤ hi)

-- What a ring needs of its size: a power of two that the index words wrap over evenly.
pub record IsSized (size : ℕ) : Type 0 where
  pub positive : 0 < size
  pub small : size ≤ 2 ^ 31
  pub divides : size ∣ 2 ^ 32

module _ (base size : ℕ) where
  -- From position `p` on the data area holds the records of these frames.
  abbrev pub Holds : Mem → ℕ → List Frame → Type 0
  Holds m p [] = Unit {0}
  Holds m p (f ∷ fs) =
      (rd base size m p 4 ≡ le32 (length f))
      × (rd base size m (p + 4) (length f) ≡ f)
      × Holds m (p + space (length f)) fs

pub record Frames (r : Ring) (lo hi : ℕ) (b : Block) (fs : List Frame) : Type 0 where
  pub tail_word : b.words (r.ctrl + tail_off) < 2 ^ 32
  pub head_word : b.words (r.ctrl + head_off) ≡ (b.words (r.ctrl + tail_off) + used fs) % 2 ^ 32
  pub fits : used fs ≤ r.size
  pub sound : All (IsFrame lo hi) fs
  pub held : Holds r.base r.size b.bytes (b.words (r.ctrl + tail_off)) fs

pub add-mod_cong : (s a b k : ℕ) → a % s ≡ b % s → (a + k) % s ≡ (b + k) % s
add-mod_cong s a b k e = sym (mod-add-mod a s k) ∙ ap (λ t. (t + k) % s) e ∙ mod-add-mod b s k

-- Index arithmetic modulo 2^32 keeps the cell.
pub add32-cell :
    (size : ℕ)
    → IsSized size
    → (a b k : ℕ) → a % size ≡ b % size
    → add32 a k % size ≡ (b + k) % size
add32-cell size z a b k e = mod-mod_of_dvd size (a + k) z.divides ∙ add-mod_cong size a b k e

pub word-cell : (size : ℕ) → IsSized size → (a : ℕ) → a % 2 ^ 32 % size ≡ a % size
word-cell size z a = mod-mod_of_dvd size a z.divides

module _ (base size : ℕ) where
  Holds-cong :
      (m : Mem) (fs : List Frame) (p q : ℕ)
      → p % size ≡ q % size
      → Holds base size m p fs
      → Holds base size m q fs
  Holds-cong m [] p q e h = tt
  Holds-cong m (f ∷ fs) p q e (hl, hf, hs) = (
    sym (rd_cong base size m p q 4 e) ∙ hl,
    sym (rd_cong base size m (p + 4) (q + 4) (length f) (add-mod_cong size p q 4 e)) ∙ hf,
    Holds-cong m fs (p + space (length f)) (q + space (length f))
        (add-mod_cong size p q (space (length f)) e) hs,
  )

  -- A write behind the records, less than a round ahead, leaves them.
  Holds-wr :
      (m : Mem) (pos : ℕ) (xs : List ℕ) (fs : List Frame) (p : ℕ)
      → p + used fs ≤ pos
      → pos + length xs ≤ p + size
      → Holds base size m p fs
      → Holds base size (wr base size m pos xs) p fs
  Holds-wr m pos xs [] p h k held = tt
  Holds-wr m pos xs (f ∷ fs) p h k (hl, hf, hs) = (
    rd-wr_disjoint base size m pos xs p 4 (omega arith) (omega arith) ∙ hl,
    rd-wr_disjoint base size m pos xs (p + 4) (length f) (omega arith) (omega arith) ∙ hf,
    Holds-wr m pos xs fs (p + space (length f)) (omega arith) (omega arith) hs,
  )

  Holds-append :
      (m : Mem) (fs : List Frame) (f : Frame) (p q : ℕ)
      → q ≡ p + used fs
      → Holds base size m p fs
      → Holds base size m q (f ∷ [])
      → Holds base size m p (fs ++ (f ∷ []))
  Holds-append m [] f p q e h new = Holds-cong m (f ∷ []) q p (ap (λ t. t % size) (omega arith)) new
  Holds-append m (g ∷ fs) f p q e (hl, hf, hs) new =
      (hl, hf, Holds-append m fs f (p + space (length g)) q (omega arith) hs new)

  -- The frame, then its length word, as both producers write them.
  abbrev pub write_record : Mem → ℕ → Frame → Mem
  write_record m p f = wr base size (wr base size m (p + 4) f) p (le32 (length f))

  write_record-Holds :
      (m : Mem) (p : ℕ) (f : Frame)
      → space (length f) ≤ size
      → Holds base size (write_record m p f) p (f ∷ [])
  write_record-Holds m p f h = (
    rd-wr_self base size (wr base size m (p + 4) f) p (le32 (length f)) (omega arith),
    ap (λ t. rd base size t (p + 4) (length f))
          (wr_cong base size (wr base size m (p + 4) f) p (p + size) (le32 (length f))
            (sym (add-mod_right p size)))
        ∙ rd-wr_disjoint base size (wr base size m (p + 4) f) (p + size) (le32 (length f)) (p + 4)
            (length f) (omega arith) (omega arith)
        ∙ rd-wr_self base size m (p + 4) f (omega arith),
    tt,
  )

  write_record-append :
      (m : Mem) (fs : List Frame) (f : Frame) (p : ℕ)
      → used fs + space (length f) ≤ size
      → Holds base size m p fs
      → Holds base size (write_record m (p + used fs) f) p (fs ++ (f ∷ []))
  write_record-append m fs f p h held =
      Holds-append (write_record m (p + used fs) f) fs f p (p + used fs) refl
        (Holds-wr (wr base size m (p + used fs + 4) f) (p + used fs) (le32 (length f)) fs p
          (omega arith) (omega arith)
          (Holds-wr m (p + used fs + 4) f fs p (omega arith) (omega arith) held))
        (write_record-Holds m (p + used fs) f (omega arith))

  pub write_record-cong :
      (m : Mem) (p q : ℕ) (f : Frame) (q4 : ℕ)
      → q % size ≡ p % size
      → q4 % size ≡ (p + 4) % size
      → wr base size (wr base size m q4 f) q (le32 (length f)) ≡ write_record m p f
  write_record-cong m p q f q4 e e4 =
      ap (λ t. wr base size t q (le32 (length f))) (wr_cong base size m q4 (p + 4) f e4)
      ∙ wr_cong base size (wr base size m (p + 4) f) q p (le32 (length f)) e

pub All-append_one {ℓ κ} :
    {A : Type ℓ} (P : A → Type κ) (xs : List A) (x : A) → All P xs → P x → All P (xs ++ (x ∷ []))
All-append_one P [] x h k = (k, tt)
All-append_one P (y ∷ ys) x (hy, hs) k = (hy, All-append_one P ys x hs k)

module _ (base size : ℕ) (positive : 0 < size) where
  abbrev pub Agrees : Mem → Mem → Type 0
  Agrees m m' = (j : ℕ) → base ≤ j → j < base + size → m' j ≡ m j

  rd-Agrees : (m m' : Mem) (p n : ℕ) → Agrees m m' → rd base size m' p n ≡ rd base size m p n
  unfolding rd
  rd-Agrees m m' p zero h = refl
  rd-Agrees m m' p (suc n) h =
      ap₂ ◌∷◌ (h (base + p % size) (omega arith) (omega (arith, mod-lt p positive)))
        (rd-Agrees m m' (p + 1) n h)

  pub Holds-Agrees :
      (m m' : Mem) (p : ℕ) (fs : List Frame)
      → Agrees m m'
      → Holds base size m p fs
      → Holds base size m' p fs
  Holds-Agrees m m' p [] a h = tt
  Holds-Agrees m m' p (f ∷ fs) a (hl, hf, hs) = (
    rd-Agrees m m' p 4 a ∙ hl,
    rd-Agrees m m' (p + 4) (length f) a ∙ hf,
    Holds-Agrees m m' (p + space (length f)) fs a hs,
  )

module _ (r : Ring) (lo hi : ℕ) (z : IsSized r.size) (b b' : Block) where
  abbrev pub tail_of : Block → ℕ
  tail_of c = c.words (r.ctrl + tail_off)

  abbrev pub head_of : Block → ℕ
  head_of c = c.words (r.ctrl + head_off)

  -- The index words of a valid ring tell the space in use.
  pub Frames-used :
      (fs : List Frame) → Frames r lo hi b fs → sub32 (head_of b) (tail_of b) ≡ used fs
  Frames-used fs v = omega arith

  pub append-Frames :
      (fs : List Frame) (f : Frame)
      → Frames r lo hi b fs
      → IsFrame lo hi f
      → used fs + space (length f) ≤ r.size
      → b'.bytes ≡ write_record r.base r.size b.bytes (tail_of b + used fs) f
      → tail_of b' ≡ tail_of b
      → head_of b' ≡ add32 (head_of b) (space (length f))
      → Frames r lo hi b' (fs ++ (f ∷ []))
  append-Frames fs f v ok h eb et eh = record {
    tail_word = omega arith;
    head_word = omega (arith, used-append fs f);
    fits = omega (arith, used-append fs f);
    sound = All-append_one (IsFrame lo hi) fs f v.sound ok;
    held = rw (eb, et) (write_record-append r.base r.size b.bytes fs f (tail_of b) h v.held);
  }

  pub drop-Frames :
      (f : Frame) (fs : List Frame)
      → Frames r lo hi b (f ∷ fs)
      → b'.bytes ≡ b.bytes
      → tail_of b' ≡ add32 (tail_of b) (space (length f))
      → head_of b' ≡ head_of b
      → Frames r lo hi b' fs
  drop-Frames f fs v eb et eh = record {
    tail_word = omega arith;
    head_word = omega arith;
    fits = omega arith;
    sound = v.sound.1;
    held =
        rw (eb, et)
          (Holds-cong r.base r.size b.bytes fs (tail_of b + space (length f))
            (add32 (tail_of b) (space (length f)))
            (sym (word-cell r.size z (tail_of b + space (length f)))) v.held.2);
  }

  -- All frames are dropped: `tail` takes the value of `head`.
  pub reset-Frames :
      tail_of b' ≡ head_of b → head_of b' ≡ head_of b → head_of b < 2 ^ 32 → Frames r lo hi b' []
  reset-Frames et eh h = record {
    tail_word = omega arith;
    head_word = omega arith;
    fits = omega arith;
    sound = tt;
    held = tt;
  }

  -- What happens elsewhere in the block leaves the ring's frames.
  pub other-Frames :
      (fs : List Frame)
      → Frames r lo hi b fs
      → tail_of b' ≡ tail_of b
      → head_of b' ≡ head_of b
      → Agrees r.base r.size z.positive b.bytes b'.bytes
      → Frames r lo hi b' fs
  other-Frames fs v et eh a = record {
    tail_word = omega (arith, v.tail_word);
    head_word = omega (arith, v.head_word);
    fits = v.fits;
    sound = v.sound;
    held = rw et (Holds-Agrees r.base r.size z.positive b.bytes b'.bytes (tail_of b) fs a v.held);
  }
