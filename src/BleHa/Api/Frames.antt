-- ===== src/BleHa/Api/Frames.antt =====
-- `api_next` takes frames apart as `api_frame` made them, also when a frame comes in parts.
use esp32_s31_linux.Common.{
  ℕ, zero, suc, ◌+◌, ◌*◌, ◌%◌, ◌^◌, ◌≤◌, ◌<◌, ◌≡◌, ◌≢◌, ◌⊎◌, inl, inr, Bool-cases, refl, ap, ◌∙◌,
  arith, List, [], ◌∷◌, ◌++◌, length, ◌==◌, take, length-append, take-append,
}
use mathlib.Core.List.{append_assoc}
use esp32_s31_linux.BleHa.Api.{
  pb_varint, VarintResult, short, bad, value, read_loop, read_varint, api_frame, api_next,
  need_more, message, next_length, next_type, next_payload,
}
use esp32_s31_linux.BleHa.Api.Varint.{read_varint-pb_varint}

-- The frame of a message of at most 4096 bytes, with a 32-bit type, comes back with its length,
-- type and payload, whatever follows it.
pub api_next-api_frame :
    (type : ℕ) (msg more : List ℕ)
    → type < 2 ^ 32
    → length msg ≤ 4096
    → api_next (api_frame type msg ++ more) ≡ message (length (api_frame type msg)) type msg
unfolding api_frame api_next next_length next_type next_payload
api_next-api_frame type msg more ht hl =
    rw
      (
        append_assoc (pb_varint (length msg)) (pb_varint type ++ msg) more,
        append_assoc (pb_varint type) msg more,
        read_varint-pb_varint (length msg) (pb_varint type ++ (msg ++ more)) (omega arith),
        next_length,
        read_varint-pb_varint type (msg ++ more) ht,
        take-append msg more,
      )
      (ground (
        arith,
        length-append msg more,
        length-append (pb_varint type) (msg ++ more),
        length-append (pb_varint (length msg)) (pb_varint type ++ (msg ++ more)),
        length-append (pb_varint type) msg,
        length-append (pb_varint (length msg)) (pb_varint type ++ msg),
        length-append (pb_varint (length msg) ++ (pb_varint type ++ msg)) more,
        length-append (pb_varint type ++ msg) more,
      ))

-- A varint that is read stays the same when bytes follow.
read_loop-more :
    (p more : List ℕ) (rounds shift v w : ℕ) (rest : List ℕ)
    → read_loop rounds shift v p ≡ value w rest
    → read_loop rounds shift v (p ++ more) ≡ value w (rest ++ more)
unfolding read_loop
read_loop-more p more zero shift v w rest e = cc
read_loop-more [] more (suc rounds) shift v w rest e = cc
read_loop-more (b ∷ p) more (suc rounds) shift v w rest e =
    ground
      (arith, read_loop-more p more rounds (shift + 7) (v + b % 128 * 2 ^ shift % 2 ^ 32) w rest)

read_loop-more_bad :
    (p more : List ℕ) (rounds shift v : ℕ)
    → read_loop rounds shift v p ≡ bad
    → read_loop rounds shift v (p ++ more) ≡ bad
unfolding read_loop
read_loop-more_bad p more zero shift v e = refl
read_loop-more_bad [] more (suc rounds) shift v e = cc
read_loop-more_bad (b ∷ p) more (suc rounds) shift v e =
    ground (arith, read_loop-more_bad p more rounds (shift + 7) (v + b % 128 * 2 ^ shift % 2 ^ 32))

-- A frame that is broken stays broken when bytes follow.
read_loop-length :
    (p : List ℕ) (rounds shift v w : ℕ) (rest : List ℕ)
    → read_loop rounds shift v p ≡ value w rest
    → (length rest < length p) × (length p ≤ length rest + rounds)
unfolding read_loop
read_loop-length p zero shift v w rest e = cc
read_loop-length [] (suc rounds) shift v w rest e = cc
read_loop-length (b ∷ p) (suc rounds) shift v w rest e =
    ground (arith, read_loop-length p rounds (shift + 7) (v + b % 128 * 2 ^ shift % 2 ^ 32) w rest)

take-append_le : (n : ℕ) (xs ys : List ℕ) → n ≤ length xs → take n (xs ++ ys) ≡ take n xs
take-append_le zero xs ys h = refl
take-append_le (suc n) [] ys h = absurd (omega arith)
take-append_le (suc n) (x ∷ xs) ys h = ap (λ t. x ∷ t) (take-append_le n xs ys (omega arith))

next_payload-more :
    (len n type : ℕ) (rest more : List ℕ)
    → next_payload len n type rest ≢ need_more
    → length rest ≤ len
    → next_payload (len + length more) n type (rest ++ more) ≡ next_payload len n type rest
unfolding next_payload
next_payload-more len n type rest more ne h =
    ground (arith, length-append rest more, take-append_le n rest more)

VarintResult-cases :
    (r : VarintResult)
    → (r ≡ short) ⊎ ((r ≡ bad) ⊎ ((w : ℕ) × (rest : List ℕ) × (r ≡ value w rest)))
VarintResult-cases short = inl refl
VarintResult-cases bad = inr (inl refl)
VarintResult-cases (value w rest) = inr (inr (w, rest, refl))

next_type-more :
    (len n : ℕ) (p more : List ℕ)
    → next_type len n (read_varint p) ≢ need_more
    → length p ≤ len
    → next_type (len + length more) n (read_varint (p ++ more)) ≡ next_type len n (read_varint p)
unfolding next_type read_varint
next_type-more len n p more ne h = elim (VarintResult-cases (read_loop 5 0 0 p)) [
  | inl e ↦ absurd (ne (rw e))
  | inr (inl e) ↦ rw (e, read_loop-more_bad p more 5 0 0 e)
  | inr (inr (w, rest, e)) ↦
      rw (e, read_loop-more p more 5 0 0 w rest e)
        (next_payload-more len n w rest more (rw e at ne)
          (omega (arith, read_loop-length p 5 0 0 w rest e)))
]

next_length-more :
    (len : ℕ) (p more : List ℕ)
    → next_length len (read_varint p) ≢ need_more
    → length p ≤ len
    → next_length (len + length more) (read_varint (p ++ more)) ≡ next_length len (read_varint p)
next_length-more len p more ne h = elim (VarintResult-cases (read_loop 5 0 0 p)) [
  | inl e ↦ absurd (ne (unfold next_length read_varint in rw e))
  | inr (inl e) ↦ unfold next_length read_varint in rw (e, read_loop-more_bad p more 5 0 0 e)
  | inr (inr (w, rest, e)) ↦
      let e1 : read_varint p ≡ value w rest = unfold read_varint in e in
      let e2 : read_varint (p ++ more) ≡ value w (rest ++ more) =
        unfold read_varint in read_loop-more p more 5 0 0 w rest e in
      rw (e1, e2)
        (unfold next_length in
          next_type-more len w rest more (unfold next_length in rw e1 at ne)
            (omega (arith, read_loop-length p 5 0 0 w rest e)))
]

-- What `api_next` decides of the bytes that have come stays when more bytes come: a message or a
-- broken frame is the same, however the stream is cut.
api_next-more : (p more : List ℕ) → api_next p ≢ need_more → api_next (p ++ more) ≡ api_next p
unfolding api_next
api_next-more [] more ne = absurd (ne refl)
api_next-more (b ∷ p) more ne = elim (Bool-cases (b == 0x00)) [
  | inr e ↦ rw e
  | inl e ↦
      rw (e, length-append p more)
        (ap (λ k. next_length k (read_varint (p ++ more))) (omega arith)
          ∙ next_length-more (length (b ∷ p)) p more (rw e at ne) (omega arith))
]
