-- ===== src/BleHa/Daemon/Chunks.antt =====
-- Packets that come in parts: an RPC packet in several writes, an L2CAP frame in several fragments.
use esp32_s31_linux.Common.{
  ℕ, zero, suc, ◌+◌, ◌≤◌, ◌<◌, ◌≡◌, refl, ap, ◌∙◌, sym, arith, List, [], ◌∷◌, ◌++◌, length, Option,
  Bool, true, false, ltb, if◌then◌else◌, get_or, length-append, Bool-cases, inl, inr,
}
use esp32_s31_linux.BleHa.Improv.{ImprovCmd, improv_parse, incomplete}
use esp32_s31_linux.BleHa.Gatt.{get16}
use esp32_s31_linux.BleHa.Daemon.{Daemon, rpc_write, rpc_result, no_cmd, l2_fragment, l2_whole}

get_or-prefix : (xs ys : List ℕ) (i d : ℕ) → i < length xs → get_or (xs ++ ys) i d ≡ get_or xs i d
get_or-prefix [] ys i d h = absurd (omega arith)
get_or-prefix (x ∷ xs) ys zero d h = refl
get_or-prefix (x ∷ xs) ys (suc i) d h = get_or-prefix xs ys i d (omega arith)

-- A whole packet: a command, the length of the data, the data and a checksum.
abbrev Framed : List ℕ → Type 0
Framed p = length p ≡ get_or p 1 0 + 3

parse_part :
    (a b : List ℕ) (c : ImprovCmd)
    → Framed (a ++ b)
    → 1 ≤ length b
    → improv_parse a c ≡ (incomplete, c)
unfolding improv_parse
parse_part a b c h k = ground (arith, length-append a b, get_or-prefix a b 1 0)

module _ (write_ok : List ℕ → Bool) (wpa_join : List ℕ → List ℕ → Option ℕ) (now now_ms : ℕ)
    (info : List (List ℕ)) where
  rpc_write_fits :
      (s : Daemon) (bytes : List ℕ)
      → length s.rpc + length bytes ≤ 128
      → rpc_write write_ok wpa_join now now_ms info s bytes
        ≡ rpc_result write_ok wpa_join now now_ms info
            (record s { rpc = s.rpc ++ bytes })
            (improv_parse (s.rpc ++ bytes) no_cmd)
  unfolding rpc_write
  rpc_write_fits s bytes h =
      let small : ltb 128 (length s.rpc + length bytes) ≡ false = ground arith in rw small

  rpc_write_empty :
      (s : Daemon) (bytes : List ℕ)
      → s.rpc ≡ []
      → length bytes ≤ 128
      → rpc_write write_ok wpa_join now now_ms info s bytes
        ≡ rpc_result write_ok wpa_join now now_ms info
            (record s { rpc = bytes })
            (improv_parse bytes no_cmd)
  rpc_write_empty s bytes e h =
      rpc_write_fits s bytes (omega (arith, ap length e))
      ∙ ap
          (λ r.
            rpc_result write_ok wpa_join now now_ms info (record s { rpc = r })
              (improv_parse r no_cmd))
          (ap (λ r. r ++ bytes) e)

  rpc_write_part :
      (s : Daemon) (a : List ℕ)
      → s.rpc ≡ []
      → length a ≤ 128
      → improv_parse a no_cmd ≡ (incomplete, no_cmd)
      → rpc_write write_ok wpa_join now now_ms info s a ≡ record s { rpc = a }
  unfolding rpc_result
  rpc_write_part s a e h part =
      rpc_write_empty s a e h
      ∙ ap (λ r. rpc_result write_ok wpa_join now now_ms info (record s { rpc = a }) r) part

  -- A whole packet of at most 128 bytes that comes in two writes, into an empty buffer, does what
  -- it does in one, whether it is valid or not.
  pub rpc_write-append :
      (s : Daemon) (a b : List ℕ)
      → s.rpc ≡ []
      → Framed (a ++ b)
      → 1 ≤ length b
      → length (a ++ b) ≤ 128
      → rpc_write write_ok wpa_join now now_ms info
          (rpc_write write_ok wpa_join now now_ms info s a)
          b
        ≡ rpc_write write_ok wpa_join now now_ms info s (a ++ b)
  rpc_write-append s a b e h k l =
      let size = length-append a b in
      ap (λ t. rpc_write write_ok wpa_join now now_ms info t b)
        (rpc_write_part s a e (omega (arith, size)) (parse_part a b no_cmd h k))
      ∙ (rpc_write_fits (record s { rpc = a }) b (omega (arith, size))
          ∙ sym (rpc_write_empty s (a ++ b) e l))

  -- While the buffer holds as many bytes as its packet says, or more, a write that fits behind
  -- them only joins the buffer: no command runs, no error is set and nothing is cleared.
  pub rpc_write-stuck :
      (s : Daemon) (bytes : List ℕ)
      → 3 ≤ length s.rpc
      → get_or s.rpc 1 0 + 3 ≤ length s.rpc
      → 1 ≤ length bytes
      → length s.rpc + length bytes ≤ 128
      → rpc_write write_ok wpa_join now now_ms info s bytes ≡ record s { rpc = s.rpc ++ bytes }
  unfolding rpc_write rpc_result improv_parse
  rpc_write-stuck s bytes h k n l =
      ground (arith, length-append s.rpc bytes, get_or-prefix s.rpc bytes 1 0)

  l2_fragment_fits :
      (s : Daemon) (start : Bool) (bytes : List ℕ)
      → length (if start then [] else s.l2) + length bytes ≤ 256
      → l2_fragment write_ok wpa_join now now_ms info s start bytes
        ≡ l2_whole write_ok wpa_join now now_ms info
            (record s { l2 = (if start then [] else s.l2) ++ bytes })
  unfolding l2_fragment
  l2_fragment_fits s start bytes h =
      let small : ltb 256 (length (if start then [] else s.l2) + length bytes) ≡ false =
        ground arith in
      rw small

  l2_whole_part :
      (s : Daemon)
      → (4 ≤ length s.l2 → length s.l2 < get16 s.l2 0 + 4)
      → l2_whole write_ok wpa_join now now_ms info s ≡ s
  unfolding l2_whole
  l2_whole_part s h = elim (Bool-cases (ltb (length s.l2) 4)) [
    | inl e ↦ rw e
    | inr e ↦
        let short : ltb (length s.l2) (get16 s.l2 0 + 4) ≡ true =
          (let less = h (ground (arith, e)) in ground (arith, less)) in
        rw (e, short)
  ]

  -- Two fragments of at most 256 bytes together, the first not yet a whole frame, do what one
  -- fragment does with all of it.
  pub l2_fragment-append :
      (s : Daemon) (a b : List ℕ)
      → length (a ++ b) ≤ 256
      → (4 ≤ length a → length a < get16 a 0 + 4)
      → l2_fragment write_ok wpa_join now now_ms info
          (l2_fragment write_ok wpa_join now now_ms info s true a)
          false
          b
        ≡ l2_fragment write_ok wpa_join now now_ms info s true (a ++ b)
  l2_fragment-append s a b h k =
      let size = length-append a b in
      ap (λ t. l2_fragment write_ok wpa_join now now_ms info t false b)
        (l2_fragment_fits s true a (omega (arith, size)) ∙ l2_whole_part (record s { l2 = a }) k)
      ∙ (l2_fragment_fits (record s { l2 = a }) false b (omega (arith, size))
          ∙ sym (l2_fragment_fits s true (a ++ b) (omega arith)))
