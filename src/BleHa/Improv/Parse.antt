-- ===== src/BleHa/Improv/Parse.antt =====
-- What `improv_parse` lets through, and what it says of a packet that is not whole.
use esp32_s31_linux.Common.{
  ℕ, zero, suc, ◌+◌, ◌%◌, ◌≤◌, ◌<◌, ◌≡◌, refl, arith, List, [], ◌∷◌, length, take, drop, get_or,
  true, false, length-append, length-take, length-drop,
}
use esp32_s31_linux.BleHa.Improv.{
  ImprovCmd, checksum, has_nul, valid_pass, parse_wifi, improv_parse, improv_result, result_strings,
  cmd_wifi, incomplete,
}
use esp32_s31_linux.BleHa.Improv.Format.{total, packet, IsSettings, IsSettings-fits}

parse_wifi-checks :
    (d : List ℕ) (c c' : ImprovCmd)
    → parse_wifi d c ≡ (0, c')
    → (0 < length c'.ssid)
      × (length c'.ssid ≤ 32)
      × (has_nul c'.ssid ≡ false)
      × (valid_pass c'.pass ≡ true)
      × (c'.cmd ≡ c.cmd)
unfolding parse_wifi
parse_wifi-checks d c c' h = ground (arith, length-take (get_or d 0 0) (drop 1 d), length-drop 1 d)

parse_wifi-IsSettings :
    (d : List ℕ) (c c' : ImprovCmd)
    → parse_wifi d c ≡ (0, c')
    → IsSettings c'.ssid c'.pass × (c'.cmd ≡ c.cmd)
parse_wifi-IsSettings d c c' h =
    let (lo, hi, nul, ok, same) = parse_wifi-checks d c c' h in
    (IsSettings-fits c'.ssid c'.pass lo hi nul ok, same)

-- A parsed Wi-Fi command holds an SSID of 1 to 32 bytes without a NUL, and a passphrase that is
-- empty or has 8 to 63 bytes, all of them printable ASCII, so that both strings with their NUL fit
-- `ssid[33]` and `pass[64]`.
pub improv_parse-IsSettings :
    (buf : List ℕ) (c c' : ImprovCmd)
    → improv_parse buf c ≡ (0, c')
    → c'.cmd ≡ cmd_wifi
    → IsSettings c'.ssid c'.pass
unfolding improv_parse
improv_parse-IsSettings buf c c' h k = ground (
  arith,
  parse_wifi-IsSettings (take (get_or buf 1 0) (drop 2 buf)) (record c { cmd = get_or buf 0 0 }) c',
)

get_or-take : (xs : List ℕ) (n i d : ℕ) → i < n → get_or (take n xs) i d ≡ get_or xs i d
get_or-take xs zero i d h = absurd (omega arith)
get_or-take [] (suc n) i d h = refl
get_or-take (x ∷ xs) (suc n) zero d h = refl
get_or-take (x ∷ xs) (suc n) (suc i) d h = get_or-take xs n i d (omega arith)

-- Every part of a packet up to its last byte is incomplete, and leaves the command as it was.
improv_parse-incomplete :
    (cmd : ℕ) (body : List ℕ) (n : ℕ) (c : ImprovCmd)
    → n < length (packet cmd body)
    → improv_parse (take n (packet cmd body)) c ≡ (incomplete, c)
unfolding improv_parse
improv_parse-incomplete cmd body n c h = ground (
  arith,
  length-take n (packet cmd body),
  get_or-take (packet cmd body) n 1 0,
  length-append body ((total (cmd ∷ length body ∷ body) % 256) ∷ []),
)

result_strings-length :
    (ss : List (List ℕ)) (pos : ℕ) → pos ≤ 60 → pos + length (result_strings pos ss) ≤ 60
unfolding result_strings
result_strings-length [] pos h = omega arith
result_strings-length (s ∷ ss) pos h = ground (
  arith,
  length-append s (result_strings (pos + 1 + length s) ss),
  result_strings-length ss (pos + 1 + length s),
)

-- The result packet takes at most 61 bytes, so that it fits `result[64]`, whatever the strings.
improv_result-length : (cmd : ℕ) (ss : List (List ℕ)) → length (improv_result cmd ss) ≤ 61
unfolding improv_result
improv_result-length cmd ss = omega (
  arith,
  length-append (result_strings 2 ss)
      (checksum (cmd ∷ (length (result_strings 2 ss) % 256) ∷ result_strings 2 ss) ∷ []),
  result_strings-length ss 2,
)
