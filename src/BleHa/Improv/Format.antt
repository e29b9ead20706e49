-- ===== src/BleHa/Improv/Format.antt =====
-- The packet of the Wi-Fi settings as the Improv page describes it, and its parse.
use esp32_s31_linux.Common.{
  ℕ, suc, ◌%◌, ◌^◌, ◌+◌, ◌≤◌, ◌<◌, ◌≡◌, ap, ◌∙◌, arith, List, [], ◌∷◌, ◌++◌, length, true, false,
  ◌||◌, ◌&&◌, not, ltb, ◌≢◌, ◌⊎◌, ◌↔◌, inl, inr, refl, Bool-cases, All, ◌==◌, if◌then◌else◌, take,
  drop, get_or, length-append, take-append, drop-append, get_or-append, take_all, drop-suc,
}
use esp32_s31_linux.BleHa.Improv.{
  ImprovCmd, sum_loop, checksum, valid_pass, all_printable, has_nul, parse_wifi, improv_parse,
  cmd_wifi, cmd_identify, cmd_info, err_invalid, err_unknown,
}

-- What a phone sends: the length and the bytes of the SSID, then of the passphrase.
abbrev pub wifi_data : List ℕ → List ℕ → List ℕ
wifi_data ssid pass = length ssid ∷ (ssid ++ (length pass ∷ pass))

-- The sum of the bytes; the last byte of a packet is the low byte of it.
abbrev pub total : List ℕ → ℕ
total [] = 0
total (b ∷ bs) = b + total bs

sum_loop-total : (sum : ℕ) (p : List ℕ) → sum_loop sum p % 256 ≡ (sum + total p) % 256
unfolding sum_loop
sum_loop-total sum [] = omega arith
sum_loop-total sum (b ∷ bs) = sum_loop-total ((sum + b) % 2 ^ 32) bs ∙ omega arith

checksum-total : (p : List ℕ) → checksum p ≡ total p % 256
unfolding checksum
checksum-total p = sum_loop-total 0 p ∙ omega arith

-- A command with its data: command, data length, data, checksum.
abbrev pub packet : ℕ → List ℕ → List ℕ
packet cmd body = (cmd ∷ length body ∷ body) ++ ((total (cmd ∷ length body ∷ body) % 256) ∷ [])

-- The settings that the program accepts.
pub record IsSettings (ssid pass : List ℕ) : Type 0 where
  pub ssid_some : 0 < length ssid
  pub ssid_fits : length ssid ≤ 32
  pub ssid_text : All (λ b. b ≢ 0) ssid
  pub pass_fits : (length pass ≡ 0) ⊎ ((8 ≤ length pass) × (length pass ≤ 63))
  pub pass_text : All (λ b. (0x20 ≤ b) × (b ≤ 0x7e)) pass

all_printable-All : (p : List ℕ) → (all_printable p ≡ true) ↔ All (λ b. (0x20 ≤ b) × (b ≤ 0x7e)) p
unfolding all_printable
all_printable-All [] = (λ h. tt, λ h. refl)
all_printable-All (b ∷ p) =
    let rest = all_printable-All p in
    elim (Bool-cases (ltb b 0x20 || ltb 0x7e b)) [
      | inl out ↦ rw out (λ h. absurd (cc), λ h. absurd (ground (arith, h.0)))
      | inr inside ↦ rw inside (λ h. ((ground arith, ground arith), rest.0 h), λ h. rest.1 h.1)
    ]

has_nul-All : (p : List ℕ) → (has_nul p ≡ false) ↔ All (λ b. b ≢ 0) p
unfolding has_nul
has_nul-All [] = (λ h. tt, λ h. refl)
has_nul-All (b ∷ p) =
    let rest = has_nul-All p in
    elim (Bool-cases (b == 0)) [
      | inl nul ↦ rw nul (λ h. absurd (cc), λ h. absurd (h.0 (ground arith)))
      | inr text ↦ rw text (λ h. (λ z. ground arith, rest.0 h), λ h. rest.1 h.1)
    ]

-- The check of the code, and the rule for a passphrase.
pub valid_pass_iff :
    (p : List ℕ)
    → (valid_pass p ≡ true) ↔ (
        ((length p ≡ 0) ⊎ ((8 ≤ length p) × (length p ≤ 63)))
        × All (λ b. (0x20 ≤ b) × (b ≤ 0x7e)) p)
unfolding valid_pass
valid_pass_iff p =
    elim (Bool-cases (not (length p == 0) && (ltb (length p) 8 || ltb 63 (length p)))) [
      | inl bad ↦ rw bad (λ h. absurd (cc), λ h. absurd (ground (arith, h.0)))
      | inr good ↦ rw good (
        λ h. (
          elim (Bool-cases (length p == 0)) [
            | inl empty ↦ inl (ground arith)
            | inr some ↦ inr (ground arith, ground arith)
          ],
          (all_printable-All p).0 h,
        ),
        λ h. (all_printable-All p).1 h.1,
      )
    ]

pub IsSettings-fits :
    (ssid pass : List ℕ)
    → 0 < length ssid
    → length ssid ≤ 32
    → has_nul ssid ≡ false
    → valid_pass pass ≡ true
    → IsSettings ssid pass
IsSettings-fits ssid pass lo hi nul ok =
    let rule = (valid_pass_iff pass).0 ok in
    record {
      ssid_some = lo;
      ssid_fits = hi;
      ssid_text = (has_nul-All ssid).0 nul;
      pass_fits = rule.0;
      pass_text = rule.1;
    }

parse_wifi-wifi_data :
    (ssid pass : List ℕ) (c : ImprovCmd)
    → IsSettings ssid pass
    → parse_wifi (wifi_data ssid pass) c ≡ (0, record c { ssid = ssid; pass = pass })
parse_wifi-wifi_data ssid pass c v =
    unfold parse_wifi in
    rw (pass_len, pass_bytes, take-append ssid (length pass ∷ pass), no_nul, good_pass)
      (ground
        (arith, v.ssid_some, v.ssid_fits, length-append ssid (length pass ∷ pass), pass_short))
  where
    no_nul : has_nul ssid ≡ false
    no_nul = (has_nul-All ssid).1 v.ssid_text

    good_pass : valid_pass pass ≡ true
    good_pass = (valid_pass_iff pass).1 (v.pass_fits, v.pass_text)

    pass_short : length pass ≤ 63
    pass_short = elim v.pass_fits [ inl empty ↦ omega arith | inr some ↦ some.1 ]

    body : List ℕ
    body = wifi_data ssid pass

    pass_len : get_or body (1 + length ssid) 0 ≡ length pass
    pass_len =
        ap (λ k. get_or body k 0) {y = suc (length ssid)} (omega arith)
        ∙ get_or-append ssid (length pass ∷ pass) 0

    pass_bytes : take (length pass) (drop (2 + length ssid) body) ≡ pass
    pass_bytes =
        ap (λ k. take (length pass) (drop k body)) {y = suc (suc (length ssid))} (omega arith)
        ∙ ap (take (length pass)) (
            drop-suc (length ssid) (ssid ++ (length pass ∷ pass))
            ∙ ap (drop 1) (drop-append ssid (length pass ∷ pass)))
        ∙ take_all (length pass) pass (omega arith)

-- A complete packet with a right checksum gets to its command with its own data.
improv_parse-packet :
    (cmd : ℕ) (body : List ℕ) (c : ImprovCmd)
    → improv_parse (packet cmd body) c ≡ (
        let c1 = record c { cmd = cmd } in
        if cmd == cmd_wifi
        then parse_wifi body c1
        else if cmd == cmd_identify || cmd == cmd_info
        then ((if length body == 0 then 0 else err_invalid), c1)
        else (err_unknown, c1))
improv_parse-packet cmd body c =
    unfold improv_parse in
    rw
      (
        front,
        last,
        checksum-total (cmd ∷ length body ∷ body),
        take-append body ((total (cmd ∷ length body ∷ body) % 256) ∷ []),
      )
      (ground (arith, length-append body ((total (cmd ∷ length body ∷ body) % 256) ∷ [])))
  where
    whole : List ℕ
    whole = packet cmd body

    front : take (length body + 2) whole ≡ cmd ∷ length body ∷ body
    front =
        ap (λ k. take k whole) {y = suc (suc (length body))} (omega arith)
        ∙ take-append (cmd ∷ length body ∷ body) ((total (cmd ∷ length body ∷ body) % 256) ∷ [])

    last : get_or whole (length body + 2) 0 ≡ total (cmd ∷ length body ∷ body) % 256
    last =
        ap (λ k. get_or whole k 0) {y = suc (suc (length body))} (omega arith)
        ∙ get_or-append (cmd ∷ length body ∷ body) ((total (cmd ∷ length body ∷ body) % 256) ∷ []) 0

-- Settings that meet the rules come through whole: the parse of their packet returns 0 with the
-- SSID and the passphrase.
pub improv_parse-wifi :
    (ssid pass : List ℕ) (c : ImprovCmd)
    → IsSettings ssid pass
    → improv_parse (packet cmd_wifi (wifi_data ssid pass)) c
      ≡ (0, record { cmd = cmd_wifi; ssid = ssid; pass = pass })
improv_parse-wifi ssid pass c v =
    improv_parse-packet cmd_wifi (wifi_data ssid pass) c
    ∙ parse_wifi-wifi_data ssid pass (record c { cmd = cmd_wifi }) v
