-- ===== src/BleHa/Hci/Reports.antt =====
-- The advertising reports of an event, read back from their encoding.
use esp32_s31_linux.Common.{
  ℕ, zero, suc, ◌+◌, ◌/◌, ◌%◌, ◌^◌, ◌≤◌, ◌<◌, ◌≡◌, refl, ap, ◌∙◌, sym, arith, List, [], ◌∷◌, ◌++◌,
  length, drop, get_or, length-append, All, IsByte, get_or-append, take-append, drop-append,
  length-drop,
}
use esp32_s31_linux.BleHa.Api.{Adv}
use esp32_s31_linux.BleHa.Hci.{reports_loop, report_at, addr_loop, hci_parse_adv_reports, adv_max}

-- The limits of `struct adv`.
pub record IsReport (a : Adv) : Type 0 where
  pub addr_bits : a.addr < 2 ^ 48
  pub type_byte : IsByte a.addr_type
  pub rssi_byte : IsByte a.rssi
  pub payload_fits : length a.payload ≤ adv_max

-- The bytes of one report as the Bluetooth specification has them, with an event type of 0, before
-- the bytes behind it.
abbrev pub report_bytes : Adv → List ℕ → List ℕ
report_bytes a post =
    0
    ∷ a.addr_type
    ∷ (a.addr % 256)
    ∷ (a.addr / 256 % 256)
    ∷ (a.addr / 65536 % 256)
    ∷ (a.addr / 16777216 % 256)
    ∷ (a.addr / 4294967296 % 256)
    ∷ (a.addr / 1099511627776 % 256)
    ∷ (length a.payload)
    ∷ (a.payload ++ (a.rssi ∷ post))

abbrev pub reports_bytes : List Adv → List ℕ
reports_bytes [] = []
reports_bytes (a ∷ ads) = report_bytes a (reports_bytes ads)

abbrev pub adv_event : ℕ → List Adv → List ℕ
adv_event len ads = 0x3e ∷ len ∷ 0x02 ∷ length ads ∷ reports_bytes ads

suc_shift : (n k : ℕ) → suc n + k ≡ suc (n + k)
suc_shift n k = omega arith

zero_shift : (k : ℕ) → 0 + k ≡ k
zero_shift k = omega arith

get_or-skip : (xs : List ℕ) (n k d : ℕ) → get_or xs (n + k) d ≡ get_or (drop n xs) k d
get_or-skip xs zero k d = ap (λ i. get_or xs i d) (zero_shift k)
get_or-skip [] (suc n) k d = refl
get_or-skip (x ∷ xs) (suc n) k d =
    ap (λ i. get_or (x ∷ xs) i d) (suc_shift n k) ∙ get_or-skip xs n k d

drop_nil : (k : ℕ) → drop {A = ℕ} k [] ≡ []
drop_nil zero = refl
drop_nil (suc k) = refl

drop-skip : (xs : List ℕ) (n k : ℕ) → drop (n + k) xs ≡ drop k (drop n xs)
drop-skip xs zero k = ap (λ i. drop i xs) (zero_shift k)
drop-skip [] (suc n) k = drop_nil (suc n + k) ∙ sym (drop_nil k)
drop-skip (x ∷ xs) (suc n) k = ap (λ i. drop i (x ∷ xs)) (suc_shift n k) ∙ drop-skip xs n k

drop-report_bytes :
    (a : Adv) (post : List ℕ) → drop (9 + (length a.payload + 1)) (report_bytes a post) ≡ post
drop-report_bytes a post =
    drop-skip (report_bytes a post) 9 (length a.payload + 1)
    ∙ (drop-skip (a.payload ++ (a.rssi ∷ post)) (length a.payload) 1
        ∙ ap (λ xs. drop 1 xs) (drop-append a.payload (a.rssi ∷ post)))

addr_loop-skip :
    (i : ℕ) (xs : List ℕ) (n k : ℕ) → addr_loop i xs (n + k) ≡ addr_loop i (drop n xs) k
unfolding addr_loop
addr_loop-skip zero xs n k = refl
addr_loop-skip (suc i) xs n k =
    let next : addr_loop i xs (n + k + 1) ≡ addr_loop i (drop n xs) (k + 1) =
      ap (λ j. addr_loop i xs j) (omega arith) ∙ addr_loop-skip i xs n (k + 1) in
    rw (get_or-skip xs n k 0, next)

addr_loop-report_bytes :
    (a : Adv) (post : List ℕ) → IsReport a → addr_loop 6 (report_bytes a post) 2 ≡ a.addr
unfolding addr_loop
addr_loop-report_bytes a post r = omega (arith, r.addr_bits)

rssi-report_bytes :
    (a : Adv) (post : List ℕ) → get_or (report_bytes a post) (9 + length a.payload) 0 ≡ a.rssi
rssi-report_bytes a post =
    get_or-skip (report_bytes a post) 9 (length a.payload) 0
    ∙ get_or-append a.payload (a.rssi ∷ post) 0

report_at-report_bytes :
    (ev : List ℕ) (n : ℕ) (a : Adv) (post : List ℕ)
    → IsReport a
    → drop n ev ≡ report_bytes a post
    → report_at ev n ≡ a
unfolding report_at
report_at-report_bytes ev n a post r e =
    let len : get_or ev (n + 8) 0 ≡ length a.payload = get_or-skip ev n 8 0 ∙ rw e in
    let addr : addr_loop 6 ev (n + 2) ≡ a.addr =
      addr_loop-skip 6 ev n 2 ∙ (ap (λ xs. addr_loop 6 xs 2) e ∙ addr_loop-report_bytes a post r) in
    let type : get_or ev (n + 1) 0 ≡ a.addr_type = get_or-skip ev n 1 0 ∙ rw e in
    let at : n + 9 + length a.payload ≡ n + (9 + length a.payload) = omega arith in
    let rssi : get_or ev (n + 9 + length a.payload) 0 ≡ a.rssi =
      ap (λ i. get_or ev i 0) at
      ∙ (get_or-skip ev n (9 + length a.payload) 0
          ∙ (ap (λ xs. get_or xs (9 + length a.payload) 0) e ∙ rssi-report_bytes a post)) in
    let bytes : drop (n + 9) ev ≡ a.payload ++ (a.rssi ∷ post) = drop-skip ev n 9 ∙ rw e in
    rw (len, addr, type, rssi, bytes, take-append a.payload (a.rssi ∷ post))

reports_loop-reports_bytes :
    (ads : List Adv) (ev : List ℕ) (n : ℕ)
    → All IsReport ads
    → drop n ev ≡ reports_bytes ads
    → n ≤ length ev
    → reports_loop (length ads) ev n ≡ ads
unfolding reports_loop
reports_loop-reports_bytes [] ev n h e k = refl
reports_loop-reports_bytes (a ∷ ads) ev n (r, h) e k =
    let post = reports_bytes ads in
    let len : get_or ev (n + 8) 0 ≡ length a.payload = get_or-skip ev n 8 0 ∙ rw e in
    let size : length ev ≡ n + (10 + length a.payload + length post) =
      omega (arith, length-drop n ev, ap length e, length-append a.payload (a.rssi ∷ post)) in
    let at : n + 10 + length a.payload ≡ n + (9 + (length a.payload + 1)) = omega arith in
    let rest : drop (n + 10 + length a.payload) ev ≡ post =
      ap (λ i. drop i ev) at
      ∙ (drop-skip ev n (9 + (length a.payload + 1))
          ∙ (ap (λ xs. drop (9 + (length a.payload + 1)) xs) e ∙ drop-report_bytes a post)) in
    let ih =
      reports_loop-reports_bytes ads ev (n + 10 + length a.payload) h rest (omega (arith, size)) in
    ground (arith, len, size, ih, report_at-report_bytes ev n a post r e)

-- The parser gives back every report of an event that holds up to `max` of them, within the limits
-- of `struct adv`, in order.
pub hci_parse_adv_reports-adv_event :
    (ads : List Adv) (len max : ℕ)
    → All IsReport ads
    → length ads ≤ max
    → hci_parse_adv_reports (adv_event len ads) max ≡ ads
unfolding hci_parse_adv_reports
hci_parse_adv_reports-adv_event ads len max h k =
    ground (arith, reports_loop-reports_bytes ads (adv_event len ads) 4 h refl)
