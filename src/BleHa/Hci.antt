-- ===== src/BleHa/Hci.antt =====
-- tools/ble-ha/hci.c: the HCI packets that the daemon reads and writes. An event is the list of its
-- bytes behind the packet type; what a function writes to `buf` is the list of its bytes.
pub mod Reports
use esp32_s31_linux.Common.{
  ℕ, zero, suc, ◌+◌, ◌-◌, ◌*◌, ◌/◌, ◌%◌, List, [], ◌∷◌, ◌++◌, length, Bool, true, false, ◌||◌, not,
  ltb, ◌==◌, if◌then◌else◌, take, drop, get_or, replicate,
}
use esp32_s31_linux.BleHa.Api.{Adv}

abbrev pub adv_max : ℕ
adv_max = 31

abbrev pub improv_uuid : List ℕ
improv_uuid =
    0x00 ∷ 0x80 ∷ 0x26 ∷ 0x78 ∷ 0x74 ∷ 0x27 ∷ 0x63 ∷ 0x46 ∷ 0x72 ∷ 0x22 ∷ 0x28 ∷ 0x62 ∷ 0x68 ∷ 0x77
    ∷ 0x46 ∷ 0x00 ∷ []

-- The loop over the address: `i` bytes from `pos`, the last one the highest.
unfoldable pub addr_loop : ℕ → List ℕ → ℕ → ℕ
addr_loop zero ev pos = 0
addr_loop (suc i) ev pos = get_or ev pos 0 + 256 * addr_loop i ev (pos + 1)

unfoldable pub report_at : List ℕ → ℕ → Adv
report_at ev pos =
    let len = get_or ev (pos + 8) 0 in
    record {
      addr = addr_loop 6 ev (pos + 2);
      addr_type = get_or ev (pos + 1) 0;
      rssi = get_or ev (pos + 9 + len) 0;
      payload = take len (drop (pos + 9) ev);
    }

-- The loop, with the reports left: the smaller of `n` and `max`.
unfoldable pub reports_loop : ℕ → List ℕ → ℕ → List Adv
reports_loop zero ev pos = []
reports_loop (suc n) ev pos =
    let dl = get_or ev (pos + 8) 0 in
    let rest = reports_loop n ev (pos + 10 + dl) in
    if ltb (length ev) (pos + 9) || ltb adv_max dl || ltb (length ev) (pos + 10 + dl)
    then []
    else report_at ev pos ∷ rest

unfoldable pub hci_parse_adv_reports : List ℕ → ℕ → List Adv
hci_parse_adv_reports ev max =
    let n = get_or ev 3 0 in
    let reports = reports_loop (if ltb n max then n else max) ev 4 in
    if ltb (length ev) 4 || not (get_or ev 0 0 == 0x3e) || not (get_or ev 2 0 == 0x02)
    then []
    else reports

unfoldable pub hci_improv_adv_data : ℕ → ℕ → List ℕ
hci_improv_adv_data state caps =
    2
    ∷ 0x01
    ∷ 0x06
    ∷ 17
    ∷ 0x07
    ∷ (improv_uuid ++ (9 ∷ 0x16 ∷ 0x77 ∷ 0x46 ∷ state ∷ caps ∷ replicate 4 0))

unfoldable pub hci_name_data : List ℕ → List ℕ
hci_name_data name =
    let n = if ltb (adv_max - 2) (length name) then adv_max - 2 else length name in
    ((n + 1) % 256) ∷ 0x09 ∷ take n name

unfoldable pub hci_acl_frame : ℕ → ℕ → List ℕ → List ℕ
hci_acl_frame handle cid bytes =
    let len = length bytes in
    let l2 = len + 4 in
    0x02
    ∷ (handle % 256)
    ∷ (handle / 256 % 16)
    ∷ (l2 % 256)
    ∷ (l2 / 256 % 256)
    ∷ (len % 256)
    ∷ (len / 256 % 256)
    ∷ (cid % 256)
    ∷ (cid / 256 % 256)
    ∷ bytes
