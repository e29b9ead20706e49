-- ===== src/BleHa/Improv.antt =====
-- tools/ble-ha/improv.c: the RPC packets of Improv Wi-Fi. A packet is the list of its bytes; a C
-- string is the list of the bytes before its NUL. The return codes are the numbers of ble-ha.h.
pub mod Format
pub mod Parse
use esp32_s31_linux.Common.{
  ℕ, zero, suc, ◌+◌, ◌-◌, ◌%◌, ◌^◌, List, [], ◌∷◌, ◌++◌, length, Bool, true, false, ◌&&◌, ◌||◌, not,
  ltb, leb, ◌==◌, if◌then◌else◌, take, drop, get_or,
}

abbrev pub err_none : ℕ
err_none = 0x00

abbrev pub err_invalid : ℕ
err_invalid = 0x01

abbrev pub err_unknown : ℕ
err_unknown = 0x02

abbrev pub err_connect : ℕ
err_connect = 0x03

abbrev pub err_other : ℕ
err_other = 0xff

abbrev pub incomplete : ℕ
incomplete = 1

abbrev pub cmd_wifi : ℕ
cmd_wifi = 0x01

abbrev pub cmd_identify : ℕ
cmd_identify = 0x02

abbrev pub cmd_info : ℕ
cmd_info = 0x03

-- `struct improv_cmd`
pub record ImprovCmd : Type 0 where
  pub cmd : ℕ
  pub ssid : List ℕ
  pub pass : List ℕ

-- The loop of `checksum`: `sum` is an `unsigned int`.
unfoldable pub sum_loop : ℕ → List ℕ → ℕ
sum_loop sum [] = sum
sum_loop sum (b ∷ bs) = sum_loop ((sum + b) % 2 ^ 32) bs

unfoldable pub checksum : List ℕ → ℕ
checksum p = sum_loop 0 p % 256

unfoldable pub all_printable : List ℕ → Bool
all_printable [] = true
all_printable (b ∷ bs) = if ltb b 0x20 || ltb 0x7e b then false else all_printable bs

unfoldable pub valid_pass : List ℕ → Bool
valid_pass p =
    if not (length p == 0) && (ltb (length p) 8 || ltb 63 (length p))
    then false
    else all_printable p

-- `memchr(p, 0, n)`
unfoldable pub has_nul : List ℕ → Bool
has_nul [] = false
has_nul (b ∷ bs) = b == 0 || has_nul bs

-- The code, and the command with its strings set where the code is 0.
unfoldable pub parse_wifi : List ℕ → ImprovCmd → ℕ × ImprovCmd
parse_wifi d c =
    let len = length d in
    let sl = get_or d 0 0 in
    let pl = get_or d (1 + sl) 0 in
    let ssid = take sl (drop 1 d) in
    let pass = take pl (drop (2 + sl) d) in
    if ltb len 2
    then (err_invalid, c)
    else if sl == 0 || ltb 32 sl || ltb len (1 + sl + 1)
    then (err_invalid, c)
    else if not (2 + sl + pl == len) || not (valid_pass pass) || has_nul ssid
    then (err_invalid, c)
    else (0, record c { ssid = ssid; pass = pass })

unfoldable pub improv_parse : List ℕ → ImprovCmd → ℕ × ImprovCmd
improv_parse buf c =
    let len = length buf in
    let dl = get_or buf 1 0 in
    let c1 = record c { cmd = get_or buf 0 0 } in
    if ltb len 3
    then (incomplete, c)
    else if ltb len (dl + 3)
    then (incomplete, c)
    else if ltb (dl + 3) len || not (checksum (take (dl + 2) buf) == get_or buf (dl + 2) 0)
    then (err_invalid, c)
    else if c1.cmd == cmd_wifi
    then parse_wifi (take dl (drop 2 buf)) c1
    else if c1.cmd == cmd_identify || c1.cmd == cmd_info
    then ((if dl == 0 then 0 else err_invalid), c1)
    else (err_unknown, c1)

-- The strings that `improv_result` puts behind `pos`, each with its length.
unfoldable pub result_strings : ℕ → List (List ℕ) → List ℕ
result_strings pos [] = []
result_strings pos (s ∷ ss) =
    let l = length s in
    let more = (l % 256) ∷ (s ++ result_strings (pos + 1 + l) ss) in
    if ltb 40 l || ltb 60 (pos + 1 + l) then [] else more

-- The bytes of `buf` up to the return value.
unfoldable pub improv_result : ℕ → List (List ℕ) → List ℕ
improv_result cmd ss =
    let strings = result_strings 2 ss in
    let packet = cmd ∷ (length strings % 256) ∷ strings in packet ++ (checksum packet ∷ [])
