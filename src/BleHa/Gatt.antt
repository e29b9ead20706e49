-- ===== src/BleHa/Gatt.antt =====
-- tools/ble-ha/gatt.c: the ATT server with its fixed database. A response is the list of its
-- bytes, empty for none. `W` is the state of the program that the callback `rpc_write` works on,
-- with the server in it.
pub mod Database
pub mod Handle
pub mod Bounds
pub mod Invariant
pub mod Reply
use esp32_s31_linux.Common.{
  ℕ, zero, suc, ◌+◌, ◌-◌, ◌*◌, ◌/◌, ◌%◌, ◌≤◌, List, [], ◌∷◌, ◌++◌, length, Option, none, some, Bool,
  true, false, ◌&&◌, ◌||◌, not, ltb, leb, ◌==◌, if◌then◌else◌, take, drop, get_or, min,
}
use Prim.Native.Nat.{bit_and}
use esp32_s31_linux.BleHa.Gatt.Database.{
  Kind, svc, decl, value, cccd, Attr, db, last_handle, attr_type, bytes_eq, u16,
}

-- `struct gatt`; `result` and `prep` are the bytes in use.
pub record Gatt : Type 0 where
  pub name : List ℕ
  pub state : ℕ
  pub error : ℕ
  pub caps : ℕ
  pub result : List ℕ
  pub cccd_state : ℕ
  pub cccd_error : ℕ
  pub cccd_result : ℕ
  pub mtu : ℕ
  pub mtu_max : ℕ
  pub prep : List ℕ

abbrev pub err_invalid_handle : ℕ
err_invalid_handle = 0x01

abbrev pub err_read_not_perm : ℕ
err_read_not_perm = 0x02

abbrev pub err_write_not_perm : ℕ
err_write_not_perm = 0x03

abbrev pub err_not_supported : ℕ
err_not_supported = 0x06

abbrev pub err_invalid_offset : ℕ
err_invalid_offset = 0x07

abbrev pub err_queue_full : ℕ
err_queue_full = 0x09

abbrev pub err_not_found : ℕ
err_not_found = 0x0a

abbrev pub err_invalid_len : ℕ
err_invalid_len = 0x0d

abbrev pub rpc_value : ℕ
rpc_value = 14

abbrev pub prep_size : ℕ
prep_size = 128

unfoldable pub gatt_init : List ℕ → ℕ → Gatt
gatt_init name caps = record {
  name = name;
  state = 0x02;
  error = 0;
  caps = caps;
  result = [];
  cccd_state = 0;
  cccd_error = 0;
  cccd_result = 0;
  mtu = 23;
  mtu_max = 23;
  prep = [];
}

-- The word of the CCCD at a handle, if `cccd_index` has one.
unfoldable pub get_cccd : Gatt → ℕ → Option ℕ
get_cccd g h =
    if h == 9
    then some g.cccd_state
    else if h == 12
    then some g.cccd_error
    else if h == 17
    then some g.cccd_result
    else none

unfoldable pub set_cccd : Gatt → ℕ → ℕ → Gatt
set_cccd g h v =
    if h == 9
    then record g { cccd_state = v }
    else if h == 12
    then record g { cccd_error = v }
    else if h == 17
    then record g { cccd_result = v }
    else g

unfoldable pub gatt_notify_enabled : Gatt → ℕ → Bool
gatt_notify_enabled g value_handle = elim (get_cccd g (value_handle + 1)) [
  | none ↦ false
  | some v ↦ v % 2 == 1
]

-- The value of an attribute, or the ERR_* code.
pub data Value : Type 0 where
  bytes : List ℕ → Value
  refused : ℕ → Value

unfoldable pub char_value : Gatt → ℕ → Value
char_value g h =
    if h == 3
    then bytes g.name
    else if h == 5
    then bytes (0 ∷ 0 ∷ [])
    else if h == 8
    then bytes (g.state ∷ [])
    else if h == 11
    then bytes (g.error ∷ [])
    else if h == 16
    then bytes g.result
    else if h == 19
    then bytes (g.caps ∷ [])
    else refused err_read_not_perm

unfoldable pub kind_value : Gatt → ℕ → Attr → Kind → Value
kind_value g h a svc = bytes a.uuid
kind_value g h a decl = bytes (a.props ∷ (u16 (h + 1) ++ a.uuid))
kind_value g h a cccd = elim (get_cccd g h) [ none ↦ bytes (u16 0) | some v ↦ bytes (u16 v) ]
kind_value g h a value = char_value g h

unfoldable pub attr_value : Gatt → ℕ → Value
attr_value g h =
    if ltb h 1 || ltb last_handle h
    then refused err_invalid_handle
    else kind_value g h (db h) (db h).kind

unfoldable pub error_rsp : ℕ → ℕ → ℕ → List ℕ
error_rsp op h err = 0x01 ∷ op ∷ (u16 h ++ (err ∷ []))

unfoldable pub get16 : List ℕ → ℕ → ℕ
get16 p i = get_or p i 0 + 256 * get_or p (i + 1) 0

-- The loop of `group_end`, with the handles left.
unfoldable pub group_loop : ℕ → ℕ → ℕ
group_loop zero e = e - 1
group_loop (suc n) e =
    let next = group_loop n (e + 1) in
    if leb e last_handle then elim (db e).kind [ svc ↦ e - 1 | _ ↦ next ] else e - 1

unfoldable pub group_end : ℕ → ℕ
group_end h = group_loop last_handle (h + 1)

-- How the loop of `read_by_type` ends: with the entries and their length, or with an error.
pub data Entries : Type 0 where
  entries : List ℕ → ℕ → Entries
  failed : ℕ → ℕ → Entries

module _ (g : Gatt) (group : Bool) (want : List ℕ) (end max : ℕ) where
  abbrev entry_bytes : ℕ → List ℕ → List ℕ
  entry_bytes h v = if group then u16 h ++ (u16 (group_end h) ++ v) else u16 h ++ v

  -- What a value does: `more` goes on with the new entries.
  unfoldable pub type_entry : (List ℕ → ℕ → Entries) → ℕ → List ℕ → ℕ → Value → Entries
  type_entry more h out entry (refused e) = if entry == 0 then failed h e else entries out entry
  type_entry more h out entry (bytes v) =
      let el = (if group then 4 else 2) + length v in
      if not (entry == 0) && not (el == entry)
      then entries out entry
      else if ltb max (2 + length out + el)
      then entries out entry
      else more (out ++ entry_bytes h v) el

  -- The handles left, `h`, the bytes behind the two of the header, and `entry`.
  unfoldable pub type_loop : ℕ → ℕ → List ℕ → ℕ → Entries
  type_loop zero h out entry = entries out entry
  type_loop (suc n) h out entry =
      let skip = type_loop n (h + 1) out entry in
      let take_it = type_entry (λ o e. type_loop n (h + 1) o e) h out entry (attr_value g h) in
      if ltb end h || ltb last_handle h
      then entries out entry
      else if bytes_eq (attr_type h) want
      then take_it
      else skip

unfoldable pub type_response : ℕ → ℕ → Entries → List ℕ
type_response op start (failed h e) = error_rsp op h e
type_response op start (entries out entry) =
    if entry == 0 then error_rsp op start err_not_found else ((op + 1) % 256) ∷ (entry % 256) ∷ out

unfoldable pub read_by_type : Gatt → List ℕ → ℕ → List ℕ
read_by_type g req max =
    let op = get_or req 0 0 in
    let start = get16 req 1 in
    let end = get16 req 3 in
    let wl = length req - 5 in
    let odd = not (wl == 2) && not (wl == 16) in
    if odd || start == 0 || ltb end start
    then error_rsp op start (if odd then err_invalid_len else err_invalid_handle)
    else type_response op start
        (type_loop g (op == 0x10) (drop 5 req) end max (suc last_handle - start) start [] 0)

module _ (end max : ℕ) where
  -- The handles left, `h`, the bytes behind the header, and `tl`.
  unfoldable pub info_loop : ℕ → ℕ → List ℕ → ℕ → List ℕ × ℕ
  info_loop zero h out tl = (out, tl)
  info_loop (suc n) h out tl =
      let l = length (attr_type h) in
      let more = info_loop n (h + 1) (out ++ (u16 h ++ attr_type h)) l in
      if ltb end h || ltb last_handle h
      then (out, tl)
      else if not (tl == 0) && not (l == tl) || ltb max (2 + length out + 2 + l)
      then (out, tl)
      else more

unfoldable pub find_info : List ℕ → ℕ → List ℕ
find_info req max =
    let op = get_or req 0 0 in
    let start = get16 req 1 in
    let end = get16 req 3 in
    let (out, tl) = info_loop end max (suc last_handle - start) start [] 0 in
    if start == 0 || ltb end start
    then error_rsp op start err_invalid_handle
    else if tl == 0
    then error_rsp op start err_not_found
    else 0x05 ∷ (if tl == 2 then 1 else 2) ∷ out

module _ (want : List ℕ) (kind16 end max : ℕ) where
  abbrev is_service : ℕ → Bool
  is_service h = elim (db h).kind [ svc ↦ true | _ ↦ false ]

  unfoldable pub value_loop : ℕ → ℕ → List ℕ → List ℕ
  value_loop zero h out = out
  value_loop (suc n) h out =
      let fits =
        kind16 == 0x2800
        && is_service h
        && bytes_eq (db h).uuid want
        && leb (1 + length out + 4) max in
      let more = value_loop n (h + 1) (if fits then out ++ (u16 h ++ u16 (group_end h)) else out) in
      if ltb end h || ltb last_handle h then out else more

unfoldable pub find_by_value : List ℕ → ℕ → List ℕ
find_by_value req max =
    let op = get_or req 0 0 in
    let start = get16 req 1 in
    let end = get16 req 3 in
    let out = value_loop (drop 7 req) (get16 req 5) end max (suc last_handle - start) start [] in
    if start == 0 || ltb end start
    then error_rsp op start err_invalid_handle
    else if length out == 0
    then error_rsp op start err_not_found
    else 0x07 ∷ out

unfoldable pub value_response : ℕ → ℕ → ℕ → ℕ → Value → List ℕ
value_response op h off max (refused e) = error_rsp op h e
value_response op h off max (bytes v) =
    if ltb (length v) off
    then error_rsp op h err_invalid_offset
    else ((op + 1) % 256) ∷ take (min (length v - off) (max - 1)) (drop off v)

unfoldable pub read_value : Gatt → List ℕ → ℕ → List ℕ
read_value g req max =
    let op = get_or req 0 0 in
    let h = get16 req 1 in
    let off = if op == 0x0c && leb 5 (length req) then get16 req 3 else 0 in
    value_response op h off max (attr_value g h)
