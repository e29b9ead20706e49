-- ===== src/BleHa/Api.antt =====
-- tools/ble-ha/api.c: the messages and plaintext frames of the ESPHome native API. What a function
-- writes to `p` is the list of its bytes; its return value is the length of the list. Where bits
-- are put beside bits that are clear, `|` is a sum.
pub mod Varint
pub mod Frames
pub mod Batch
use esp32_s31_linux.Common.{
  ℕ, zero, suc, ◌+◌, ◌-◌, ◌*◌, ◌/◌, ◌%◌, ◌^◌, List, [], ◌∷◌, ◌++◌, length, Option, none, some, Bool,
  true, false, ltb, ◌==◌, if◌then◌else◌, take, drop, not,
}

-- `struct adv`: the RSSI as the byte of its `int8_t`, the data cut at its length.
pub record Adv : Type 0 where
  pub addr : ℕ
  pub addr_type : ℕ
  pub rssi : ℕ
  pub payload : List ℕ

-- `struct api_info`; a NULL string is `none`.
pub record ApiInfo : Type 0 where
  pub name : Option (List ℕ)
  pub mac : Option (List ℕ)
  pub bt_mac : Option (List ℕ)
  pub model : Option (List ℕ)

-- The `do` loop on a `uint64_t`; each round takes seven bits, so ten rounds are enough.
unfoldable pub varint_loop : ℕ → ℕ → List ℕ
varint_loop zero v = []
varint_loop (suc fuel) v =
    let rest = varint_loop fuel (v / 128) in
    (v % 128 + (if ltb 0x7f v then 0x80 else 0)) ∷ (if v / 128 == 0 then [] else rest)

unfoldable pub pb_varint : ℕ → List ℕ
pb_varint v = varint_loop 10 v

unfoldable pub pb_key : ℕ → ℕ → List ℕ
pb_key field wire = pb_varint (field * 8 + wire)

unfoldable pub pb_uint : ℕ → ℕ → List ℕ
pb_uint field v = if v == 0 then [] else pb_key field 0 ++ pb_varint v

unfoldable pub pb_bytes : ℕ → List ℕ → List ℕ
pb_bytes field bytes =
    if length bytes == 0 then [] else pb_key field 2 ++ (pb_varint (length bytes) ++ bytes)

unfoldable pub pb_str : ℕ → Option (List ℕ) → List ℕ
pb_str field none = []
pb_str field (some s) = pb_bytes field s

unfoldable pub api_frame : ℕ → List ℕ → List ℕ
api_frame type msg = 0x00 ∷ (pb_varint (length msg) ++ (pb_varint type ++ msg))

-- The texts are arguments: `"ble-ha (ESP32-S31 Linux)"`.
unfoldable pub api_hello : List ℕ → ApiInfo → List ℕ
api_hello server info =
    pb_uint 1 1 ++ (pb_uint 2 10 ++ (pb_str 3 (some server) ++ pb_str 4 info.name))

-- PROXY_FEATURES is bit 0 and bit 5; the texts are ESPHOME_VERSION, the project, its version and
-- the manufacturer.
unfoldable pub api_device_info : List ℕ → List ℕ → List ℕ → List ℕ → ApiInfo → List ℕ
api_device_info esphome project project_version manufacturer info =
    pb_str 2 info.name
    ++ (pb_str 3 info.mac
        ++ (pb_str 4 (some esphome)
            ++ (pb_str 6 info.model
                ++ (pb_str 8 (some project)
                    ++ (pb_str 9 (some project_version)
                        ++ (pb_str 12 (some manufacturer)
                            ++ (pb_str 13 info.name
                                ++ (pb_uint 15 33 ++ pb_str 18 info.bt_mac))))))))

-- The zigzag of an `int8_t` as a `uint32_t`: twice the value, or its complement below zero.
unfoldable pub zigzag : ℕ → ℕ
zigzag rssi = if ltb rssi 128 then 2 * rssi else 2 * (256 - rssi) - 1

unfoldable pub adv_message : Adv → List ℕ
adv_message a =
    pb_uint 1 a.addr
    ++ (pb_uint 2 (zigzag a.rssi) ++ (pb_uint 3 a.addr_type ++ pb_bytes 4 a.payload))

unfoldable pub api_adv_batch : List Adv → List ℕ
api_adv_batch [] = []
api_adv_batch (a ∷ ads) =
    pb_key 1 2 ++ (pb_varint (length (adv_message a)) ++ (adv_message a ++ api_adv_batch ads))

-- The return values 0 and -1 of `read_varint`, and 1 with the value and the bytes from `*pos` on.
pub data VarintResult : Type 0 where
  short : VarintResult
  bad : VarintResult
  value : ℕ → List ℕ → VarintResult

-- The rounds left, `shift`, and the `uint32_t` so far.
unfoldable pub read_loop : ℕ → ℕ → ℕ → List ℕ → VarintResult
read_loop zero shift v p = bad
read_loop (suc rounds) shift v [] = short
read_loop (suc rounds) shift v (b ∷ p) =
    let v' = v + b % 128 * 2 ^ shift % 2 ^ 32 in
    let more = read_loop rounds (shift + 7) v' p in if ltb b 128 then value v' p else more

unfoldable pub read_varint : List ℕ → VarintResult
read_varint p = read_loop 5 0 0 p

-- The result of `api_next`: 0, -1, or the length of the frame with its type and payload.
pub data Next : Type 0 where
  need_more : Next
  broken : Next
  message : ℕ → ℕ → List ℕ → Next

unfoldable pub next_payload : ℕ → ℕ → ℕ → List ℕ → Next
next_payload len n type rest =
    if ltb 4096 n
    then broken
    else if ltb (length rest) n
    then need_more
    else message (len - length rest + n) type (take n rest)

unfoldable pub next_type : ℕ → ℕ → VarintResult → Next
next_type len n short = need_more
next_type len n bad = broken
next_type len n (value type rest) = next_payload len n type rest

unfoldable pub next_length : ℕ → VarintResult → Next
next_length len short = need_more
next_length len bad = broken
next_length len (value n rest) = next_type len n (read_varint rest)

unfoldable pub api_next : List ℕ → Next
api_next [] = need_more
api_next (b ∷ p) = if b == 0x00 then next_length (length (b ∷ p)) (read_varint p) else broken
