-- ===== src/BleHa/Api/Batch.antt =====
-- The sizes of the advertisement messages, against the buffers that the program gives them.
use esp32_s31_linux.Common.{
  ℕ, suc, ◌+◌, ◌*◌, ◌^◌, ◌≤◌, ◌<◌, arith, List, [], ◌∷◌, ◌++◌, length, length-append, All,
}
use esp32_s31_linux.BleHa.Api.{
  Adv, pb_varint, pb_key, pb_uint, pb_bytes, zigzag, adv_message, api_adv_batch,
}
use esp32_s31_linux.BleHa.Api.Varint.{length-varint_loop}

-- An advertisement as `hci_parse_adv_reports` makes it, with an address type of one varint byte;
-- the controller gives 0 to 3.
pub record IsAdv (a : Adv) : Type 0 where
  pub addr_bits : a.addr < 2 ^ 48
  pub type_bits : a.addr_type < 128
  pub rssi_byte : a.rssi < 256
  pub payload_fits : length a.payload ≤ 31

length-pb_varint : (k v : ℕ) → v < 128 ^ suc k → length (pb_varint v) ≤ suc k
unfolding pb_varint
length-pb_varint k v h = length-varint_loop 10 k v h

length-pb_key : (field wire : ℕ) → field * 8 + wire < 128 → length (pb_key field wire) ≤ 1
unfolding pb_key
length-pb_key field wire h = length-pb_varint 0 (field * 8 + wire) (omega arith)

length-pb_uint :
    (field k v : ℕ) → field * 8 < 128 → v < 128 ^ suc k → length (pb_uint field v) ≤ suc (suc k)
unfolding pb_uint
length-pb_uint field k v h hv = ground (
  arith,
  length-append (pb_key field 0) (pb_varint v),
  length-pb_key field 0 (omega arith),
  length-pb_varint k v hv,
)

length-pb_bytes :
    (field : ℕ) (bytes : List ℕ)
    → field * 8 + 2 < 128
    → length bytes < 128
    → length (pb_bytes field bytes) ≤ length bytes + 2
unfolding pb_bytes
length-pb_bytes field bytes h hb = ground (
  arith,
  length-append (pb_key field 2) (pb_varint (length bytes) ++ bytes),
  length-append (pb_varint (length bytes)) bytes,
  length-pb_key field 2 h,
  length-pb_varint 0 (length bytes) (omega arith),
)

zigzag-lt : (r : ℕ) → r < 256 → zigzag r < 256
unfolding zigzag
zigzag-lt r h = ground arith

-- One advertisement fits `sub[64]`.
pub length-adv_message : (a : Adv) → IsAdv a → length (adv_message a) ≤ 46
unfolding adv_message
length-adv_message a v = omega (
  arith,
  length-append (pb_uint 1 a.addr)
      (pb_uint 2 (zigzag a.rssi) ++ (pb_uint 3 a.addr_type ++ pb_bytes 4 a.payload)),
  length-append (pb_uint 2 (zigzag a.rssi)) (pb_uint 3 a.addr_type ++ pb_bytes 4 a.payload),
  length-append (pb_uint 3 a.addr_type) (pb_bytes 4 a.payload),
  length-pb_uint 1 6 a.addr (omega arith) (omega arith),
  length-pb_uint 2 1 (zigzag a.rssi) (omega arith) (omega (arith, zigzag-lt a.rssi v.rssi_byte)),
  length-pb_uint 3 0 a.addr_type (omega arith) (omega arith),
  length-pb_bytes 4 a.payload (omega arith) (omega arith),
)

-- A batch of advertisements, each with an address type below 128, takes at most 48 bytes for each:
-- `msg[ADV_BATCH * 48]` is enough for a full batch.
pub length-api_adv_batch :
    (ads : List Adv) → All IsAdv ads → length (api_adv_batch ads) ≤ length ads * 48
unfolding api_adv_batch
length-api_adv_batch [] h = omega arith
length-api_adv_batch (a ∷ ads) (v, h) = omega (
  arith,
  length-append (pb_key 1 2)
      (pb_varint (length (adv_message a)) ++ (adv_message a ++ api_adv_batch ads)),
  length-append (pb_varint (length (adv_message a))) (adv_message a ++ api_adv_batch ads),
  length-append (adv_message a) (api_adv_batch ads),
  length-pb_key 1 2 (omega arith),
  length-pb_varint 0 (length (adv_message a)) (omega (arith, length-adv_message a v)),
  length-adv_message a v,
  length-api_adv_batch ads h,
)
