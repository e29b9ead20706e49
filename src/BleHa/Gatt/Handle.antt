-- ===== src/BleHa/Gatt/Handle.antt =====
-- `write_value` and `gatt_handle`. `W` is the program's state: `gatt_of` and `with_gatt` are the
-- server in it, and `rpc_write` is the callback, which may change all of it.
use esp32_s31_linux.Common.{
  ℕ, ◌+◌, ◌-◌, ◌%◌, ◌/◌, List, [], ◌∷◌, ◌++◌, length, Option, none, some, Bool, ◌&&◌, ◌||◌, not,
  ltb, leb, ◌==◌, if◌then◌else◌, take, drop, get_or, min,
}
use esp32_s31_linux.BleHa.Gatt.Database.{last_handle, u16}
use esp32_s31_linux.BleHa.Gatt.{
  Gatt, get_cccd, set_cccd, error_rsp, get16, read_by_type, find_info, find_by_value, read_value,
  err_invalid_handle, err_write_not_perm, err_not_supported, err_invalid_offset, err_queue_full,
  err_invalid_len, rpc_value, prep_size,
}

module _ {W : Type 0} (gatt_of : W → Gatt) (with_gatt : W → Gatt → W)
    (rpc_write : W → List ℕ → W) where
  -- A write to a handle that has a CCCD word, and to one that has none.
  unfoldable pub write_cccd : W → ℕ → List ℕ → Option ℕ → ℕ × W
  write_cccd w h v (some old) =
      if not (length v == 2)
      then (err_invalid_len, w)
      else (0, with_gatt w (set_cccd (gatt_of w) h (get16 v 0)))
  write_cccd w h v none =
      if h == rpc_value
      then (0, rpc_write w v)
      else ((if ltb h 1 || ltb last_handle h then err_invalid_handle else err_write_not_perm), w)

  -- The ATT error, or 0, and the state.
  unfoldable pub write_value : W → ℕ → List ℕ → ℕ × W
  write_value w h v = write_cccd w h v (get_cccd (gatt_of w) h)

  -- Exchange MTU
  unfoldable pub exchange_mtu : W → List ℕ → List ℕ × W
  exchange_mtu w req =
      let g = gatt_of w in
      let wish = min (get16 req 1) g.mtu_max in
      if ltb (length req) 3
      then (error_rsp 0x02 0 err_invalid_len, w)
      else (0x03 ∷ u16 g.mtu_max, with_gatt w (record g { mtu = if ltb wish 23 then 23 else wish }))

  -- Write Request
  unfoldable pub write_request : W → List ℕ → List ℕ × W
  write_request w req =
      let h = get16 req 1 in
      let (err, w') = write_value w h (drop 3 req) in
      if ltb (length req) 3
      then (error_rsp 0x12 0 err_invalid_len, w)
      else if not (err == 0)
      then (error_rsp 0x12 h err, w')
      else (0x13 ∷ [], w')

  -- Write Command
  unfoldable pub write_command : W → List ℕ → List ℕ × W
  write_command w req =
      let (err, w') = write_value w (get16 req 1) (drop 3 req) in
      if leb 3 (length req) then ([], w') else ([], w)

  -- Prepare Write: only the RPC command, in order. The echo is cut at `room`.
  unfoldable pub prepare_write : W → List ℕ → ℕ → List ℕ × W
  prepare_write w req room =
      let g = gatt_of w in
      let h = get16 req 1 in
      if ltb (length req) 5
      then (error_rsp 0x16 0 err_invalid_len, w)
      else if not (h == rpc_value)
      then (error_rsp 0x16 h err_write_not_perm, w)
      else if not (get16 req 3 == length g.prep)
      then (error_rsp 0x16 h err_invalid_offset, w)
      else if ltb prep_size (length g.prep + length req - 5)
      then (error_rsp 0x16 h err_queue_full, w)
      else (
        0x17 ∷ drop 1 (take (min (length req) room) req),
        with_gatt w (record g { prep = g.prep ++ drop 5 req }),
      )

  -- Execute Write: the prepared bytes are cleared after the callback.
  unfoldable pub execute_write : W → List ℕ → List ℕ × W
  execute_write w req =
      let g = gatt_of w in
      let run = leb 2 (length req) && (get_or req 1 0 == 1 && not (length g.prep == 0)) in
      let w' = if run then rpc_write w g.prep else w in
      (0x19 ∷ [], with_gatt w' (record (gatt_of w') { prep = [] }))

  abbrev pub guarded : List ℕ → Bool → List ℕ → List ℕ
  guarded req ok rsp = if ok then rsp else error_rsp (get_or req 0 0) 0 err_invalid_len

  unfoldable pub gatt_handle : W → List ℕ → ℕ → List ℕ × W
  gatt_handle w [] room = ([], w)
  gatt_handle w (op ∷ body) room0 =
      let g = gatt_of w in
      let req = op ∷ body in
      let len = length req in
      let room = if ltb g.mtu room0 then g.mtu else room0 in
      if op == 0x02
      then exchange_mtu w req
      else if op == 0x04
      then (guarded req (len == 5) (find_info req room), w)
      else if op == 0x06
      then (guarded req (leb 7 len) (find_by_value req room), w)
      else if op == 0x08 || op == 0x10
      then (guarded req (leb 7 len) (read_by_type g req room), w)
      else if op == 0x0a || op == 0x0c
      then (guarded req (leb 3 len) (read_value g req room), w)
      else if op == 0x12
      then write_request w req
      else if op == 0x52
      then write_command w req
      else if op == 0x16
      then prepare_write w req room
      else if op == 0x18
      then execute_write w req
      else if op == 0x1e
      then ([], w)
      else ((if op / 64 % 2 == 1 then [] else error_rsp op 0 err_not_supported), w)
