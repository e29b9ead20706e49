-- ===== src/BleHa/Gatt/Reply.antt =====
-- The size of the response to any request.
use esp32_s31_linux.Common.{
  ℕ, ◌≤◌, ◌≡◌, arith, List, [], ◌∷◌, length, ltb, leb, ◌==◌, if◌then◌else◌, take, drop, min,
  length-take, length-drop, if_elim, ◌||◌, ◌/◌, ◌%◌,
}
use esp32_s31_linux.BleHa.Gatt.{Gatt, error_rsp, read_value, get16}
use esp32_s31_linux.BleHa.Gatt.Invariant.{IsServer}
use esp32_s31_linux.BleHa.Gatt.Bounds.{
  length-error_rsp, length-u16, length-read_by_type, length-find_info, length-find_by_value,
  length-value_response,
}
use esp32_s31_linux.BleHa.Gatt.Handle.{
  write_value, exchange_mtu, write_request, write_command, prepare_write, execute_write,
  gatt_handle,
}

module _ {W : Type 0} (gatt_of : W → Gatt) (with_gatt : W → Gatt → W)
    (rpc_write : W → List ℕ → W) where
  length-prepare_write :
      (w : W) (req : List ℕ) (room : ℕ)
      → 5 ≤ room
      → length ((prepare_write gatt_of with_gatt rpc_write w req room).0) ≤ room
  unfolding prepare_write
  length-prepare_write w req room k = ground (
    arith,
    length-error_rsp 22 0 13,
    length-error_rsp 22 (get16 req 1) 3,
    length-error_rsp 22 (get16 req 1) 7,
    length-error_rsp 22 (get16 req 1) 9,
    length-drop 1 (take (min (length req) room) req),
    length-take (min (length req) room) req,
  )

  length-exchange_mtu :
      (w : W) (req : List ℕ) → length ((exchange_mtu gatt_of with_gatt rpc_write w req).0) ≤ 5
  unfolding exchange_mtu
  length-exchange_mtu w req =
      ground (arith, length-error_rsp 2 0 13, length-u16 ((gatt_of w).mtu_max))

  length-write_request :
      (w : W) (req : List ℕ) → length ((write_request gatt_of with_gatt rpc_write w req).0) ≤ 5
  unfolding write_request
  length-write_request w req =
      let h = get16 req 1 in
      ground (
        arith,
        length-error_rsp 18 0 13,
        length-error_rsp 18 h ((write_value gatt_of with_gatt rpc_write w h (drop 3 req)).0),
      )

  length-write_command :
      (w : W) (req : List ℕ) → length ((write_command gatt_of with_gatt rpc_write w req).0) ≤ 5
  unfolding write_command
  length-write_command w req = ground arith

  length-execute_write :
      (w : W) (req : List ℕ) → length ((execute_write gatt_of with_gatt rpc_write w req).0) ≤ 5
  unfolding execute_write
  length-execute_write w req = omega arith

  length-read_value :
      (g : Gatt) (req : List ℕ) (room : ℕ) → 5 ≤ room → length (read_value g req room) ≤ room
  unfolding read_value
  length-read_value g req room k = length-value_response _ _ _ room _ k

  -- With a server that is well formed and a room of 23 bytes or more, the response to any request
  -- fits the room and the MTU.
  pub length-gatt_handle :
      (w : W) (req : List ℕ) (room : ℕ)
      → IsServer (gatt_of w)
      → 23 ≤ room
      → length ((gatt_handle gatt_of with_gatt rpc_write w req room).0) ≤ min room ((gatt_of w).mtu)
  unfolding gatt_handle
  length-gatt_handle w [] room i k = omega arith
  length-gatt_handle w (op ∷ body) room0 i k =
      let g = gatt_of w in
      let req = op ∷ body in
      let len = length req in
      let room = if ltb g.mtu room0 then g.mtu else room0 in
      let most = min room0 g.mtu in
      let same : room ≡ most = ground arith in
      let big : 23 ≤ room = ground arith in
      let short : (n : ℕ) → n ≤ 5 → n ≤ most = λ n l. ground arith in
      let P = λ (r : List ℕ × W). length (r.0) ≤ most in
      let Q = λ (r : List ℕ). length r ≤ most in
      let bad : (c e : ℕ) → length (error_rsp c 0 e) ≤ most =
        λ c e. short _ (ground (arith, length-error_rsp c 0 e)) in
      if_elim P (op == 2) _ _ (short _ (length-exchange_mtu w req)) (
        if_elim P (op == 4) _ _
          (if_elim Q (len == 5) _ _ (ground (arith, same, length-find_info req room)) (bad op _))
          (if_elim P (op == 6) _ _
            (if_elim Q (leb 7 len) _ _ (ground (arith, same, length-find_by_value req room))
              (bad op _))
            (if_elim P (op == 8 || op == 16) _ _
              (if_elim Q (leb 7 len) _ _ (ground (arith, same, length-read_by_type g req room))
                (bad op _))
              (if_elim P (op == 10 || op == 12) _ _
                (if_elim Q (leb 3 len) _ _ (ground (arith, same, length-read_value g req room))
                  (bad op _))
                (if_elim P (op == 18) _ _ (short _ (length-write_request w req)) (
                  if_elim P (op == 82) _ _ (short _ (length-write_command w req)) (
                    if_elim P (op == 22) _ _ (ground (arith, same, length-prepare_write w req room))
                      (if_elim P (op == 24) _ _ (short _ (length-execute_write w req)) (
                        if_elim P (op == 30) _ _ (short _ (omega arith)) (
                          if_elim Q (op / 64 % 2 == 1) _ _ (short _ (omega arith))
                            (bad op _)))))))))))
