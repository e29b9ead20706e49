-- ===== src/BleHa/Gatt/Invariant.antt =====
-- A well-formed server, and what every request keeps.
use esp32_s31_linux.Common.{
  ℕ, ◌+◌, ◌-◌, ◌≤◌, arith, List, [], ◌∷◌, length, ltb, leb, ◌==◌, if◌then◌else◌, drop, get_or, min,
  length-append, length-drop, Option, none, some, if_elim, Bool-cases, ◌&&◌, inl, inr, not, ◌||◌,
}
use esp32_s31_linux.BleHa.Gatt.{Gatt, set_cccd, get16}
use esp32_s31_linux.BleHa.Gatt.Handle.{
  write_cccd, write_value, exchange_mtu, write_request, write_command, prepare_write, execute_write,
  gatt_handle,
}

-- The MTU is one that ATT allows, and `prep` holds what it has room for.
pub record IsServer (g : Gatt) : Type 0 where
  pub mtu_low : 23 ≤ g.mtu
  pub mtu_high : g.mtu ≤ g.mtu_max
  pub prep_fits : length g.prep ≤ 128

set_cccd-IsServer : (g : Gatt) (h v : ℕ) → IsServer g → IsServer (set_cccd g h v)
unfolding set_cccd
set_cccd-IsServer g h v i =
    let P = λ (x : Gatt). IsServer x in
    if_elim P (h == 9) _ _
      (record { mtu_low = i.mtu_low; mtu_high = i.mtu_high; prep_fits = i.prep_fits })
      (if_elim P (h == 12) _ _
        (record { mtu_low = i.mtu_low; mtu_high = i.mtu_high; prep_fits = i.prep_fits })
        (if_elim P (h == 17) _ _
          (record { mtu_low = i.mtu_low; mtu_high = i.mtu_high; prep_fits = i.prep_fits }) i))

module _ {W : Type 0} (gatt_of : W → Gatt) (with_gatt : W → Gatt → W) (rpc_write : W → List ℕ → W)
    (Holds : W → Type 0) (server : (w : W) → Holds w → IsServer (gatt_of w))
    (put : (w : W) (g : Gatt) → Holds w → IsServer g → Holds (with_gatt w g))
    (callback : (w : W) (v : List ℕ) → Holds w → Holds (rpc_write w v)) where
  write_cccd-Holds :
      (w : W) (h : ℕ) (v : List ℕ) (o : Option ℕ)
      → Holds w
      → Holds ((write_cccd gatt_of with_gatt rpc_write w h v o).1)
  unfolding write_cccd
  write_cccd-Holds w h v none i =
      if_elim (λ (r : ℕ × W). Holds (r.1)) (h == 14) _ _ (callback w v i) i
  write_cccd-Holds w h v (some old) i =
      if_elim (λ (r : ℕ × W). Holds (r.1)) (not (length v == 2)) _ _ i
        (put w _ i (set_cccd-IsServer (gatt_of w) h _ (server w i)))

  write_value-Holds :
      (w : W) (h : ℕ) (v : List ℕ)
      → Holds w
      → Holds ((write_value gatt_of with_gatt rpc_write w h v).1)
  unfolding write_value
  write_value-Holds w h v i = write_cccd-Holds w h v _ i

  exchange_mtu-Holds :
      (w : W) (req : List ℕ) → Holds w → Holds ((exchange_mtu gatt_of with_gatt rpc_write w req).1)
  unfolding exchange_mtu
  exchange_mtu-Holds w req i =
      let g = gatt_of w in
      let v = server w i in
      let wish = min (get16 req 1) g.mtu_max in
      let m = if ltb wish 23 then 23 else wish in
      if_elim (λ (r : List ℕ × W). Holds (r.1)) (ltb (length req) 3) _ _ i
        (put w _ i
          (record { mtu_low = ground arith; mtu_high = ground arith; prep_fits = v.prep_fits }))

  write_request-Holds :
      (w : W) (req : List ℕ) → Holds w → Holds ((write_request gatt_of with_gatt rpc_write w req).1)
  unfolding write_request
  write_request-Holds w req i =
      let P = λ (r : List ℕ × W). Holds (r.1) in
      let j = write_value-Holds w (get16 req 1) (drop 3 req) i in
      if_elim P (ltb (length req) 3) _ _ i (if_elim P _ _ _ j j)

  write_command-Holds :
      (w : W) (req : List ℕ) → Holds w → Holds ((write_command gatt_of with_gatt rpc_write w req).1)
  unfolding write_command
  write_command-Holds w req i =
      if_elim (λ (r : List ℕ × W). Holds (r.1)) (leb 3 (length req)) _ _
        (write_value-Holds w (get16 req 1) (drop 3 req) i) i

  prepare_write-Holds :
      (w : W) (req : List ℕ) (room : ℕ)
      → Holds w
      → Holds ((prepare_write gatt_of with_gatt rpc_write w req room).1)
  unfolding prepare_write
  prepare_write-Holds w req room i =
      let g = gatt_of w in
      let v = server w i in
      let P = λ (r : List ℕ × W). Holds (r.1) in
      elim (Bool-cases (ltb (length req) 5)) [
        | inl e ↦ rw e i
        | inr long ↦ rw long (
            if_elim P (not (get16 req 1 == 14)) _ _ i (
              if_elim P (not (get16 req 3 == length g.prep)) _ _ i
                (elim (Bool-cases (ltb 128 (length g.prep + length req - 5))) [
                  | inl e ↦ rw e i
                  | inr e ↦ rw e (
                      put w _ i (record {
                        mtu_low = v.mtu_low;
                        mtu_high = v.mtu_high;
                        prep_fits =
                            ground (
                              arith,
                              e,
                              long,
                              length-append g.prep (drop 5 req),
                              length-drop 5 req,
                            );
                      }))
                ])))
      ]

  execute_write-Holds :
      (w : W) (req : List ℕ) → Holds w → Holds ((execute_write gatt_of with_gatt rpc_write w req).1)
  unfolding execute_write
  execute_write-Holds w req i =
      let g = gatt_of w in
      let run = leb 2 (length req) && (get_or req 1 0 == 1 && not (length g.prep == 0)) in
      let w' = if run then rpc_write w g.prep else w in
      let j = if_elim (λ (x : W). Holds x) run (rpc_write w g.prep) w (callback w g.prep i) i in
      let v = server w' j in
      put w' _ j (record { mtu_low = v.mtu_low; mtu_high = v.mtu_high; prep_fits = omega arith })

  -- What holds of the program's state, implies a well-formed server, and survives a well-formed
  -- change of the server and the callback of the RPC command, survives every request: the server
  -- keeps an MTU from 23 to the largest, and a prepare queue within its buffer.
  pub gatt_handle-Holds :
      (w : W) (req : List ℕ) (room : ℕ)
      → Holds w
      → Holds ((gatt_handle gatt_of with_gatt rpc_write w req room).1)
  unfolding gatt_handle
  gatt_handle-Holds w [] room0 i = i
  gatt_handle-Holds w (op ∷ body) room0 i =
      let g = gatt_of w in
      let req = op ∷ body in
      let room = if ltb g.mtu room0 then g.mtu else room0 in
      let P = λ (r : List ℕ × W). Holds (r.1) in
      if_elim P (op == 2) _ _ (exchange_mtu-Holds w req i) (
        if_elim P (op == 4) _ _ i (
          if_elim P (op == 6) _ _ i (
            if_elim P (op == 8 || op == 16) _ _ i (
              if_elim P (op == 10 || op == 12) _ _ i (
                if_elim P (op == 18) _ _ (write_request-Holds w req i) (
                  if_elim P (op == 82) _ _ (write_command-Holds w req i) (
                    if_elim P (op == 22) _ _ (prepare_write-Holds w req room i) (
                      if_elim P (op == 24) _ _ (execute_write-Holds w req i)
                        (if_elim P (op == 30) _ _ i i)))))))))
