-- ===== src/BleHa/Gatt/Bounds.antt =====
-- Every response fits the room that `gatt_handle` is given.
use esp32_s31_linux.Common.{
  ℕ, zero, suc, ◌+◌, ◌-◌, ◌≤◌, ◌≡◌, refl, arith, List, [], ◌++◌, length, Bool, true, false, ◌&&◌,
  ◌||◌, not, ltb, ◌==◌, if◌then◌else◌, drop, get_or, min, length-append, length-take, length-drop,
  Bool-cases, inl, inr,
}
use esp32_s31_linux.BleHa.Gatt.Database.{attr_type, bytes_eq, u16, last_handle}
use esp32_s31_linux.BleHa.Gatt.{
  Gatt, Value, bytes, refused, Entries, entries, failed, attr_value, error_rsp, type_entry,
  type_loop, type_response, get16, entry_bytes, read_by_type, info_loop, find_info, value_loop,
  find_by_value, value_response, group_end,
}

abbrev Fits : ℕ → Entries → Type 0
Fits room (entries out entry) = 2 + length out ≤ room
Fits room (failed h e) = Unit {0}

ite_Fits :
    (room : ℕ) (b : Bool) (x y : Entries)
    → Fits room x
    → Fits room y
    → Fits room (if b then x else y)
ite_Fits room true x y p q = p
ite_Fits room false x y p q = q

pub length-error_rsp : (op h err : ℕ) → length (error_rsp op h err) ≡ 5
unfolding error_rsp
length-error_rsp op h err = refl

pub length-u16 : (n : ℕ) → length (u16 n) ≡ 2
length-u16 n = refl

module _ (g : Gatt) (group : Bool) (want : List ℕ) (end room : ℕ) where
  length-entry :
      (h : ℕ) (v : List ℕ)
      → length (entry_bytes g group want end room h v) ≡ (if group then 4 else 2) + length v
  length-entry h v =
      elim group
        as (λ b.
          length (if b then u16 h ++ (u16 (group_end h) ++ v) else u16 h ++ v)
          ≡ (if b then 4 else 2) + length v) [ true ↦ omega arith | false ↦ omega arith ]

  type_entry-Fits :
      (more : List ℕ → ℕ → Entries) (h : ℕ) (out : List ℕ) (entry : ℕ) (v : Value)
      → ((o : List ℕ) (e : ℕ) → 2 + length o ≤ room → Fits room (more o e))
      → 2 + length out ≤ room
      → Fits room (type_entry g group want end room more h out entry v)
  unfolding type_entry
  type_entry-Fits more h out entry (refused e) rec k = ite_Fits room (entry == 0) _ _ tt k
  type_entry-Fits more h out entry (bytes v) rec k =
      let el = (if group then 4 else 2) + length v in
      ite_Fits room (not (entry == 0) && not (el == entry)) _ _ k
        (elim (Bool-cases (ltb room (2 + length out + el))) [
          | inl e ↦ rw e k
          | inr e ↦ rw e (
              rec _ el (
                ground (
                  arith,
                  e,
                  length-append out (entry_bytes g group want end room h v),
                  length-entry h v,
                )))
        ])

  type_loop-Fits :
      (n h : ℕ) (out : List ℕ) (entry : ℕ)
      → 2 + length out ≤ room
      → Fits room (type_loop g group want end room n h out entry)
  unfolding type_loop
  type_loop-Fits zero h out entry k = k
  type_loop-Fits (suc n) h out entry k = ite_Fits room (ltb end h || ltb last_handle h) _ _ k (
      ite_Fits room (bytes_eq (attr_type h) want) _ _
        (type_entry-Fits (λ o e. type_loop g group want end room n (h + 1) o e) h out entry
          (attr_value g h) (λ o e. type_loop-Fits n (h + 1) o e) k)
        (type_loop-Fits n (h + 1) out entry k))

  length-type_response :
      (op start : ℕ) (r : Entries)
      → 5 ≤ room
      → Fits room r
      → length (type_response op start r) ≤ room
  unfolding type_response
  length-type_response op start (failed h e) k f = ground (arith, length-error_rsp op h e)
  length-type_response op start (entries out entry) k f =
      ground (arith, length-error_rsp op start 10)

pub length-read_by_type :
    (g : Gatt) (req : List ℕ) (room : ℕ) → 5 ≤ room → length (read_by_type g req room) ≤ room
unfolding read_by_type
length-read_by_type g req room k =
    let op = get_or req 0 0 in
    let start = get16 req 1 in
    let want = drop 5 req in
    let r = type_loop g (op == 0x10) want (get16 req 3) room (suc last_handle - start) start [] 0 in
    ground (
      arith,
      length-error_rsp op start 13,
      length-error_rsp op start 1,
      length-type_response g (op == 0x10) want (get16 req 3) room op start r k (
          type_loop-Fits g (op == 0x10) want (get16 req 3) room (suc last_handle - start) start [] 0
            (omega arith)),
    )

module _ (end room : ℕ) where
  length-info_loop :
      (n h : ℕ) (out : List ℕ) (tl : ℕ)
      → 2 + length out ≤ room
      → 2 + length ((info_loop end room n h out tl).0) ≤ room
  unfolding info_loop
  length-info_loop zero h out tl k = k
  length-info_loop (suc n) h out tl k =
      let ih = length-info_loop n (h + 1) (out ++ (u16 h ++ attr_type h)) (length (attr_type h)) in
      ground (
        arith,
        ih,
        length-append out (u16 h ++ attr_type h),
        length-append (u16 h) (attr_type h),
        length-u16 h,
      )

pub length-find_info : (req : List ℕ) (room : ℕ) → 5 ≤ room → length (find_info req room) ≤ room
unfolding find_info
length-find_info req room k =
    let op = get_or req 0 0 in
    let start = get16 req 1 in
    ground (
      arith,
      length-error_rsp op start 1,
      length-error_rsp op start 10,
      length-info_loop (get16 req 3) room (suc last_handle - start) start [] 0 (omega arith),
    )

module _ (want : List ℕ) (kind16 end room : ℕ) where
  length-value_loop :
      (n h : ℕ) (out : List ℕ)
      → 1 + length out ≤ room
      → 1 + length (value_loop want kind16 end room n h out) ≤ room
  unfolding value_loop
  length-value_loop zero h out k = k
  length-value_loop (suc n) h out k = ground (
    arith,
    length-value_loop n (h + 1) out k,
    length-value_loop n (h + 1) (out ++ (u16 h ++ u16 (group_end h))),
    length-append out (u16 h ++ u16 (group_end h)),
    length-append (u16 h) (u16 (group_end h)),
    length-u16 h,
    length-u16 (group_end h),
  )

pub length-find_by_value :
    (req : List ℕ) (room : ℕ) → 5 ≤ room → length (find_by_value req room) ≤ room
unfolding find_by_value
length-find_by_value req room k =
    let op = get_or req 0 0 in
    let start = get16 req 1 in
    ground (
      arith,
      length-error_rsp op start 1,
      length-error_rsp op start 10,
      length-value_loop (drop 7 req) (get16 req 5) (get16 req 3) room (suc last_handle - start)
          start [] (omega arith),
    )

pub length-value_response :
    (op h off room : ℕ) (v : Value) → 5 ≤ room → length (value_response op h off room v) ≤ room
unfolding value_response
length-value_response op h off room (refused e) k = ground (arith, length-error_rsp op h e)
length-value_response op h off room (bytes v) k = ground (
  arith,
  length-error_rsp op h 7,
  length-take (min (length v - off) (room - 1)) (drop off v),
  length-drop off v,
)
