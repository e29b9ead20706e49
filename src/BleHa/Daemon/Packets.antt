-- ===== src/BleHa/Daemon/Packets.antt =====
-- The invariant through `rpc_write`, the frames of a connection and the events.
use esp32_s31_linux.Common.{
  ℕ, ◌+◌, ◌%◌, ◌≤◌, arith, List, [], ◌∷◌, ◌++◌, length, Option, none, some, Bool, not, ltb, ◌==◌,
  if◌then◌else◌, length-append, if_elim, Bool-cases, inl, inr,
}
use esp32_s31_linux.BleHa.Improv.{
  ImprovCmd, improv_parse, err_none, cmd_wifi, cmd_identify, cmd_info,
}
use esp32_s31_linux.BleHa.Gatt.Invariant.{gatt_handle-Holds}
use esp32_s31_linux.BleHa.Daemon.{
  Daemon, with_gatt, set_state, identify_on, joined, improv_command, rpc_result, rpc_write, respond,
  l2cap_frame, l2_whole, l2_fragment, handle_acl, provisioning, authorized, no_cmd,
}
use esp32_s31_linux.BleHa.Daemon.Invariant.{
  IsDaemon, with_gatt-IsDaemon, acl_send-Kept, set_state-Kept, set_result-Kept,
}

module _ (write_ok : List ℕ → Bool) (wpa_join : List ℕ → List ℕ → Option ℕ) (now now_ms : ℕ)
    (info : List (List ℕ)) (total : ℕ) where
  abbrev Stays : Daemon → Type 0
  Stays s = IsDaemon total s

  pub set_state-Stays :
      (s : Daemon) (state error : ℕ)
      → Stays s
      → Stays (set_state write_ok wpa_join now now_ms info s state error)
  set_state-Stays s state error i =
      set_state-Kept write_ok wpa_join now now_ms info total s state error i

  joined-Stays :
      (s : Daemon) (o : Option ℕ) → Stays s → Stays (joined write_ok wpa_join now now_ms info s o)
  unfolding joined
  joined-Stays s none i = set_state-Stays _ _ _ (record {
    credits = i.credits;
    few = i.few;
    l2_fits = i.l2_fits;
    rpc_fits = i.rpc_fits;
    batch_fits = i.batch_fits;
    server = i.server;
    outbox_fits = i.outbox_fits;
  })
  joined-Stays s (some id) i = record {
    credits = i.credits;
    few = i.few;
    l2_fits = i.l2_fits;
    rpc_fits = i.rpc_fits;
    batch_fits = i.batch_fits;
    server = i.server;
    outbox_fits = i.outbox_fits;
  }

  improv_command-Stays :
      (s : Daemon) (c : ImprovCmd)
      → Stays s
      → Stays (improv_command write_ok wpa_join now now_ms info s c)
  unfolding improv_command identify_on
  improv_command-Stays s c i =
      let P = λ (x : Daemon). Stays x in
      if_elim P (c.cmd == cmd_wifi) _ _
        (if_elim P (not (s.gatt.state == authorized)) _ _ i
          (joined-Stays _ (wpa_join c.ssid c.pass) (set_state-Stays s provisioning err_none i)))
        (if_elim P (c.cmd == cmd_identify) _ _
          (if_elim P (s.gatt.caps % 2 == 1) (record s { identify_end = now + 5 }) s
            (record {
              credits = i.credits;
              few = i.few;
              l2_fits = i.l2_fits;
              rpc_fits = i.rpc_fits;
              batch_fits = i.batch_fits;
              server = i.server;
              outbox_fits = i.outbox_fits;
            })
            i)
          (if_elim P (c.cmd == cmd_info) _ _
            (set_result-Kept write_ok wpa_join now now_ms info total s cmd_info info i) i))

  set_rpc-Stays :
      (s : Daemon) (bytes : List ℕ)
      → Stays s
      → length bytes ≤ 128
      → Stays (record s { rpc = bytes })
  set_rpc-Stays s bytes i k = record {
    credits = i.credits;
    few = i.few;
    l2_fits = i.l2_fits;
    rpc_fits = k;
    batch_fits = i.batch_fits;
    server = i.server;
    outbox_fits = i.outbox_fits;
  }

  set_l2-Stays :
      (s : Daemon) (bytes : List ℕ) → Stays s → length bytes ≤ 256 → Stays (record s { l2 = bytes })
  set_l2-Stays s bytes i k = record {
    credits = i.credits;
    few = i.few;
    l2_fits = k;
    rpc_fits = i.rpc_fits;
    batch_fits = i.batch_fits;
    server = i.server;
    outbox_fits = i.outbox_fits;
  }

  rpc_result-Stays :
      (s : Daemon) (r : ℕ × ImprovCmd)
      → Stays s
      → Stays (rpc_result write_ok wpa_join now now_ms info s r)
  unfolding rpc_result
  rpc_result-Stays s (r, c) i =
      let P = λ (x : Daemon). Stays x in
      let cleared = set_rpc-Stays s [] i (omega arith) in
      if_elim P _ _ _ i (
        if_elim P _ _ _ (set_state-Stays _ _ _ cleared)
          (improv_command-Stays _ c (set_state-Stays _ _ _ cleared)))

  pub rpc_write-Stays :
      (s : Daemon) (bytes : List ℕ)
      → Stays s
      → Stays (rpc_write write_ok wpa_join now now_ms info s bytes)
  unfolding rpc_write
  rpc_write-Stays s bytes i = elim (Bool-cases (ltb 128 (length s.rpc + length bytes))) [
    | inl e ↦ rw e (set_state-Stays _ _ _ (set_rpc-Stays s [] i (omega arith)))
    | inr e ↦ rw e (
        rpc_result-Stays _ (improv_parse (s.rpc ++ bytes) no_cmd)
          (set_rpc-Stays s (s.rpc ++ bytes) i (ground (arith, e, length-append s.rpc bytes))))
  ]

  respond-Stays :
      (r : List ℕ × Daemon) → Stays (r.1) → Stays (respond write_ok wpa_join now now_ms info r)
  unfolding respond
  respond-Stays ([], s) i = i
  respond-Stays (b ∷ rsp, s) i =
      acl_send-Kept write_ok wpa_join now now_ms info total s 4 (b ∷ rsp) i

  l2cap_frame-Stays :
      (s : Daemon) (cid : ℕ) (p : List ℕ)
      → Stays s
      → Stays (l2cap_frame write_ok wpa_join now now_ms info s cid p)
  unfolding l2cap_frame
  l2cap_frame-Stays s cid p i =
      let P = λ (x : Daemon). Stays x in
      let send = acl_send-Kept write_ok wpa_join now now_ms info total s in
      if_elim P _ _ _
        (respond-Stays _ (
          gatt_handle-Holds (λ w. w.gatt) with_gatt (rpc_write write_ok wpa_join now now_ms info) P
            (λ w k. k.server) (λ w g k v. with_gatt-IsDaemon total w g k v) rpc_write-Stays s p _
            i))
        (if_elim P _ _ _ (send 5 _ i) (if_elim P _ _ _ (send 6 _ i) i))

  l2_whole-Stays : (s : Daemon) → Stays s → Stays (l2_whole write_ok wpa_join now now_ms info s)
  unfolding l2_whole
  l2_whole-Stays s i =
      let P = λ (x : Daemon). Stays x in
      if_elim P _ _ _ i
        (if_elim P _ _ _ i (set_l2-Stays _ [] (l2cap_frame-Stays s _ _ i) (omega arith)))

  l2_fragment-Stays :
      (s : Daemon) (start : Bool) (bytes : List ℕ)
      → Stays s
      → Stays (l2_fragment write_ok wpa_join now now_ms info s start bytes)
  unfolding l2_fragment
  l2_fragment-Stays s start bytes i =
      let old = if start then [] else s.l2 in
      elim (Bool-cases (ltb 256 (length old + length bytes))) [
        | inl e ↦ rw e (set_l2-Stays s [] i (omega arith))
        | inr e ↦ rw e (
            l2_whole-Stays _
              (set_l2-Stays s (old ++ bytes) i (ground (arith, e, length-append old bytes))))
      ]

  pub handle_acl-Stays :
      (s : Daemon) (p : List ℕ) → Stays s → Stays (handle_acl write_ok wpa_join now now_ms info s p)
  unfolding handle_acl
  handle_acl-Stays s p i =
      let P = λ (x : Daemon). Stays x in
      if_elim P _ _ _ i (if_elim P _ _ _ i (l2_fragment-Stays s _ _ i))
