-- ===== src/BleHa/Daemon.antt =====
-- tools/ble-ha/ble-ha.c: what the daemon does with a packet of the adapter. The state holds the
-- fields of `s` that these functions use; `outbox` is what went to the adapter, the last packet
-- first. wpa.c, the clocks and the adapter are arguments: `wpa_join` gives the number of the new
-- network, `now` and `now_ms` are the times of the step, and `write_ok` says whether the adapter
-- takes a packet. The status LED is not in the state.
pub mod Invariant
pub mod Packets
pub mod Events
pub mod Chunks
use esp32_s31_linux.Common.{
  ℕ, zero, suc, ◌+◌, ◌-◌, ◌*◌, ◌/◌, ◌%◌, ◌^◌, List, [], ◌∷◌, ◌++◌, length, Option, none, some, Bool,
  true, false, ◌&&◌, ◌||◌, not, ltb, leb, ◌==◌, if◌then◌else◌, take, drop, get_or, min,
}
use esp32_s31_linux.BleHa.Improv.{
  ImprovCmd, improv_parse, improv_result, err_none, err_invalid, err_other, cmd_wifi, cmd_identify,
  cmd_info,
}
use esp32_s31_linux.BleHa.Api.{Adv}
use esp32_s31_linux.BleHa.Gatt.{Gatt, gatt_notify_enabled, get16}
use esp32_s31_linux.BleHa.Gatt.Handle.{gatt_handle}
use esp32_s31_linux.BleHa.Hci.{hci_acl_frame, hci_parse_adv_reports}

-- The static `s`. `conn` and `join_id` are `none` for -1; a time of 0 is no time.
pub record Daemon : Type 0 where
  pub acl_len : ℕ
  pub acl_credits : ℕ
  pub conn_sent : ℕ
  pub scanning : Bool
  pub batch : List Adv
  pub batch_ms : ℕ
  pub advertising : Bool
  pub adv_dirty : Bool
  pub conn : Option ℕ
  pub l2 : List ℕ
  pub rpc : List ℕ
  pub gatt : Gatt
  pub join_id : Option ℕ
  pub join_end : ℕ
  pub identify_end : ℕ
  pub done_at : ℕ
  pub name : List ℕ
  pub outbox : List (List ℕ)

abbrev pub authorized : ℕ
authorized = 0x02

abbrev pub provisioning : ℕ
provisioning = 0x03

abbrev pub provisioned : ℕ
provisioned = 0x04

abbrev pub adv_batch : ℕ
adv_batch = 16

abbrev pub rpc_size : ℕ
rpc_size = 128

abbrev pub l2_size : ℕ
l2_size = 256

abbrev pub with_gatt : Daemon → Gatt → Daemon
with_gatt s g = record s { gatt = g }

-- `struct improv_cmd` before `improv_parse`.
abbrev pub no_cmd : ImprovCmd
no_cmd = record { cmd = 0; ssid = []; pass = [] }

module _ (write_ok : List ℕ → Bool) (wpa_join : List ℕ → List ℕ → Option ℕ) (now now_ms : ℕ)
    (info : List (List ℕ)) where
  unfoldable pub acl_send_on : Daemon → ℕ → List ℕ → Option ℕ → Daemon
  acl_send_on s cid bytes none = s
  acl_send_on s cid bytes (some handle) =
      let pkt = hci_acl_frame handle cid bytes in
      if ltb s.acl_len (length bytes + 4) || ltb 300 (length bytes + 9)
      then s
      else if s.acl_credits == 0
      then s
      else if write_ok pkt
      then record s {
        acl_credits = s.acl_credits - 1;
        conn_sent = (s.conn_sent + 1) % 2 ^ 16;
        outbox = pkt ∷ s.outbox;
      }
      else s

  unfoldable pub acl_send : Daemon → ℕ → List ℕ → Daemon
  acl_send s cid bytes = acl_send_on s cid bytes s.conn

  unfoldable pub notify : Daemon → ℕ → List ℕ → Daemon
  notify s handle v =
      let g = s.gatt in
      let len = if ltb g.mtu (length v + 3) then g.mtu - 3 else length v in
      let n = if ltb 80 (len + 3) then 80 - 3 else len in
      if not (gatt_notify_enabled g handle)
      then s
      else acl_send s 4 (0x1b ∷ (handle % 256) ∷ (handle / 256 % 256) ∷ take n v)

  unfoldable pub set_error : Daemon → ℕ → Daemon
  set_error s error =
      if not (error == s.gatt.error)
      then notify (with_gatt s (record (s.gatt) { error = error })) 11 (error ∷ [])
      else s

  unfoldable pub set_state : Daemon → ℕ → ℕ → Daemon
  set_state s0 state error =
      let s = set_error s0 error in
      let s' = notify (with_gatt s (record (s.gatt) { state = state })) 8 (state ∷ []) in
      if not (state == s.gatt.state) then record s' { adv_dirty = true } else s

  unfoldable pub set_result : Daemon → ℕ → List (List ℕ) → Daemon
  set_result s cmd strings =
      let r = improv_result cmd strings in
      notify (with_gatt s (record (s.gatt) { result = r })) 16 r

  -- `identify(1)`
  unfoldable pub identify_on : Daemon → Daemon
  identify_on s = record s { identify_end = now + 5 }

  unfoldable pub joined : Daemon → Option ℕ → Daemon
  joined s none = set_state (record s { join_id = none }) authorized err_other
  joined s (some id) = record s { join_id = some id; join_end = now + 30 }

  unfoldable pub improv_command : Daemon → ImprovCmd → Daemon
  improv_command s c =
      if c.cmd == cmd_wifi
      then (if not (s.gatt.state == authorized)
          then s
          else joined (set_state s provisioning err_none) (wpa_join c.ssid c.pass))
      else if c.cmd == cmd_identify
      then (if s.gatt.caps % 2 == 1 then identify_on s else s)
      else if c.cmd == cmd_info
      then set_result s cmd_info info
      else s

  -- What `rpc_write` does with the result of `improv_parse`.
  unfoldable pub rpc_result : Daemon → ℕ × ImprovCmd → Daemon
  rpc_result s (r, c) =
      let s' = record s { rpc = [] } in
      if r == 1
      then s
      else if not (r == 0)
      then set_state s' s.gatt.state r
      else improv_command (set_state s' s.gatt.state err_none) c

  unfoldable pub rpc_write : Daemon → List ℕ → Daemon
  rpc_write s bytes =
      let all = s.rpc ++ bytes in
      if ltb rpc_size (length s.rpc + length bytes)
      then set_state (record s { rpc = [] }) s.gatt.state err_invalid
      else rpc_result (record s { rpc = all }) (improv_parse all no_cmd)

  unfoldable pub respond : List ℕ × Daemon → Daemon
  respond ([], s) = s
  respond (b ∷ rsp, s) = acl_send s 4 (b ∷ rsp)

  unfoldable pub l2cap_frame : Daemon → ℕ → List ℕ → Daemon
  l2cap_frame s cid p =
      let room = if ltb 256 (s.acl_len - 4) then 256 else s.acl_len - 4 in
      let code = get_or p 0 0 in
      if cid == 4
      then respond (gatt_handle (λ w. w.gatt) with_gatt rpc_write s p room)
      else if cid == 5 && leb 4 (length p) && code % 2 == 0
      then acl_send s 5 (0x01 ∷ get_or p 1 0 ∷ 0x02 ∷ 0x00 ∷ 0x00 ∷ 0x00 ∷ [])
      else if cid == 6 && leb 1 (length p) && (code == 0x01 || code == 0x0b)
      then acl_send s 6 (0x05 ∷ 0x05 ∷ [])
      else s

  -- The frame that `l2` holds, if it is whole.
  unfoldable pub l2_whole : Daemon → Daemon
  l2_whole s =
      let need = get16 s.l2 0 + 4 in
      let s' = l2cap_frame s (get16 s.l2 2) (take (need - 4) (drop 4 s.l2)) in
      if ltb (length s.l2) 4 then s else if ltb (length s.l2) need then s else record s' { l2 = [] }

  -- A fragment of an L2CAP frame.
  unfoldable pub l2_fragment : Daemon → Bool → List ℕ → Daemon
  l2_fragment s start bytes =
      let old = if start then [] else s.l2 in
      if ltb l2_size (length old + length bytes)
      then record s { l2 = [] }
      else l2_whole (record s { l2 = old ++ bytes })

  unfoldable pub handle_acl : Daemon → List ℕ → Daemon
  handle_acl s p =
      let dl = get16 p 3 in
      if ltb (length p) 5
      then s
      else if ltb (length p) (dl + 5)
      then s
      else l2_fragment s (not (get_or p 2 0 / 16 % 4 == 1)) (take dl (drop 5 p))

  -- LE Advertising Report
  unfoldable pub reported : Daemon → List Adv → Daemon
  reported s ads = record s {
    batch_ms = if not (length ads == 0) && length s.batch == 0 then now_ms else s.batch_ms;
    batch = s.batch ++ take (adv_batch - length s.batch) ads;
  }

  -- LE Connection Complete
  unfoldable pub connected_to : Daemon → ℕ → Daemon
  connected_to s handle = record s {
    conn = some handle;
    advertising = false;
    l2 = [];
    rpc = [];
    gatt = record (s.gatt) { mtu = 23; cccd_state = 0; cccd_error = 0; cccd_result = 0; prep = [] };
  }

  unfoldable pub le_meta : Daemon → List ℕ → Daemon
  le_meta s ev =
      let sub = get_or ev 2 0 in
      if ltb (length ev) 3
      then s
      else if sub == 0x02 && s.scanning
      then reported s (hci_parse_adv_reports ev 8)
      else if sub == 0x01 && leb 6 (length ev) && get_or ev 3 0 == 0
      then connected_to s (get16 ev 4 % 2 ^ 12)
      else s

  unfoldable pub is_conn : Option ℕ → ℕ → Bool
  is_conn none h = false
  is_conn (some c) h = h == c

  -- Disconnection Complete
  unfoldable pub disconnected : Daemon → List ℕ → Daemon
  disconnected s p =
      if leb 6 (length p) && is_conn s.conn (get16 p 4 % 2 ^ 12)
      then record s {
        acl_credits = (s.acl_credits + s.conn_sent) % 2 ^ 16;
        conn_sent = 0;
        conn = none;
        adv_dirty = true;
      }
      else s

  -- Number of Completed Packets
  unfoldable pub completed : Daemon → List ℕ → Daemon
  completed s p =
      let n = get16 p 6 in
      if leb 8 (length p)
      then record s {
        acl_credits = (s.acl_credits + n) % 2 ^ 16;
        conn_sent = s.conn_sent - min n s.conn_sent;
      }
      else s

  unfoldable pub handle_packet : Daemon → List ℕ → Daemon
  handle_packet s p =
      let kind = get_or p 0 0 in
      let event = get_or p 1 0 in
      if ltb (length p) 3
      then s
      else if kind == 0x02
      then handle_acl s p
      else if not (kind == 0x04)
      then s
      else if event == 0x3e
      then le_meta s (drop 1 p)
      else if event == 0x05
      then disconnected s p
      else if event == 0x13
      then completed s p
      else s

  -- `join_poll`, with the result of `wpa_connected`. `wpa_finish` has no part of the state.
  unfoldable pub join_poll : Daemon → Bool → Daemon
  join_poll s connected =
      let s' = record s { join_id = none } in
      let s'' = set_state (set_result s' cmd_wifi []) provisioned err_none in
      if connected
      then record s'' { done_at = now + 10 }
      else if leb s.join_end now
      then set_state s' authorized 0x03
      else s
