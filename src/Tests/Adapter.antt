-- ===== src/Tests/Adapter.antt =====
-- Runs of the daemon on packets of the adapter.
use esp32_s31_linux.Common.{
  ℕ, ◌+◌, ◌<◌, ◌≤◌, ◌≡◌, refl, arith, List, [], ◌∷◌, length, Bool, true, false, Option, none, some,
  get_or,
}
use esp32_s31_linux.BleHa.Gatt.{Gatt, get16}
use esp32_s31_linux.BleHa.Gatt.Handle.{gatt_handle}
use esp32_s31_linux.BleHa.Gatt.Invariant.{IsServer}
use esp32_s31_linux.BleHa.Gatt.Reply.{length-gatt_handle}
use esp32_s31_linux.BleHa.Daemon.{Daemon, rpc_write, l2_fragment, handle_packet}
use esp32_s31_linux.BleHa.Daemon.Invariant.{IsDaemon}
use esp32_s31_linux.BleHa.Daemon.Events.{handle_packet-IsDaemon}
use esp32_s31_linux.BleHa.Daemon.Chunks.{rpc_write-append, rpc_write-stuck, l2_fragment-append}

abbrev ok : List ℕ → Bool
ok p = true

abbrev join : List ℕ → List ℕ → Option ℕ
join ssid pass = some 1

abbrev server : Gatt
server = record {
  name = 115 ∷ 51 ∷ [];
  state = 2;
  error = 0;
  caps = 3;
  result = [];
  cccd_state = 1;
  cccd_error = 1;
  cccd_result = 1;
  mtu = 23;
  mtu_max = 247;
  prep = [];
}

abbrev daemon : List ℕ → Daemon
daemon rpc = record {
  acl_len = 251;
  acl_credits = 3;
  conn_sent = 1;
  scanning = true;
  batch = [];
  batch_ms = 0;
  advertising = false;
  adv_dirty = false;
  conn = some 64;
  l2 = [];
  rpc = rpc;
  gatt = server;
  join_id = none;
  join_end = 0;
  identify_end = 0;
  done_at = 0;
  name = 115 ∷ 51 ∷ [];
  outbox = [];
}

server_ok : IsServer server
server_ok = record { mtu_low = omega arith; mtu_high = omega arith; prep_fits = omega arith }

daemon_ok : IsDaemon 4 (daemon [])
daemon_ok = record {
  credits = refl;
  few = omega arith;
  l2_fits = omega arith;
  rpc_fits = omega arith;
  batch_fits = omega arith;
  server = server_ok;
  outbox_fits = tt;
}

abbrev done_event : List ℕ
done_event = 4 ∷ 0x13 ∷ 5 ∷ 1 ∷ 64 ∷ 0 ∷ 1 ∷ 0 ∷ []

fair : get_or done_event 0 0 ≡ 0x04 → get_or done_event 1 0 ≡ 0x13 → get16 done_event 6 ≤ 1
unfolding get16
fair k e = omega arith

-- Number of Completed Packets: one packet of handle 64.
handle_packet-IsDaemon_example :
    IsDaemon 4 (handle_packet ok join 10 10000 [] (daemon []) done_event)
handle_packet-IsDaemon_example =
    handle_packet-IsDaemon ok join 10 10000 [] 4 (daemon []) done_event fair daemon_ok

-- Read By Group Type of the primary services.
length-gatt_handle_example :
    length
      (gatt_handle
        (λ w. w)
        (λ w g. g)
        (λ w v. w)
        server
        (0x10 ∷ 1 ∷ 0 ∷ 255 ∷ 255 ∷ 0 ∷ 0x28 ∷ [])
        247).0
    ≤ 23
length-gatt_handle_example =
    length-gatt_handle (λ w. w) (λ w g. g) (λ w v. w) server
      (0x10 ∷ 1 ∷ 0 ∷ 255 ∷ 255 ∷ 0 ∷ 0x28 ∷ []) 247 server_ok (omega arith)

-- An identify command in two writes.
rpc_write-append_example :
    rpc_write ok join 10 10000 [] (rpc_write ok join 10 10000 [] (daemon []) (2 ∷ [])) (0 ∷ 2 ∷ [])
    ≡ rpc_write ok join 10 10000 [] (daemon []) (2 ∷ 0 ∷ 2 ∷ [])
rpc_write-append_example =
    rpc_write-append ok join 10 10000 [] (daemon []) (2 ∷ []) (0 ∷ 2 ∷ []) refl refl (omega arith)
      (omega arith)

-- The same command after one with a bad checksum.
rpc_write-stuck_example :
    rpc_write ok join 10 10000 [] (daemon (2 ∷ 0 ∷ 9 ∷ [])) (2 ∷ 0 ∷ 2 ∷ [])
    ≡ daemon (2 ∷ 0 ∷ 9 ∷ 2 ∷ 0 ∷ 2 ∷ [])
rpc_write-stuck_example =
    rpc_write-stuck ok join 10 10000 [] (daemon (2 ∷ 0 ∷ 9 ∷ [])) (2 ∷ 0 ∷ 2 ∷ []) (omega arith)
      (omega arith) (omega arith) (omega arith)

not_whole : 4 ≤ 5 → 5 < get16 (3 ∷ 0 ∷ 4 ∷ 0 ∷ 0x0a ∷ []) 0 + 4
unfolding get16
not_whole e = omega arith

-- A read of the device name in two fragments.
l2_fragment-append_example :
    l2_fragment ok join 10 10000 []
      (l2_fragment ok join 10 10000 [] (daemon []) true (3 ∷ 0 ∷ 4 ∷ 0 ∷ 0x0a ∷ []))
      false
      (3 ∷ 0 ∷ [])
    ≡ l2_fragment ok join 10 10000 [] (daemon []) true (3 ∷ 0 ∷ 4 ∷ 0 ∷ 0x0a ∷ 3 ∷ 0 ∷ [])
l2_fragment-append_example =
    l2_fragment-append ok join 10 10000 [] (daemon []) (3 ∷ 0 ∷ 4 ∷ 0 ∷ 0x0a ∷ []) (3 ∷ 0 ∷ [])
      (omega arith) not_whole
