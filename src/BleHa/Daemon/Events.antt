-- ===== src/BleHa/Daemon/Events.antt =====
-- The invariant through every packet of the adapter.
use esp32_s31_linux.Common.{
  ℕ, ◌-◌, ◌%◌, ◌^◌, ◌≤◌, ◌≡◌, arith, List, length, Option, Bool, not, ltb, ◌==◌, take, drop, get_or,
  length-append, length-take, if_elim, if_elim_on, Bool-cases, inl, inr,
}
use esp32_s31_linux.BleHa.Api.{Adv}
use esp32_s31_linux.BleHa.Gatt.{get16}
use esp32_s31_linux.BleHa.Hci.{hci_parse_adv_reports}
use esp32_s31_linux.BleHa.Daemon.{
  Daemon, reported, connected_to, le_meta, disconnected, completed, handle_packet,
}
use esp32_s31_linux.BleHa.Daemon.Invariant.{IsDaemon}
use esp32_s31_linux.BleHa.Daemon.Packets.{handle_acl-Stays}

module _ (write_ok : List ℕ → Bool) (wpa_join : List ℕ → List ℕ → Option ℕ) (now now_ms : ℕ)
    (info : List (List ℕ)) (total : ℕ) where
  abbrev Stands : Daemon → Type 0
  Stands s = IsDaemon total s

  reported-Stands :
      (s : Daemon) (ads : List Adv)
      → Stands s
      → Stands (reported write_ok wpa_join now now_ms info s ads)
  unfolding reported
  reported-Stands s ads i = record {
    credits = i.credits;
    few = i.few;
    l2_fits = i.l2_fits;
    rpc_fits = i.rpc_fits;
    batch_fits = ground (
      arith,
      i.batch_fits,
      length-append s.batch (take (16 - length s.batch) ads),
      length-take (16 - length s.batch) ads,
    );
    server = i.server;
    outbox_fits = i.outbox_fits;
  }

  connected_to-Stands :
      (s : Daemon) (h : ℕ) → Stands s → Stands (connected_to write_ok wpa_join now now_ms info s h)
  unfolding connected_to
  connected_to-Stands s h i =
      let v = i.server in
      record {
        credits = i.credits;
        few = i.few;
        l2_fits = omega arith;
        rpc_fits = omega arith;
        batch_fits = i.batch_fits;
        server = record {
          mtu_low = omega arith;
          mtu_high = omega (arith, v.mtu_low, v.mtu_high);
          prep_fits = omega arith;
        };
        outbox_fits = i.outbox_fits;
      }

  le_meta-Stands :
      (s : Daemon) (ev : List ℕ)
      → Stands s
      → Stands (le_meta write_ok wpa_join now now_ms info s ev)
  unfolding le_meta
  le_meta-Stands s ev i =
      let P = λ (x : Daemon). Stands x in
      if_elim P _ _ _ i (
        if_elim P _ _ _ (reported-Stands s (hci_parse_adv_reports ev 8) i)
          (if_elim P _ _ _ (connected_to-Stands s (get16 ev 4 % 2 ^ 12) i) i))

  disconnected-Stands :
      (s : Daemon) (p : List ℕ)
      → Stands s
      → Stands (disconnected write_ok wpa_join now now_ms info s p)
  unfolding disconnected
  disconnected-Stands s p i =
      if_elim (λ (x : Daemon). Stands x) _ _ _
        (record {
          credits = omega (arith, i.credits, i.few);
          few = i.few;
          l2_fits = i.l2_fits;
          rpc_fits = i.rpc_fits;
          batch_fits = i.batch_fits;
          server = i.server;
          outbox_fits = i.outbox_fits;
        })
        i

  completed-Stands :
      (s : Daemon) (p : List ℕ)
      → get16 p 6 ≤ s.conn_sent
      → Stands s
      → Stands (completed write_ok wpa_join now now_ms info s p)
  unfolding completed
  completed-Stands s p h i =
      if_elim (λ (x : Daemon). Stands x) _ _ _
        (record {
          credits = omega (arith, i.credits, i.few, h);
          few = i.few;
          l2_fits = i.l2_fits;
          rpc_fits = i.rpc_fits;
          batch_fits = i.batch_fits;
          server = i.server;
          outbox_fits = i.outbox_fits;
        })
        i

  -- Any packet of the adapter keeps a well-formed state well formed, if an event of completed
  -- packets reports no more than are outstanding: credits and outstanding packets keep their sum,
  -- the reassembly, RPC, prepare and batch buffers are within their arrays, the MTU is from 23 to
  -- the largest, and every packet that went out fits the controller's buffer.
  pub handle_packet-IsDaemon :
      (s : Daemon) (p : List ℕ)
      → (get_or p 0 0 ≡ 0x04 → get_or p 1 0 ≡ 0x13 → get16 p 6 ≤ s.conn_sent)
      → IsDaemon total s
      → IsDaemon total (handle_packet write_ok wpa_join now now_ms info s p)
  unfolding handle_packet
  handle_packet-IsDaemon s p fair i =
      let P = λ (x : Daemon). Stands x in
      elim (Bool-cases (get_or p 0 0 == 0x04)) [
        | inl event ↦ if_elim P (ltb (length p) 3) _ _ i (
            if_elim P (get_or p 0 0 == 0x02) _ _
              (handle_acl-Stays write_ok wpa_join now now_ms info total s p i)
              (if_elim P (not (get_or p 0 0 == 0x04)) _ _ i (
                if_elim P (get_or p 1 0 == 0x3e) _ _ (le_meta-Stands s (drop 1 p) i) (
                  if_elim P (get_or p 1 0 == 0x05) _ _ (disconnected-Stands s p i) (
                    if_elim_on P (get_or p 1 0 == 0x13) _ _
                      (λ e.
                        completed-Stands s p (fair (ground (arith, event)) (ground (arith, e))) i)
                      i)))))
        | inr other ↦ if_elim P (ltb (length p) 3) _ _ i (
            if_elim P (get_or p 0 0 == 0x02) _ _
              (handle_acl-Stays write_ok wpa_join now now_ms info total s p i) (rw other i))
      ]
