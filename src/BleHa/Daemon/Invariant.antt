-- ===== src/BleHa/Daemon/Invariant.antt =====
-- What every packet of the adapter keeps of the daemon's state.
use esp32_s31_linux.Common.{
  ℕ, ◌+◌, ◌^◌, ◌≤◌, ◌<◌, ◌≡◌, refl, arith, List, [], ◌∷◌, length, Option, none, some, Bool, ◌||◌,
  not, ltb, ◌==◌, All, if_elim, Bool-cases, inl, inr,
}
use esp32_s31_linux.BleHa.Gatt.{Gatt}
use esp32_s31_linux.BleHa.Gatt.Invariant.{IsServer}
use esp32_s31_linux.BleHa.Hci.{hci_acl_frame}
use esp32_s31_linux.BleHa.Daemon.{
  Daemon, with_gatt, acl_send_on, acl_send, notify, set_error, set_state, set_result,
}

-- The credits and the packets that the controller still has make `total`, the buffers are within
-- their arrays, the server is well formed, and every packet that went out fits the controller's
-- buffers: four bytes of the HCI header and the packet type before the frame.
pub record IsDaemon (total : ℕ) (s : Daemon) : Type 0 where
  pub credits : s.acl_credits + s.conn_sent ≡ total
  pub few : total < 2 ^ 16
  pub l2_fits : length s.l2 ≤ 256
  pub rpc_fits : length s.rpc ≤ 128
  pub batch_fits : length s.batch ≤ 16
  pub server : IsServer s.gatt
  pub outbox_fits : All (λ p. length p ≤ s.acl_len + 5) s.outbox

module _ (total : ℕ) where
  pub with_gatt-IsDaemon :
      (s : Daemon) (g : Gatt) → IsDaemon total s → IsServer g → IsDaemon total (with_gatt s g)
  with_gatt-IsDaemon s g i v = record {
    credits = i.credits;
    few = i.few;
    l2_fits = i.l2_fits;
    rpc_fits = i.rpc_fits;
    batch_fits = i.batch_fits;
    server = v;
    outbox_fits = i.outbox_fits;
  }

length-hci_acl_frame :
    (h cid : ℕ) (bytes : List ℕ) → length (hci_acl_frame h cid bytes) ≡ length bytes + 9
unfolding hci_acl_frame
length-hci_acl_frame h cid bytes = omega arith

module _ (write_ok : List ℕ → Bool) (wpa_join : List ℕ → List ℕ → Option ℕ) (now now_ms : ℕ)
    (info : List (List ℕ)) (total : ℕ) where
  abbrev Kept : Daemon → Type 0
  Kept s = IsDaemon total s

  acl_send_on-Kept :
      (s : Daemon) (cid : ℕ) (bytes : List ℕ) (o : Option ℕ)
      → Kept s
      → Kept (acl_send_on write_ok wpa_join now now_ms info s cid bytes o)
  unfolding acl_send_on
  acl_send_on-Kept s cid bytes none i = i
  acl_send_on-Kept s cid bytes (some h) i =
      let pkt = hci_acl_frame h cid bytes in
      elim (Bool-cases (ltb s.acl_len (length bytes + 4) || ltb 300 (length bytes + 9))) [
        | inl e ↦ rw e i
        | inr fits ↦ rw fits (elim (Bool-cases (s.acl_credits == 0)) [
          | inl e ↦ rw e i
          | inr some_left ↦ rw some_left (
              if_elim (λ (x : Daemon). Kept x) (write_ok pkt) _ _
                (record {
                  credits = ground (arith, some_left, i.credits, i.few);
                  few = i.few;
                  l2_fits = i.l2_fits;
                  rpc_fits = i.rpc_fits;
                  batch_fits = i.batch_fits;
                  server = i.server;
                  outbox_fits =
                      (ground (arith, fits, length-hci_acl_frame h cid bytes), i.outbox_fits);
                })
                i)
        ])
      ]

  pub acl_send-Kept :
      (s : Daemon) (cid : ℕ) (bytes : List ℕ)
      → Kept s
      → Kept (acl_send write_ok wpa_join now now_ms info s cid bytes)
  unfolding acl_send
  acl_send-Kept s cid bytes i = acl_send_on-Kept s cid bytes s.conn i

  pub notify-Kept :
      (s : Daemon) (h : ℕ) (v : List ℕ)
      → Kept s
      → Kept (notify write_ok wpa_join now now_ms info s h v)
  unfolding notify
  notify-Kept s h v i = if_elim (λ (x : Daemon). Kept x) _ _ _ i (acl_send-Kept s 4 _ i)

  -- The server with other bytes in its characteristics.
  same_mtu-IsServer :
      (g g' : Gatt)
      → g'.mtu ≡ g.mtu
      → g'.mtu_max ≡ g.mtu_max
      → g'.prep ≡ g.prep
      → IsServer g
      → IsServer g'
  same_mtu-IsServer g g' a b c i = record {
    mtu_low = omega (arith, i.mtu_low);
    mtu_high = omega (arith, i.mtu_high);
    prep_fits = rw c i.prep_fits;
  }

  set_error-Kept :
      (s : Daemon) (error : ℕ) → Kept s → Kept (set_error write_ok wpa_join now now_ms info s error)
  unfolding set_error
  set_error-Kept s error i =
      if_elim (λ (x : Daemon). Kept x) _ _ _
        (notify-Kept _ 11 _
          (with_gatt-IsDaemon total s _ i (same_mtu-IsServer s.gatt _ refl refl refl i.server)))
        i

  pub set_state-Kept :
      (s : Daemon) (state error : ℕ)
      → Kept s
      → Kept (set_state write_ok wpa_join now now_ms info s state error)
  unfolding set_state
  set_state-Kept s state error i =
      let s1 = set_error write_ok wpa_join now now_ms info s error in
      let j = set_error-Kept s error i in
      let k = notify-Kept _ 8 (state ∷ []) (
        with_gatt-IsDaemon total s1 (record (s1.gatt) { state = state }) j
          (same_mtu-IsServer s1.gatt _ refl refl refl j.server)) in
      if_elim (λ (x : Daemon). Kept x) (not (state == s1.gatt.state)) _ s1
        (record {
          credits = k.credits;
          few = k.few;
          l2_fits = k.l2_fits;
          rpc_fits = k.rpc_fits;
          batch_fits = k.batch_fits;
          server = k.server;
          outbox_fits = k.outbox_fits;
        })
        j

  pub set_result-Kept :
      (s : Daemon) (cmd : ℕ) (strings : List (List ℕ))
      → Kept s
      → Kept (set_result write_ok wpa_join now now_ms info s cmd strings)
  unfolding set_result
  set_result-Kept s cmd strings i =
      notify-Kept _ 16 _
        (with_gatt-IsDaemon total s _ i (same_mtu-IsServer s.gatt _ refl refl refl i.server))
