-- ===== src/Tests/Thread.antt =====
-- Runs of the relay of the Thread radio.
use esp32_s31_linux.Common.{◌≡◌, refl, [], ◌∷◌, none, some, true, false}
use esp32_s31_linux.Relay.{
  wrote, ended, bytes, State, Round, relay_round, relay_loop, accept_client, close_client,
  listener_step, device_step, client_step, to_reader, write_all,
}
use esp32_s31_linux.Relay.Clients.{Outcome, relay_loop-Outcome}

-- The relay with the client 5.
abbrev one_client : State
one_client = record {
  client = some 5;
  accepted = 5 ∷ [];
  closed = [];
  to_client = [];
  to_device = [];
}

-- A new client comes, while the device has three bytes and the old client had an event.
abbrev replaced : Round
replaced = record {
  listener = true;
  device = true;
  peer = true;
  accept = some 6;
  device_read = bytes (1 ∷ 2 ∷ 3 ∷ []);
  client_writes = wrote 2 ∷ wrote 1 ∷ [];
  client_read = bytes (9 ∷ []);
  device_writes = wrote 1 ∷ [];
}

-- The device goes away.
abbrev gone : Round
gone = record {
  listener = false;
  device = true;
  peer = false;
  accept = none;
  device_read = ended;
  client_writes = [];
  client_read = ended;
  device_writes = [];
}

relay_loop-Outcome_example : Outcome (relay_loop (some replaced ∷ some gone ∷ []) one_client)
relay_loop-Outcome_example = relay_loop-Outcome (some replaced ∷ some gone ∷ []) one_client refl

-- The new client has the bytes, and the relay closes both in order.
replaced_run :
    relay_loop (some replaced ∷ some gone ∷ []) one_client
    ≡ some (
      false,
      record {
        client = none;
        accepted = 5 ∷ 6 ∷ [];
        closed = 5 ∷ 6 ∷ [];
        to_client = (6, 1 ∷ 2 ∷ 3 ∷ []) ∷ [];
        to_device = [];
      },
    )
unfolding relay_loop relay_round listener_step accept_client close_client device_step to_reader
    write_all client_step
replaced_run = refl
