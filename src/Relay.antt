-- ===== src/Relay.antt =====
-- tools/thread-relay/thread-relay.c: the loop between the device of the Thread radio and one TCP
-- client. What the system calls return in a round of the loop is the round's `Round`; the records
-- of what was accepted, closed and written are what the system has seen.
pub mod Clients
pub mod Writes
pub mod Events
pub mod Streams
use esp32_s31_linux.Common.{
  ℕ, zero, suc, ◌+◌, List, [], ◌∷◌, ◌++◌, Option, none, some, Bool, true, false, not, ◌&&◌, ◌||◌,
  ◌==◌, if◌then◌else◌, length, take, drop,
}

-- One call of `write`: EINTR, another error or no progress, or a number of bytes.
pub data Wrote : Type 0 where
  interrupted : Wrote
  failed : Wrote
  wrote : ℕ → Wrote

-- One call of `read`: EINTR, another error, or bytes, with none at the end of the stream.
pub data Received : Type 0 where
  interrupted : Received
  ended : Received
  bytes : List ℕ → Received

-- What was written when `write_all` returns, and whether it is 0; `none` while a `write` blocks.
abbrev pub sent_before : List ℕ → Option (Bool × List ℕ) → Option (Bool × List ℕ)
sent_before xs none = none
sent_before xs (some (done, ys)) = some (done, xs ++ ys)

unfoldable pub write_all : List Wrote → List ℕ → Option (Bool × List ℕ)
write_all calls [] = some (true, [])
write_all [] (b ∷ buf) = none
write_all (Wrote.interrupted ∷ calls) (b ∷ buf) = write_all calls (b ∷ buf)
write_all (failed ∷ calls) (b ∷ buf) = some (false, [])
write_all (wrote n ∷ calls) (b ∷ buf) =
    let rest = write_all calls (drop n (b ∷ buf)) in
    if n == 0 then some (false, []) else sent_before (take n (b ∷ buf)) rest

-- The descriptor of the client, and what the system has seen of the relay.
pub record State : Type 0 where
  pub client : Option ℕ
  pub accepted : List ℕ
  pub closed : List ℕ
  pub to_client : List (ℕ × List ℕ)
  pub to_device : List ℕ

-- One round: the events of `poll` on the listener, the device and the client, what `accept` gives,
-- and the calls of the reads and writes if they are made.
pub record Round : Type 0 where
  pub listener : Bool
  pub device : Bool
  pub peer : Bool
  pub accept : Option ℕ
  pub device_read : Received
  pub client_writes : List Wrote
  pub client_read : Received
  pub device_writes : List Wrote

abbrev pub listed : Option ℕ → List ℕ
listed none = []
listed (some fd) = fd ∷ []

-- `close(pfd[2].fd); pfd[2].fd = -1`, and the close at the end.
unfoldable pub close_client : State → State
close_client s = record s { client = none; closed = s.closed ++ listed s.client }

-- `accept_client`: a new client replaces the old one.
unfoldable pub accept_client : State → Option ℕ → State
accept_client s none = s
accept_client s (some fd) = record (close_client s) {
  client = some fd;
  accepted = s.accepted ++ fd ∷ [];
}

-- The new state, and whether the loop goes on.
abbrev pub Next : Type 0
Next = Option (Bool × State)

abbrev pub after_client_write : ℕ → State → Option (Bool × List ℕ) → Next
after_client_write fd s none = none
after_client_write fd s (some (done, sent)) =
    let logged = record s { to_client = s.to_client ++ (fd, sent) ∷ [] } in
    some (true, if done then logged else close_client logged)

-- The bytes of the device go to the client; without one they have no reader.
unfoldable pub to_reader : State → Option ℕ → List Wrote → List ℕ → Next
to_reader s none calls buf = some (true, s)
to_reader s (some fd) calls buf = after_client_write fd s (write_all calls buf)

unfoldable pub device_step : State → Received → List Wrote → Next
device_step s Received.interrupted calls = some (true, s)
device_step s ended calls = some (false, s)
device_step s (bytes []) calls = some (false, s)
device_step s (bytes (b ∷ buf)) calls = to_reader s s.client calls (b ∷ buf)

abbrev pub after_device_write : State → Option (Bool × List ℕ) → Next
after_device_write s none = none
after_device_write s (some (done, sent)) = some (done, record s { to_device = s.to_device ++ sent })

unfoldable pub client_step : State → Received → List Wrote → Next
client_step s Received.interrupted calls = some (true, s)
client_step s ended calls = some (true, close_client s)
client_step s (bytes []) calls = some (true, close_client s)
client_step s (bytes (b ∷ buf)) calls = after_device_write s (write_all calls (b ∷ buf))

abbrev pub is_some : Option ℕ → Bool
is_some none = false
is_some (some fd) = true

-- The events that `poll` reported for the old client are not those of the new one.
unfoldable pub listener_step : Round → State → State × Bool
listener_step r s =
    if r.listener then (accept_client s r.accept, r.peer && not (is_some r.accept)) else (s, r.peer)

abbrev pub then_client : Round → Bool → Next → Next
then_client r peer none = none
then_client r peer (some (false, s)) = some (false, s)
then_client r peer (some (true, s)) =
    if is_some s.client && peer then client_step s r.client_read r.device_writes else some (true, s)

-- The body of the loop in `relay`; `none` while a write blocks.
unfoldable pub relay_round : Round → State → Next
relay_round r s =
    let (s1, peer) = listener_step r s in
    then_client r peer
      (if r.device then device_step s1 r.device_read r.client_writes else some (true, s1))

-- `relay` over the rounds, `none` for a `poll` that fails (an EINTR only polls again): the state
-- while it runs, or the one that it returns with.
unfoldable pub relay_loop : List (Option Round) → State → Next
relay_loop [] s = some (true, s)
relay_loop (none ∷ rs) s = some (false, close_client s)
relay_loop (some r ∷ rs) s = elim (relay_round r s) [
  | none ↦ none
  | some (false, s') ↦ some (false, close_client s')
  | some (true, s') ↦ relay_loop rs s'
]
