-- ===== src/Relay/Clients.antt =====
-- tools/thread-relay: every client that is accepted is closed once, in order.
use esp32_s31_linux.Common.{
  ℕ, ◌≡◌, refl, ap, ◌∙◌, sym, List, [], ◌∷◌, ◌++◌, Option, none, some, Bool, true, false, ◌&&◌,
  Bool-cases, inl, inr, if_elim,
}
use mathlib.Core.List.{append-nil}
use esp32_s31_linux.Relay.{
  Wrote, Received, ended, bytes, write_all, State, Round, listed, close_client, accept_client, Next,
  after_client_write, to_reader, device_step, after_device_write, client_step, is_some,
  listener_step, then_client, relay_round, relay_loop,
}

-- The clients that were accepted are those that were closed, and then the one that is there.
abbrev pub IsBalanced : State → Type 0
IsBalanced s = s.accepted ≡ s.closed ++ listed s.client

-- What a step keeps, however it ends.
abbrev Keeps : (State → Type 0) → Next → Type 0
Keeps P none = Unit {0}
Keeps P (some (go, s)) = P s

close_client-IsBalanced : (s : State) → IsBalanced s → IsBalanced (close_client s)
unfolding close_client
close_client-IsBalanced s h = h ∙ sym (append-nil (s.closed ++ listed s.client))

accept_client-IsBalanced :
    (s : State) (fd : Option ℕ) → IsBalanced s → IsBalanced (accept_client s fd)
unfolding accept_client close_client
accept_client-IsBalanced s none h = h
accept_client-IsBalanced s (some fd) h = ap (λ (t : List ℕ). t ++ fd ∷ []) h

listener_step-IsBalanced : (r : Round) (s : State) → IsBalanced s → IsBalanced (listener_step r s).0
unfolding listener_step
listener_step-IsBalanced r s h = elim (Bool-cases r.listener) [
  | inl on ↦ rw on (accept_client-IsBalanced s r.accept h)
  | inr off ↦ rw off h
]

written-IsBalanced :
    (fd : ℕ) (s : State) (w : Option (Bool × List ℕ))
    → IsBalanced s
    → Keeps IsBalanced (after_client_write fd s w)
unfolding close_client
written-IsBalanced fd s none h = tt
written-IsBalanced fd s (some (true, sent)) h = h
written-IsBalanced fd s (some (false, sent)) h = h ∙ sym (append-nil (s.closed ++ listed s.client))

to_reader-IsBalanced :
    (s : State) (c : Option ℕ) (calls : List Wrote) (buf : List ℕ)
    → IsBalanced s
    → Keeps IsBalanced (to_reader s c calls buf)
unfolding to_reader
to_reader-IsBalanced s none calls buf h = h
to_reader-IsBalanced s (some fd) calls buf h = written-IsBalanced fd s (write_all calls buf) h

device_step-IsBalanced :
    (s : State) (x : Received) (calls : List Wrote)
    → IsBalanced s
    → Keeps IsBalanced (device_step s x calls)
unfolding device_step
device_step-IsBalanced s Received.interrupted calls h = h
device_step-IsBalanced s ended calls h = h
device_step-IsBalanced s (bytes []) calls h = h
device_step-IsBalanced s (bytes (b ∷ buf)) calls h =
    to_reader-IsBalanced s s.client calls (b ∷ buf) h

to_device-IsBalanced :
    (s : State) (w : Option (Bool × List ℕ))
    → IsBalanced s
    → Keeps IsBalanced (after_device_write s w)
to_device-IsBalanced s none h = tt
to_device-IsBalanced s (some (done, sent)) h = h

client_step-IsBalanced :
    (s : State) (x : Received) (calls : List Wrote)
    → IsBalanced s
    → Keeps IsBalanced (client_step s x calls)
unfolding client_step
client_step-IsBalanced s Received.interrupted calls h = h
client_step-IsBalanced s ended calls h = close_client-IsBalanced s h
client_step-IsBalanced s (bytes []) calls h = close_client-IsBalanced s h
client_step-IsBalanced s (bytes (b ∷ buf)) calls h =
    to_device-IsBalanced s (write_all calls (b ∷ buf)) h

then_client-IsBalanced :
    (r : Round) (peer : Bool) (n : Next)
    → Keeps IsBalanced n
    → Keeps IsBalanced (then_client r peer n)
then_client-IsBalanced r peer none h = tt
then_client-IsBalanced r peer (some (false, s)) h = h
then_client-IsBalanced r peer (some (true, s)) h =
    if_elim (Keeps IsBalanced) (is_some s.client && peer) _ _
      (client_step-IsBalanced s r.client_read r.device_writes h) h

relay_round-IsBalanced : (r : Round) (s : State) → IsBalanced s → Keeps IsBalanced (relay_round r s)
unfolding relay_round
relay_round-IsBalanced r s h =
    let b = listener_step-IsBalanced r s h in
    then_client-IsBalanced r (listener_step r s).1 _ (
      if_elim (Keeps IsBalanced) r.device _ _
        (device_step-IsBalanced (listener_step r s).0 r.device_read r.client_writes b) b)

-- Where the loop stands: `relay` has returned, or it runs on.
abbrev pub Outcome : Next → Type 0
Outcome none = Unit {0}
Outcome (some (true, s)) = IsBalanced s
Outcome (some (false, s)) = (s.client ≡ none) × (s.accepted ≡ s.closed)

returned : (s : State) → IsBalanced s → Outcome (some (false, close_client s))
unfolding close_client
returned s h = (refl, h)

relay_loop-step :
    (r : Round) (rs : List (Option Round)) (s : State) (n : Next)
    → relay_round r s ≡ n
    → Keeps IsBalanced n
    → ((s' : State) → IsBalanced s' → Outcome (relay_loop rs s'))
    → Outcome (relay_loop (some r ∷ rs) s)
unfolding relay_loop
relay_loop-step r rs s none e k next = rw (e, relay_loop) tt
relay_loop-step r rs s (some (false, s')) e k next = rw (e, relay_loop) (returned s' k)
relay_loop-step r rs s (some (true, s')) e k next = rw (e, relay_loop) (next s' k)

-- Whatever the system calls return, in any number of rounds, no client is lost and none is closed
-- twice: while the loop runs, the clients that were accepted are those that were closed, in the
-- same order, and then the one that is there; when it returns, all of them are closed.
pub relay_loop-Outcome :
    (rs : List (Option Round)) (s : State) → IsBalanced s → Outcome (relay_loop rs s)
relay_loop-Outcome [] s h = unfold relay_loop in h
relay_loop-Outcome (none ∷ rs) s h = unfold relay_loop in returned s h
relay_loop-Outcome (some r ∷ rs) s h =
    relay_loop-step r rs s (relay_round r s) refl (relay_round-IsBalanced r s h)
      (relay_loop-Outcome rs)
