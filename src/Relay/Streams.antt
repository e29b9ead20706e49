-- ===== src/Relay/Streams.antt =====
-- tools/thread-relay: which bytes reach the device and the client in a round.
use esp32_s31_linux.Common.{
  ℕ, ◌≡◌, ◌≢◌, List, [], ◌++◌, Option, none, some, Bool, true, false, if◌then◌else◌, ◌⊎◌,
}
use esp32_s31_linux.Relay.{write_all, State, Round, Next}
use esp32_s31_linux.Relay.Events.{chunk, Ended, Failed, to_client_writes, ToPeer}

-- The client of a round: the one that it accepts, else the one that was there.
abbrev pub client_of : Round → State → Option ℕ
client_of r s = elim r.accept [
  | none ↦ s.client
  | some fd ↦ if r.listener then some fd else s.client
]

-- The streams of a round from `s` to `s'`.
pub record Streams (s : State) (r : Round) (go : Bool) (s' : State) : Type 0 where
  pub sent : List ℕ
  pub rest : List ℕ
  pub appended : s'.to_device ≡ s.to_device ++ sent
  pub parts : sent ++ rest ≡ chunk r.client_read
  pub whole :
      go ≡ true
      → r.peer ≡ true
      → (r.listener ≡ true → r.accept ≡ none)
      → (fd : ℕ) → s'.client ≡ some fd
      → rest ≡ []
  pub not_new : (fd : ℕ) → r.listener ≡ true → r.accept ≡ some fd → sent ≡ []
  pub stops : go ≡ false → ((r.device ≡ true) × Ended r.device_read) ⊎ (rest ≢ [])
  pub to_peer : ToPeer (record s { client = client_of r s }) r s'
  pub client :
      (s'.client ≡ client_of r s)
      ⊎ ((s'.client ≡ none)
          × (Failed (to_client_writes r) ⊎ ((r.peer ≡ true) × Ended r.client_read)))

-- Without a new state, a write blocks.
abbrev pub StreamsOf : State → Round → Next → Type 0
StreamsOf s r none =
    ((r.device ≡ true) × (to_client_writes r ≡ none))
    ⊎ ((r.peer ≡ true) × (write_all r.device_writes (chunk r.client_read) ≡ none))
StreamsOf s r (some (go, s')) = Streams s r go s'
