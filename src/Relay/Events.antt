-- ===== src/Relay/Events.antt =====
-- tools/thread-relay: what the device's event and the client's event do to the two streams.
use esp32_s31_linux.Common.{
  ℕ, ◌≡◌, ◌≢◌, refl, ap, ◌∙◌, sym, List, [], ◌∷◌, ◌++◌, Option, none, some, Bool, true, false, ◌&&◌,
  if◌then◌else◌, Bool-cases, inl, inr, ◌⊎◌,
}
use mathlib.Core.List.{append-nil}
use mathlib.Core.Path.{subst}
use esp32_s31_linux.Relay.{
  Received, ended, bytes, write_all, State, Round, close_client, Next, after_client_write,
  to_reader, device_step, after_device_write, client_step, is_some, then_client,
}
use esp32_s31_linux.Relay.Writes.{Prefix, WroteOf, write_all-Prefix}

abbrev pub chunk : Received → List ℕ
chunk (bytes buf) = buf
chunk _ = []

-- The read failed, or there is nothing left to come.
abbrev pub Ended : Received → Type 0
Ended ended = Unit {0}
Ended (bytes []) = Unit {0}
Ended _ = ⊥

-- How the writes to the client end.
abbrev pub to_client_writes : Round → Option (Bool × List ℕ)
to_client_writes r = write_all r.client_writes (chunk r.device_read)

abbrev pub Failed : Option (Bool × List ℕ) → Type 0
Failed w = (sent : List ℕ) × (w ≡ some (false, sent))

-- What a round adds to what clients got: nothing if there is no client or there are no bytes, else
-- the first part of the device's bytes, and the client is closed if that is not all of them.
pub data ToPeer (s : State) (r : Round) (s' : State) : Type 0 where
  nothing :
      s'.to_client ≡ s.to_client
      → (r.device ≡ true → chunk r.device_read ≢ [] → s.client ≡ none)
      → ToPeer s r s'
  part :
      (fd : ℕ) (done : Bool) (sent : List ℕ)
      → s'.to_client ≡ s.to_client ++ (fd, sent) ∷ []
      → s.client ≡ some fd
      → Prefix (chunk r.device_read) done sent
      → (done ≡ false → s'.client ≡ none)
      → ToPeer s r s'

-- After the device's event, from the state `s`.
pub record Heard (s : State) (r : Round) (go : Bool) (s' : State) : Type 0 where
  pub same : s'.to_device ≡ s.to_device
  pub to_peer : ToPeer s r s'
  pub stops : go ≡ false → (r.device ≡ true) × Ended r.device_read
  pub client : (s'.client ≡ s.client) ⊎ ((s'.client ≡ none) × Failed (to_client_writes r))

abbrev pub HeardOf : State → Round → Next → Type 0
HeardOf s r none = (r.device ≡ true) × (to_client_writes r ≡ none)
HeardOf s r (some (go, s')) = Heard s r go s'

-- After the client's event too; `peer` is whether it had one.
pub record Carried (s : State) (r : Round) (peer go : Bool) (s' : State) : Type 0 where
  pub sent : List ℕ
  pub rest : List ℕ
  pub appended : s'.to_device ≡ s.to_device ++ sent
  pub parts : sent ++ rest ≡ chunk r.client_read
  pub whole : go ≡ true → peer ≡ true → (fd : ℕ) → s'.client ≡ some fd → rest ≡ []
  pub no_event : peer ≡ false → sent ≡ []
  pub stops : go ≡ false → ((r.device ≡ true) × Ended r.device_read) ⊎ (rest ≢ [])
  pub to_peer : ToPeer s r s'
  pub client :
      (s'.client ≡ s.client)
      ⊎ ((s'.client ≡ none) × (Failed (to_client_writes r) ⊎ ((peer ≡ true) × Ended r.client_read)))

abbrev pub CarriedOf : State → Round → Bool → Next → Type 0
CarriedOf s r peer none =
    ((r.device ≡ true) × (to_client_writes r ≡ none))
    ⊎ ((peer ≡ true) × (write_all r.device_writes (chunk r.client_read) ≡ none))
CarriedOf s r peer (some (go, s')) = Carried s r peer go s'

module _ (s : State) (r : Round) where
  -- A state that nothing was written from.
  Heard-still : (r.device ≡ true → chunk r.device_read ≢ [] → s.client ≡ none) → Heard s r true s
  Heard-still z = record {
    same = refl;
    to_peer = nothing refl z;
    stops = λ h. absurd (cc);
    client = inl refl;
  }

  Heard-ended : r.device ≡ true → Ended r.device_read → Heard s r false s
  Heard-ended d e = record {
    same = refl;
    to_peer = nothing refl (λ _ ne. absurd (Ended-chunk r.device_read e ne));
    stops = λ h. (d, e);
    client = inl refl;
  }
    where
      Ended-chunk : (x : Received) → Ended x → chunk x ≢ [] → ⊥
      Ended-chunk ended u ne = ne refl
      Ended-chunk (bytes []) u ne = ne refl
      Ended-chunk Received.interrupted u ne = elim u [ ]
      Ended-chunk (bytes (_ ∷ _)) u ne = elim u [ ]

  written-Heard :
      (fd : ℕ) (w : Option (Bool × List ℕ))
      → r.device ≡ true
      → s.client ≡ some fd
      → to_client_writes r ≡ w
      → WroteOf (chunk r.device_read) w
      → HeardOf s r (after_client_write fd s w)
  unfolding close_client
  written-Heard fd none d e k p = (d, k)
  written-Heard fd (some (true, sent)) d e k p = record {
    same = refl;
    to_peer = part fd true sent refl e p (λ h. cc);
    stops = λ h. absurd (cc);
    client = inl refl;
  }
  written-Heard fd (some (false, sent)) d e k p = record {
    same = refl;
    to_peer = part fd false sent refl e p (λ h. refl);
    stops = λ h. absurd (cc);
    client = inr (refl, (sent, k));
  }

  to_reader-Heard :
      (c : Option ℕ) (buf : List ℕ)
      → r.device ≡ true
      → s.client ≡ c
      → chunk r.device_read ≡ buf
      → HeardOf s r (to_reader s c r.client_writes buf)
  unfolding to_reader
  to_reader-Heard none buf d e k = Heard-still (λ _ _. e)
  to_reader-Heard (some fd) buf d e k =
      written-Heard fd (write_all r.client_writes buf) d e (ap (write_all r.client_writes) k)
        (rw k (write_all-Prefix r.client_writes buf))

  device_step-Heard :
      (x : Received)
      → r.device ≡ true
      → r.device_read ≡ x
      → HeardOf s r (device_step s x r.client_writes)
  unfolding device_step
  device_step-Heard Received.interrupted d e = Heard-still (λ _ ne. absurd (ne (ap chunk e)))
  device_step-Heard ended d e = Heard-ended d (rw e tt)
  device_step-Heard (bytes []) d e = Heard-ended d (rw e tt)
  device_step-Heard (bytes (b ∷ buf)) d e = to_reader-Heard s.client (b ∷ buf) d refl (ap chunk e)

  pub device-Heard :
      (event : Bool)
      → r.device ≡ event
      → HeardOf s r (if event then device_step s r.device_read r.client_writes else some (true, s))
  device-Heard true d = device_step-Heard r.device_read d refl
  device-Heard false d = Heard-still (λ h _. absurd (cc))

  ToPeer-next :
      (s2 s3 : State)
      → ToPeer s r s2
      → s3.to_client ≡ s2.to_client
      → (s2.client ≡ none → s3.client ≡ none)
      → ToPeer s r s3
  ToPeer-next s2 s3 (nothing e z) f c = nothing (f ∙ e) z
  ToPeer-next s2 s3 (part fd done sent e k p z) f c = part fd done sent (f ∙ e) k p (λ h. c (z h))

  client-kept :
      (peer : Bool) (s2 : State)
      → (s2.client ≡ s.client) ⊎ ((s2.client ≡ none) × Failed (to_client_writes r))
      → (s2.client ≡ s.client)
        ⊎ ((s2.client ≡ none)
            × (Failed (to_client_writes r) ⊎ ((peer ≡ true) × Ended r.client_read)))
  client-kept peer s2 (inl same) = inl same
  client-kept peer s2 (inr (gone, f)) = inr (gone, inl f)

  -- Nothing has gone to the device.
  Carried-still :
      (peer go : Bool) (s2 : State)
      → Heard s r go s2
      → (go ≡ true → peer ≡ true → (fd : ℕ) → s2.client ≡ some fd → chunk r.client_read ≡ [])
      → Carried s r peer go s2
  Carried-still peer go s2 h z = record {
    sent = [];
    rest = chunk r.client_read;
    appended = h.same ∙ sym (append-nil s.to_device);
    parts = refl;
    whole = z;
    no_event = λ e. refl;
    stops = λ e. inl (h.stops e);
    to_peer = h.to_peer;
    client = client-kept peer s2 h.client;
  }

  -- The client is gone.
  Carried-closed :
      (s2 : State)
      → Heard s r true s2
      → Ended r.client_read
      → Carried s r true true (close_client s2)
  unfolding close_client
  Carried-closed s2 h e = record {
    sent = [];
    rest = chunk r.client_read;
    appended = h.same ∙ sym (append-nil s.to_device);
    parts = refl;
    whole = λ _ _ fd c. absurd (cc);
    no_event = λ _. refl;
    stops = λ c. absurd (cc);
    to_peer = ToPeer-next s2 _ h.to_peer refl (λ _. refl);
    client = inr (refl, inr (refl, e));
  }

  to_device-Carried :
      (s2 : State) (w : Option (Bool × List ℕ))
      → Heard s r true s2
      → write_all r.device_writes (chunk r.client_read) ≡ w
      → WroteOf (chunk r.client_read) w
      → CarriedOf s r true (after_device_write s2 w)
  to_device-Carried s2 none h k p = inr (refl, k)
  to_device-Carried s2 (some (done, sent)) h k p = record {
    sent = sent;
    rest = p.rest;
    appended = ap (λ (d : List ℕ). d ++ sent) h.same;
    parts = p.parts;
    whole = λ g _ _ _. p.whole g;
    no_event = λ e. absurd (cc);
    stops = λ g. inr (p.unfinished g);
    to_peer = ToPeer-next s2 _ h.to_peer refl (λ e. e);
    client = client-kept true s2 h.client;
  }

  client_step-Carried :
      (s2 : State) (x : Received)
      → r.client_read ≡ x
      → Heard s r true s2
      → CarriedOf s r true (client_step s2 x r.device_writes)
  unfolding client_step
  client_step-Carried s2 Received.interrupted k h =
      Carried-still true true s2 h (λ _ _ _ _. ap chunk k)
  client_step-Carried s2 ended k h = Carried-closed s2 h (rw k tt)
  client_step-Carried s2 (bytes []) k h = Carried-closed s2 h (rw k tt)
  client_step-Carried s2 (bytes (b ∷ buf)) k h =
      to_device-Carried s2 (write_all r.device_writes (b ∷ buf)) h
        (ap (write_all r.device_writes) (ap chunk k))
        (subst (λ t. WroteOf t (write_all r.device_writes (b ∷ buf))) (sym (ap chunk k))
          (write_all-Prefix r.device_writes (b ∷ buf)))

  no_client : (o : Option ℕ) (fd : ℕ) → (is_some o && true) ≡ false → o ≡ some fd → ⊥
  no_client none fd h e = cc
  no_client (some x) fd h e = cc

  no_peer : (o : Option ℕ) → (is_some o && false) ≡ false
  no_peer none = refl
  no_peer (some x) = refl

  pub then_client-Carried :
      (peer : Bool) (n : Next) → HeardOf s r n → CarriedOf s r peer (then_client r peer n)
  then_client-Carried peer none h = inl h
  then_client-Carried peer (some (false, s2)) h = Carried-still peer false s2 h (λ g. absurd (cc))
  then_client-Carried true (some (true, s2)) h = elim (Bool-cases (is_some s2.client && true)) [
    | inl there ↦ rw there (client_step-Carried s2 r.client_read refl h)
    | inr gone ↦
        rw gone (Carried-still true true s2 h (λ _ _ fd e. absurd (no_client s2.client fd gone e)))
  ]
  then_client-Carried false (some (true, s2)) h =
      rw (no_peer s2.client) (Carried-still false true s2 h (λ _ e. absurd (cc)))
