-- ===== src/BleHa/Clients/Stream.antt =====
-- The frames of a client's stream, and the batches that go to it.
use esp32_s31_linux.Common.{
  ℕ, zero, suc, ◌+◌, ◌^◌, ◌≤◌, ◌<◌, ◌≡◌, refl, ap, ◌∙◌, sym, arith, List, [], ◌∷◌, ◌++◌, length,
  Bool, true, false, ltb, if◌then◌else◌, All, drop-append, Bool-cases, inl, inr,
}
use esp32_s31_linux.BleHa.Api.{Adv, api_frame, api_next, need_more, api_adv_batch}
use esp32_s31_linux.BleHa.Api.Frames.{api_next-api_frame}
use esp32_s31_linux.BleHa.Api.Batch.{IsAdv, length-api_adv_batch}
use esp32_s31_linux.BleHa.Clients.{
  Client, client_message, client_send, read_next, read_messages, flush_one,
}

-- A message that a client sends: its type and payload.
pub record Message : Type 0 where
  pub type : ℕ
  pub payload : List ℕ

pub record IsMessage (m : Message) : Type 0 where
  pub type_word : m.type < 2 ^ 32
  pub payload_fits : length m.payload ≤ 4096

abbrev pub stream : List Message → List ℕ → List ℕ
stream [] p = p
stream (m ∷ ms) p = api_frame m.type m.payload ++ stream ms p

module _ (send_ok : List ℕ → Bool) (hello device : List ℕ) where
  -- The messages handled one after the other, as long as the client is open.
  abbrev pub handle_all : Client → List Message → List ℕ → Client × List ℕ × Bool
  handle_all c [] p = (c, p, false)
  handle_all c (m ∷ ms) p =
      if c.connected
      then handle_all (client_message send_ok hello device c m.type) ms p
      else (c, stream (m ∷ ms) p, false)

  read_messages_done :
      (rounds : ℕ) (c : Client) (p : List ℕ)
      → api_next p ≡ need_more
      → read_messages send_ok hello device rounds c p ≡ (c, p, false)
  unfolding read_messages read_next
  read_messages_done zero c p e = refl
  read_messages_done (suc n) c p e = elim (Bool-cases c.connected) [
    | inl k ↦ rw (k, e)
    | inr k ↦ rw k
  ]

  read_messages_shut :
      (n : ℕ) (c : Client) (p : List ℕ)
      → c.connected ≡ false
      → read_messages send_ok hello device (suc n) c p ≡ (c, p, false)
  unfolding read_messages
  read_messages_shut n c p o = rw o

  read_messages_next :
      (n : ℕ) (c : Client) (m : Message) (p : List ℕ)
      → IsMessage m
      → c.connected ≡ true
      → read_messages send_ok hello device (suc n) c (api_frame m.type m.payload ++ p)
        ≡ read_messages send_ok hello device n (client_message send_ok hello device c m.type) p
  unfolding read_next
  read_messages_next n c m p ok k =
      let again = λ (c' : Client) (p' : List ℕ). read_messages send_ok hello device n c' p' in
      let frame = api_frame m.type m.payload in
      let opened : read_messages send_ok hello device (suc n) c (frame ++ p)
          ≡ read_next send_ok hello device again c (frame ++ p) (api_next (frame ++ p)) =
        (unfold read_messages in rw k) in
      opened
      ∙ (ap (read_next send_ok hello device again c (frame ++ p))
            (api_next-api_frame m.type m.payload p ok.type_word ok.payload_fits)
          ∙ ap (λ q. again (client_message send_ok hello device c m.type) q) (drop-append frame p))

  -- With a round for each message, the reader handles every whole frame of a stream once, in
  -- order, as long as the client is open, and leaves the part of a frame behind them, for messages
  -- of at most 4096 bytes.
  pub read_messages-stream :
      (ms : List Message) (rounds : ℕ) (c : Client) (p : List ℕ)
      → All IsMessage ms
      → api_next p ≡ need_more
      → length ms ≤ rounds
      → read_messages send_ok hello device rounds c (stream ms p) ≡ handle_all c ms p
  read_messages-stream [] rounds c p h e k = read_messages_done rounds c p e
  read_messages-stream (m ∷ ms) zero c p h e k = absurd (omega arith)
  read_messages-stream (m ∷ ms) (suc n) c p (ok, h) e k =
      let more = handle_all (client_message send_ok hello device c m.type) ms p in
      let stopped : Client × List ℕ × Bool = (c, stream (m ∷ ms) p, false) in
      elim (Bool-cases c.connected) [
        | inl o ↦
            read_messages_next n c m (stream ms p) ok o
            ∙ (read_messages-stream ms n (client_message send_ok hello device c m.type) p h e
                  (omega arith)
                ∙ sym (ap (λ b. if b then more else stopped) o))
        | inr o ↦
            read_messages_shut n c (stream (m ∷ ms) p) o
            ∙ sym (ap (λ b. if b then more else stopped) o)
      ]

  -- A batch of at most 16 advertisements never meets the size limit of `client_send`: an open
  -- subscriber whose socket takes the frame gets the batch as one message of type 93.
  pub flush_one-sent :
      (batch : List Adv) (c : Client)
      → All IsAdv batch
      → length batch ≤ 16
      → c.connected ≡ true
      → c.subscribed ≡ true
      → send_ok (api_frame 93 (api_adv_batch batch)) ≡ true
      → flush_one send_ok hello device batch c
        ≡ record c { frames = c.frames ++ (api_frame 93 (api_adv_batch batch) ∷ []) }
  unfolding flush_one client_send
  flush_one-sent batch c h k o s e =
      let small : ltb 1200 (length (api_adv_batch batch) + 12) ≡ false =
        ground (arith, length-api_adv_batch batch h) in
      rw (o, s, small, e)
