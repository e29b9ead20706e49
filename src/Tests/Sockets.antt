-- ===== src/Tests/Sockets.antt =====
-- Runs of the daemon on the bytes of its clients.
use esp32_s31_linux.Common.{ℕ, ◌≡◌, refl, arith, List, [], ◌∷◌, Bool, true}
use esp32_s31_linux.BleHa.Api.{Adv, api_frame, api_next, need_more, api_adv_batch}
use esp32_s31_linux.BleHa.Api.Batch.{IsAdv}
use esp32_s31_linux.BleHa.Clients.{Client, read_messages, flush_one}
use esp32_s31_linux.BleHa.Clients.Stream.{
  Message, IsMessage, stream, handle_all, read_messages-stream, flush_one-sent,
}

abbrev takes : List ℕ → Bool
takes p = true

abbrev client : Client
client = record { connected = true; buf = []; subscribed = true; frames = [] }

-- A ping, then a subscription.
abbrev ping : Message
ping = record { type = 7; payload = [] }

abbrev subscribe : Message
subscribe = record { type = 66; payload = 8 ∷ 1 ∷ [] }

ping_ok : IsMessage ping
ping_ok = record { type_word = omega arith; payload_fits = omega arith }

subscribe_ok : IsMessage subscribe
subscribe_ok = record { type_word = omega arith; payload_fits = omega arith }

empty_more : api_next [] ≡ need_more
unfolding api_next
empty_more = refl

read_messages-stream_example :
    read_messages takes [] [] 20 client (stream (ping ∷ subscribe ∷ []) [])
    ≡ handle_all takes [] [] client (ping ∷ subscribe ∷ []) []
read_messages-stream_example =
    read_messages-stream takes [] [] (ping ∷ subscribe ∷ []) 20 client []
      (ping_ok, (subscribe_ok, tt)) empty_more (omega arith)

abbrev beacon : Adv
beacon = record { addr = 0x112233445566; addr_type = 1; rssi = 200; payload = 2 ∷ 1 ∷ 6 ∷ [] }

beacon-IsAdv : IsAdv beacon
beacon-IsAdv = record {
  addr_bits = omega arith;
  type_bits = omega arith;
  rssi_byte = omega arith;
  payload_fits = omega arith;
}

flush_one-sent_example :
    flush_one takes [] [] (beacon ∷ []) client
    ≡ record client { frames = api_frame 93 (api_adv_batch (beacon ∷ [])) ∷ [] }
flush_one-sent_example =
    flush_one-sent takes [] [] (beacon ∷ []) client (beacon-IsAdv, tt) (omega arith) refl refl refl
