-- ===== src/BleHa/Clients.antt =====
-- tools/ble-ha/ble-ha.c: the clients of the native API. A client is its received bytes, whether it
-- subscribes, and the frames that went to it; `connected` is whether it has a descriptor. `send_ok` says
-- whether the socket takes a frame whole.
pub mod Stream
use esp32_s31_linux.Common.{
  ℕ, zero, suc, ◌+◌, List, [], ◌∷◌, ◌++◌, length, Bool, true, false, ◌&&◌, ◌||◌, not, ltb, ◌==◌,
  map, if◌then◌else◌, drop,
}
use esp32_s31_linux.BleHa.Api.{
  Adv, api_frame, api_adv_batch, api_next, Next, need_more, broken, message,
}

-- `struct client`
pub record Client : Type 0 where
  pub connected : Bool
  pub buf : List ℕ
  pub subscribed : Bool
  pub frames : List (List ℕ)

abbrev pub buf_size : ℕ
buf_size = 1024

-- What `recv` gives: nothing yet, the end or an error, or bytes.
pub data Received : Type 0 where
  later gone : Received
  bytes : List ℕ → Received

unfoldable pub client_close : Client → Client
client_close c = record c { connected = false; buf = []; subscribed = false }

module _ (send_ok : List ℕ → Bool) (hello device : List ℕ) where
  unfoldable pub client_send : Client → ℕ → List ℕ → Client
  client_send c type msg =
      let frame = api_frame type msg in
      if ltb 1200 (length msg + 12)
      then c
      else if send_ok frame
      then record c { frames = c.frames ++ (frame ∷ []) }
      else client_close c

  -- `hello` and `device` are what `api_hello` and `api_device_info` make of `s.info`.
  unfoldable pub client_message : Client → ℕ → Client
  client_message c type =
      let bye = client_send c 6 [] in
      if type == 1
      then client_send c 2 hello
      else if type == 5
      then (if bye.connected then client_close bye else bye)
      else if type == 7
      then client_send c 8 []
      else if type == 9
      then client_send c 10 device
      else if type == 11
      then client_send c 19 []
      else if type == 66
      then record c { subscribed = true }
      else if type == 87
      then record c { subscribed = false }
      else if type == 80
      then client_send c 81 []
      else c

  -- What the loop of `client_read` does with the result of `api_next`; `again` goes on.
  unfoldable pub read_next :
      (Client → List ℕ → Client × List ℕ × Bool) → Client → List ℕ → Next → Client × List ℕ × Bool
  read_next again c p need_more = (c, p, false)
  read_next again c p broken = (c, p, true)
  read_next again c p (message r type msg) = again (client_message c type) (drop r p)

  -- The loop on the bytes behind `used`: the client, the bytes left, and whether the last frame is
  -- broken. Each round takes a byte at least.
  unfoldable pub read_messages : ℕ → Client → List ℕ → Client × List ℕ × Bool
  read_messages zero c p = (c, p, false)
  read_messages (suc rounds) c p =
      let next = read_next (λ c' p'. read_messages rounds c' p') c p (api_next p) in
      if c.connected then next else (c, p, false)

  unfoldable pub client_read : Client → Received → Client
  client_read c later = c
  client_read c gone = client_close c
  client_read c (bytes got) =
      let all = c.buf ++ got in
      let (c', rest, bad) = read_messages (length all) (record c { buf = all }) all in
      if not c'.connected
      then c'
      else if bad || (length rest == length all && length all == buf_size)
      then client_close c'
      else record c' { buf = rest }

  unfoldable pub flush_one : List Adv → Client → Client
  flush_one batch c =
      if c.connected && c.subscribed then client_send c 93 (api_adv_batch batch) else c

  -- The clients after `flush_batch`; the batch is empty then.
  unfoldable pub flush_batch : List Adv → List Client → List Client
  flush_batch [] cs = cs
  flush_batch (a ∷ batch) cs = map (λ c. flush_one (a ∷ batch) c) cs

unfoldable pub subscribers : List Client → ℕ
subscribers [] = 0
subscribers (c ∷ cs) = (if c.connected && c.subscribed then 1 else 0) + subscribers cs
