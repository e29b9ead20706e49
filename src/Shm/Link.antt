-- ===== src/Shm/Link.antt =====
-- The two sides joined over one ring: any sequence of sends by one side and reads by the other
-- returns what a bounded queue of frames returns.
use esp32_s31_linux.Common.{
  ℕ, ◌+◌, ◌≤◌, ◌<◌, ◌≡◌, refl, ap, arith, List, [], ◌∷◌, ◌++◌, length, All, Bool, true, false, ltb,
  if◌then◌else◌, Option, none, some, inl, inr, ltb→lt, Bool-cases,
}
use mathlib.Core.Path.{ap₂}
use esp32_s31_linux.Shm.Layout.{Block, to_fw}
use esp32_s31_linux.Shm.Records.{Frame, Frames, IsFrame, used, space}
use esp32_s31_linux.Shm.Host
use esp32_s31_linux.Shm.Host.Push
use esp32_s31_linux.Shm.Firmware
use esp32_s31_linux.Shm.Firmware.{to_fw_frame_max}
use esp32_s31_linux.Shm.Firmware.Read

pub data Op : Type 0 where
  send : Frame → Op
  receive : Op

pub data Reply : Type 0 where
  accepted : Bool → Reply
  received : Option Frame → Reply

-- The bounded queue: a frame is accepted if its record fits in what the others leave.
module _ (size : ℕ) where
  unfoldable pub run_queue : List Frame → List Op → List Reply
  run_queue fs [] = []
  run_queue fs (send f ∷ ops) =
      let more = run_queue (fs ++ (f ∷ [])) ops in
      let same = run_queue fs ops in
      if ltb size (used fs + space (length f)) then accepted false ∷ same else accepted true ∷ more
  run_queue [] (receive ∷ ops) = received none ∷ run_queue [] ops
  run_queue (f ∷ fs) (receive ∷ ops) = received (some f) ∷ run_queue fs ops

abbrev pub IsSend : ℕ → ℕ → Op → Type 0
IsSend lo hi (send f) = IsFrame lo hi f
IsSend lo hi receive = Unit {0}

-- Linux sends, the firmware reads.
module _ (hdr : ℕ) where
  abbrev pub firmware_reply : Block → Option Firmware.ReadResult → Option Frame × Block
  firmware_reply b none = (none, b)
  firmware_reply b (some (Firmware.dropped b')) = (none, b')
  firmware_reply b (some Firmware.no_memory) = (none, b)
  firmware_reply b (some (Firmware.got f b' rung)) = (some f, b')

  unfoldable pub run_to_fw : Block → List Op → List Reply
  run_to_fw b [] = []
  run_to_fw b (send f ∷ ops) =
      let (ok, b', kick) = Host.esp_shm_push (λ c. c) b f false in accepted ok ∷ run_to_fw b' ops
  run_to_fw b (receive ∷ ops) =
      let (f, b') = firmware_reply b (Firmware.shm_read hdr true b) in received f ∷ run_to_fw b' ops

  pub push-accepted :
      (b : Block) (fs : List Frame) (f : Frame)
      → Frames to_fw hdr to_fw_frame_max b fs
      → IsFrame hdr to_fw_frame_max f
      → used fs + space (length f) ≤ to_fw.size
      → ((Host.esp_shm_push (λ c. c) b f false).0 ≡ true)
        × Frames to_fw hdr to_fw_frame_max (Host.esp_shm_push (λ c. c) b f false).1 (fs ++ (f ∷ []))
  push-accepted b fs f v ok fit =
      unfold Host.esp_shm_push in
      (rw fits, rw fits (Push.push_store-Frames hdr to_fw_frame_max (omega arith) b fs f v ok fit))
    where
      fits : Host.push_fits b f ≡ true
      fits = ground (arith, Push.push_fits_lem hdr to_fw_frame_max (omega arith) b fs f v ok.1)

  push-refused :
      (b : Block) (fs : List Frame) (f : Frame)
      → Frames to_fw hdr to_fw_frame_max b fs
      → IsFrame hdr to_fw_frame_max f
      → to_fw.size < used fs + space (length f)
      → Host.esp_shm_push (λ c. c) b f false ≡ (false, b, false)
  push-refused b fs f v ok full = unfold Host.esp_shm_push in rw fits
    where
      fits : Host.push_fits b f ≡ false
      fits =
          ground (arith, v.fits, Push.push_fits_lem hdr to_fw_frame_max (omega arith) b fs f v ok.1)

  -- On a ring that holds `fs`, no sequence of sends by Linux and reads by the firmware tells the
  -- ring from the bounded queue of the frames that it holds, for frames of a header to 8 KiB, with
  -- memory for every read and no read inside a send.
  pub run_to_fw-queue :
      (ops : List Op) (b : Block) (fs : List Frame)
      → Frames to_fw hdr to_fw_frame_max b fs
      → All (IsSend hdr to_fw_frame_max) ops
      → run_to_fw b ops ≡ run_queue to_fw.size fs ops
  unfolding run_to_fw run_queue
  run_to_fw-queue [] b fs v h = refl
  run_to_fw-queue (send f ∷ ops) b fs v (ok, h) =
      elim (Bool-cases (ltb to_fw.size (used fs + space (length f)))) [
        | inl full ↦
            rw (full, push-refused b fs f v ok (ltb→lt _ _ full))
              (ap (λ l. accepted false ∷ l) (run_to_fw-queue ops b fs v h))
        | inr fit ↦
            let (e, v') = push-accepted b fs f v ok (ground arith) in
            rw fit (ap₂ (λ k l. accepted k ∷ l) e (run_to_fw-queue ops _ (fs ++ (f ∷ [])) v' h))
      ]
  run_to_fw-queue (receive ∷ ops) b [] v (ok, h) =
      rw ((Read.shm_read-sleeps hdr true b [] v).1 refl)
        (ap (λ l. received none ∷ l) (run_to_fw-queue ops b [] v h))
  run_to_fw-queue (receive ∷ ops) b (f ∷ fs) v (ok, h) =
      let (e, v') = Read.shm_read-frame hdr b f fs v in
      rw e (ap (λ l. received (some f) ∷ l) (run_to_fw-queue ops _ fs v' h))
