-- ===== src/Tests/Bluetooth.antt =====
-- Runs of the packet code of ble-ha.
use esp32_s31_linux.Common.{ℕ, ◌*◌, ◌≤◌, ◌≡◌, refl, arith, List, [], ◌∷◌, ◌++◌, length, inr}
use esp32_s31_linux.BleHa.Improv.{ImprovCmd, improv_parse, cmd_wifi}
use esp32_s31_linux.BleHa.Improv.Format.{wifi_data, packet, IsSettings, improv_parse-wifi}
use esp32_s31_linux.BleHa.Improv.Parse.{improv_parse-IsSettings}
use esp32_s31_linux.BleHa.Api.{Adv, api_frame, api_next, message, api_adv_batch}
use esp32_s31_linux.BleHa.Api.Frames.{api_next-api_frame}
use esp32_s31_linux.BleHa.Api.Batch.{IsAdv, length-api_adv_batch}
use esp32_s31_linux.BleHa.Hci.{hci_parse_adv_reports}
use esp32_s31_linux.BleHa.Hci.Reports.{IsReport, adv_event, hci_parse_adv_reports-adv_event}
use esp32_s31_linux.Clk.{sdio_div, sdio_val, sdio_recalc_rate, sdio_set_rate, sdio_determine_rate}
use esp32_s31_linux.Clk.Laws.{rate_set}

abbrev home : List ℕ
home = 104 ∷ 111 ∷ 109 ∷ 101 ∷ []

abbrev secret : List ℕ
secret = 115 ∷ 101 ∷ 99 ∷ 114 ∷ 101 ∷ 116 ∷ 49 ∷ 50 ∷ []

abbrev blank : ImprovCmd
blank = record { cmd = 0; ssid = []; pass = [] }

settings : IsSettings home secret
settings = record {
  ssid_some = omega arith;
  ssid_fits = omega arith;
  ssid_text = (λ e. cc, (λ e. cc, (λ e. cc, (λ e. cc, tt))));
  pass_fits = inr (omega arith, omega arith);
  pass_text = (
    (omega arith, omega arith),
    (
      (omega arith, omega arith),
      (
        (omega arith, omega arith),
        (
          (omega arith, omega arith),
          (
            (omega arith, omega arith),
            (
              (omega arith, omega arith),
              ((omega arith, omega arith), ((omega arith, omega arith), tt)),
            ),
          ),
        ),
      ),
    ),
  );
}

improv_parse-wifi_example :
    improv_parse (packet cmd_wifi (wifi_data home secret)) blank
    ≡ (0, record { cmd = cmd_wifi; ssid = home; pass = secret })
improv_parse-wifi_example = improv_parse-wifi home secret blank settings

parsed :
    improv_parse (packet cmd_wifi (wifi_data home secret)) blank
    ≡ (0, record { cmd = cmd_wifi; ssid = home; pass = secret })
parsed = improv_parse-wifi home secret blank settings

improv_parse-IsSettings_example : IsSettings home secret
improv_parse-IsSettings_example =
    improv_parse-IsSettings (packet cmd_wifi (wifi_data home secret)) blank
      (record { cmd = cmd_wifi; ssid = home; pass = secret }) parsed refl

api_next-api_frame_example :
    api_next (api_frame 93 secret ++ (0 ∷ [])) ≡ message (length (api_frame 93 secret)) 93 secret
api_next-api_frame_example = api_next-api_frame 93 secret (0 ∷ []) (omega arith) (omega arith)

abbrev beacon : Adv
beacon = record { addr = 0x112233445566; addr_type = 1; rssi = 200; payload = 2 ∷ 1 ∷ 6 ∷ [] }

beacon-IsAdv : IsAdv beacon
beacon-IsAdv = record {
  addr_bits = omega arith;
  type_bits = omega arith;
  rssi_byte = omega arith;
  payload_fits = omega arith;
}

length-api_adv_batch_example : length (api_adv_batch (beacon ∷ beacon ∷ [])) ≤ 2 * 48
length-api_adv_batch_example =
    length-api_adv_batch (beacon ∷ beacon ∷ []) (beacon-IsAdv, (beacon-IsAdv, tt))

beacon_ok : IsReport beacon
beacon_ok = record {
  addr_bits = omega arith;
  type_byte = omega arith;
  rssi_byte = omega arith;
  payload_fits = omega arith;
}

hci_parse_adv_reports-adv_event_example :
    hci_parse_adv_reports (adv_event 0 (beacon ∷ beacon ∷ [])) 8 ≡ beacon ∷ beacon ∷ []
hci_parse_adv_reports-adv_event_example =
    hci_parse_adv_reports-adv_event (beacon ∷ beacon ∷ []) 0 8 (beacon_ok, (beacon_ok, tt))
      (omega arith)

slower_than_asked :
    (sdio_determine_rate 150000000 400000000 ≡ 133333333)
    × (rate_set 133333333 400000000 ≡ 100000000)
unfolding sdio_determine_rate sdio_div sdio_recalc_rate sdio_set_rate sdio_val
slower_than_asked = (refl, refl)
