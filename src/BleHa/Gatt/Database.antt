-- ===== src/BleHa/Gatt/Database.antt =====
-- The attributes of tools/ble-ha/gatt.c: the GAP service and the Improv service.
use esp32_s31_linux.Common.{ℕ, ◌/◌, ◌%◌, List, [], ◌∷◌, Bool, true, false, ◌&&◌, ◌==◌, get_or}

pub data Kind : Type 0 where
  svc decl value cccd : Kind

pub record Attr : Type 0 where
  pub kind : Kind
  pub props : ℕ
  pub uuid : List ℕ

abbrev pub last_handle : ℕ
last_handle = 19

-- A 16-bit number, low byte first.
abbrev pub u16 : ℕ → List ℕ
u16 x = (x % 256) ∷ (x / 256 % 256) ∷ []

abbrev improv : ℕ → List ℕ
improv x =
    x ∷ 0x80 ∷ 0x26 ∷ 0x78 ∷ 0x74 ∷ 0x27 ∷ 0x63 ∷ 0x46 ∷ 0x72 ∷ 0x22 ∷ 0x28 ∷ 0x62 ∷ 0x68 ∷ 0x77
    ∷ 0x46 ∷ 0x00 ∷ []

abbrev attr : Kind → ℕ → List ℕ → Attr
attr k p u = record { kind = k; props = p; uuid = u }

-- PROP_READ 0x02, PROP_WNR 0x04, PROP_WRITE 0x08, PROP_NOTIFY 0x10; handle 0 is not used, and its
-- entry is all zero.
unfoldable pub attributes : List Attr
attributes =
    attr svc 0 []
    ∷ attr svc 0 (u16 0x1800)
    ∷ attr decl 0x02 (u16 0x2a00)
    ∷ attr value 0x02 (u16 0x2a00)
    ∷ attr decl 0x02 (u16 0x2a01)
    ∷ attr value 0x02 (u16 0x2a01)
    ∷ attr svc 0 (improv 0x00)
    ∷ attr decl 0x12 (improv 0x01)
    ∷ attr value 0x12 (improv 0x01)
    ∷ attr cccd 0 []
    ∷ attr decl 0x12 (improv 0x02)
    ∷ attr value 0x12 (improv 0x02)
    ∷ attr cccd 0 []
    ∷ attr decl 0x0c (improv 0x03)
    ∷ attr value 0x0c (improv 0x03)
    ∷ attr decl 0x12 (improv 0x04)
    ∷ attr value 0x12 (improv 0x04)
    ∷ attr cccd 0 []
    ∷ attr decl 0x02 (improv 0x05)
    ∷ attr value 0x02 (improv 0x05)
    ∷ []

unfoldable pub db : ℕ → Attr
unfolding attributes
db h = get_or attributes h (attr svc 0 [])

abbrev kind_type : Attr → Kind → List ℕ
kind_type a svc = u16 0x2800
kind_type a decl = u16 0x2803
kind_type a cccd = u16 0x2902
kind_type a value = a.uuid

unfoldable pub attr_type : ℕ → List ℕ
attr_type h = kind_type (db h) (db h).kind

-- Lengths and bytes agree (`memcmp`).
unfoldable pub bytes_eq : List ℕ → List ℕ → Bool
bytes_eq [] [] = true
bytes_eq [] (y ∷ ys) = false
bytes_eq (x ∷ xs) [] = false
bytes_eq (x ∷ xs) (y ∷ ys) = x == y && bytes_eq xs ys
