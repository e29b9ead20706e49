-- ===== src/Shm/Sizes.antt =====
-- The sizes of the two rings, and the record length without a wrap.
use esp32_s31_linux.Common.{ℕ, ◌+◌, ◌^◌, ◌<◌, ◌≡◌, arith}
use native.Mathlib.Nat.{dvd_iff_mod-eq-zero}
use mathlib.Core.Path.{refl}
use esp32_s31_linux.Shm.Layout.{to_host, to_fw, record_len}
use esp32_s31_linux.Shm.Records.{IsSized, space}

pub to_fw-IsSized : IsSized to_fw.size
to_fw-IsSized = record {
  positive = omega arith;
  small = omega arith;
  divides = (dvd_iff_mod-eq-zero to_fw.size {n = 2 ^ 32}).1 refl;
}

pub to_host-IsSized : IsSized to_host.size
to_host-IsSized = record {
  positive = omega arith;
  small = omega arith;
  divides = (dvd_iff_mod-eq-zero to_host.size {n = 2 ^ 32}).1 refl;
}

pub record_len-space : (n : ℕ) → n + 8 < 2 ^ 32 → record_len n ≡ space n
record_len-space n h = omega arith
