-- ===== src/BleHa.antt =====
-- tools/ble-ha, the Bluetooth daemon: its packet codes, the ATT server, and what it does with the
-- packets of the adapter and of its clients.
pub mod Improv
pub mod Api
pub mod Gatt
pub mod Hci
pub mod Daemon
pub mod Clients
