-- ===== src/Shm.antt =====
-- The shared-memory link between Linux and the firmware, and the flash mailbox beside it.
pub mod Layout
pub mod Circular
pub mod Copy
pub mod Records
pub mod Sizes
pub mod Host
pub mod Firmware
pub mod Link
pub mod Return
pub mod Flash
