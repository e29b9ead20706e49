-- ===== src/Tests.antt =====
-- Concrete runs of the modelled code.
mod Blocks
mod Driver
mod Slave
mod Mailbox
mod Bluetooth
mod Adapter
mod Sockets
mod Master
mod Pads
mod Thread
mod Inputs
mod Platform
