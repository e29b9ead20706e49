-- ===== src/Lib.antt =====
-- The C code of the ESP32-S31 Linux port that carries its own protocols: the shared-memory link
-- between Linux on one hart and the radio firmware on the other, the flash mailbox beside it, the
-- Bluetooth daemon ble-ha, and the drivers of the I2C master, the pins, the interrupts and the
-- clocks, with the pin tool and the relay of the Thread radio beside them.
--
-- Parts, and how they interact:
-- - Shm: shared/esp32s31-hosted-shm.h has the block that both harts map. Each direction is a ring of
--   records (a length word and a padded frame) with free-running 32-bit `head` and `tail` words and
--   a flag of a producer that waits. Shm/Layout holds the offsets, Shm/Circular and Shm/Copy the
--   ring's byte positions, Shm/Records the frames that a ring holds (`Frames`), which is the view
--   both sides are measured against.
-- - Shm/Host: linux/drivers/net/wireless/espressif/esp_hosted/esp_shm.c. `esp_shm_push`,
--   `esp_shm_tx_flush`, `esp_shm_tx_flow`, `esp_shm_write`, `esp_shm_read` and the hooks of a
--   firmware reset are functions on `Context`. The firmware's reads during a barrier are the
--   argument `fw`.
-- - Shm/Firmware: bootloader/components/esp_hosted/shm_slave_api.c: `ring_push`, `shm_write`,
--   `shm_read`, `shm_service_host_requests`, `shm_init` and `shm_deinit`, with Linux as the
--   argument `host`.
-- - Shm/Link puts the push of Linux and the read of the firmware on one block, Shm/Return the push
--   of the firmware and the read of Linux.
-- - Shm/Flash: the mailbox of linux/drivers/net/wireless/espressif/esp_hosted/esp_shm_flash.c and
--   bootloader/components/esp_hosted/shm_flash.c. The flash chip is the argument `chip`.
-- - BleHa: tools/ble-ha. Improv is improv.c, Api is api.c, Gatt is gatt.c, Hci is hci.c, Daemon is
--   the part of ble-ha.c that handles the packets of the adapter, and Clients the part that handles
--   the clients of the native API. wpa.c, the clocks and the sockets are arguments.
-- - Clk: linux/drivers/clk/clk-esp32s31.c, the SD host divider, the MPLL rate and the reset bits.
-- - I2c: linux/drivers/i2c/busses/i2c-esp32s31.c. I2c.antt has `esp32s31_i2c_fill` with the queues
--   of addresses, reads and writes, and `esp32s31_i2c_drain`; I2c/Handler the interrupt handler, the
--   two halves of `esp32s31_i2c_xfer` around the wait, the timing and the reset. I2c/Bus says what
--   a bus shows of commands and of messages, I2c/Carry and I2c/Transfer compare the two for one
--   list, I2c/Whole for a transfer.
-- - Pins: the registers of the IO MUX and the GPIO page, on which two programs work.
--   linux/drivers/pinctrl/pinctrl-esp32s31.c is Pins/Driver (functions, configuration, GPIO lines)
--   and Pins/Irq (interrupts, the CNNT word of /dev/esp32s31-gpiomem); tools/pinctrl/esp32s31.c is
--   Pins/Tool, and `set` of tools/pinctrl/pinctrl.c is Pins/Set.
-- - Relay: tools/thread-relay/thread-relay.c, the loop of `relay`: Relay/Clients has the clients
--   that it accepts and closes, Relay/Writes, Relay/Events and Relay/Streams the bytes both ways. What the system calls of a round
--   return is an argument.
-- - Clic: linux/drivers/irqchip/irq-esp32s31-clic.c, the registers of the interrupt inputs and of
--   the Interrupt Matrix.
-- - Sbi: opensbi/platform/esp32s31/platform.c, the machine timer and the cache calls. What the
--   counter shows at each register read is an argument.
-- - Common holds the list, word and memory lemmas; Tests the concrete runs.
--
-- Numbers: a C word is a native number with its wrap written out, a buffer is the list of its bytes,
-- memory is a function from addresses. Control words and data bytes of the block are two memories:
-- the code reads and writes control words as aligned words only.
--
-- Loops: those over a queue, a list or a count are structural. The read of Linux has fuel for 8194
-- records, more than the 32 KiB ring has room for at 4 bytes each. The varint loop has ten rounds,
-- which a 64-bit value never exceeds. The reader of a client has a round for each byte of its
-- buffer, and a frame takes a byte at least. The fill of an I2C list has eight rounds, one for each
-- command register, and a transfer a list for each event that the bus is to show. The loops over
-- handles have a round for each handle. The read of the timer has two rounds, enough when the
-- counter moves by less than 2^32 in six register reads.
-- The writes of the firmware have the number of their waits as an argument, and the flash write the
-- length of its buffer, of which each round takes a byte at least.
--
-- Not modelled: probe and remove functions, interrupts and semaphores, allocation (its outcome is an
-- argument), the poll loop, files and sockets of the daemon, the other drivers, the board code of
-- the boot loader, and the vendored ESP-Hosted driver.
pub mod Common
pub mod Shm
pub mod BleHa
pub mod Clk
pub mod I2c
pub mod Pins
pub mod Relay
pub mod Clic
pub mod Sbi
pub mod Tests
