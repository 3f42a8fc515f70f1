-- ===== src/Mdb.antt =====
-- cmd/iodin/src/mdb.rs: the MDB master over two GPIO pins. This file has the constants, the
-- checksum and the driver's record; its children have the operations and what is proved of them.
pub mod Time
pub mod Checksum
pub mod Bus
pub mod Driver
pub mod Receive
pub mod Live
pub mod Transfer
use vender.Prelude.{ℕ, zero, suc, ◌+◌, ◌*◌, ◌/◌, ◌%◌, List, foldl}
use vender.Pigpio.{Wave}

abbrev pub block_max_length : ℕ
block_max_length = 40

abbrev pub baud : ℕ
baud = 9600

abbrev pub data_bits : ℕ
data_bits = 9

abbrev pub stop_bits : ℕ
stop_bits = 2

abbrev pub response_ack : ℕ
response_ack = 0x00

abbrev pub response_nak : ℕ
response_nak = 0xff

abbrev pub word_size : ℕ
word_size = 2

abbrev pub buf_size : ℕ
buf_size = block_max_length * word_size

abbrev pub timeout_small_us : ℕ
timeout_small_us = 10_000

abbrev pub timeout_char_us : ℕ
timeout_char_us = 1_000_000 * (data_bits + 2) / baud + 2000

abbrev pub timeout_receive_us : ℕ
timeout_receive_us = block_max_length * timeout_char_us

-- `buf` is the array of `buf_size` bytes.
pub record GpioMdb : Type 0 where
  pub rx_pin : ℕ
  pub tx_pin : ℕ
  pub wave_ack : Wave
  pub wave_nak : Wave
  pub wait_step : ℕ
  pub buf : List ℕ

-- `u8::wrapping_add` over the slice.
unfoldable pub checksum : List ℕ → ℕ
checksum = foldl (λ sum x. (sum + x) % 256) 0
