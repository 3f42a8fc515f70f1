-- ===== src/Ffi/Mock.antt =====
-- The module `mock` of hardware/pigpio-rust/src/mock.rs, which stands in for the C library where
-- there is none: every function gives a constant.
use vender.Prelude.{ℕ, ℤ, pos, negsuc, [], ◌∷◌}
use vender.Ffi.{
  Call, cfg_interfaces, initialise, delay, serial_read_open, serial_read_close, serial_read,
  wave_add_new, wave_add_serial, wave_create, wave_delete, wave_tx_busy, wave_tx_send, wave_tx_stop,
  set_mode, write, History, Hardware,
}

unfoldable pub mock_code : Call → ℤ
mock_code (cfg_interfaces flags) = pos 0
mock_code initialise = pos 0
mock_code (serial_read_open gpio baud data_bits) = pos 0
mock_code (serial_read_close gpio) = negsuc 0
mock_code (serial_read gpio size) = negsuc 0
mock_code wave_add_new = pos 0
mock_code (wave_add_serial gpio baud data_bits stop_bits offset bytes) = pos 0
mock_code wave_create = pos 0
mock_code (wave_delete wave) = negsuc 0
mock_code wave_tx_busy = pos 0
mock_code (wave_tx_send wave mode) = negsuc 0
mock_code wave_tx_stop = pos 0
mock_code (set_mode gpio mode) = pos 0
mock_code (write gpio level) = negsuc 0
-- `gpioTick` and `gpioDelay` have no such result
mock_code _ = pos 0

unfoldable pub mock_word : Call → ℕ
mock_word (delay micros) = micros
mock_word _ = 0

code_of : History → ℤ
unfolding mock_code
code_of [] = pos 0
code_of (c ∷ h) = mock_code c

word_of : History → ℕ
unfolding mock_word
word_of [] = 0
word_of (c ∷ h) = mock_word c

unfoldable pub mock : Hardware
unfolding code_of word_of
mock = record { code = code_of; word = word_of; stored = λ h. [] }
