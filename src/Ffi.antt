-- ===== src/Ffi.antt =====
-- The part of the pigpio C library that the Rust code calls, through the bindings of
-- hardware/pigpio-sys/src/bindings-arm-linux.rs. The C code is no part of the model: a `Hardware`
-- says what each call answers, given all calls so far, and the state is that history.
pub mod Clock
pub mod Waves
pub mod Mock
use vender.Prelude.{ℕ, ℤ, List, ◌∷◌}
use vender.Exec.{Exec, ok}

-- The extern functions, with the arguments that they are given. The bytes of `wave_add_serial`
-- stand for its length and pointer.
pub data Call : Type 0 where
  cfg_interfaces : ℕ → Call
  initialise : Call
  tick : Call
  delay : ℕ → Call
  serial_read_open : (gpio baud data_bits : ℕ) → Call
  serial_read_close : ℕ → Call
  serial_read : (gpio size : ℕ) → Call
  wave_add_new : Call
  wave_add_serial : (gpio baud data_bits stop_bits offset : ℕ) → (bytes : List ℕ) → Call
  wave_create : Call
  wave_delete : ℕ → Call
  wave_tx_busy : Call
  wave_tx_send : (wave mode : ℕ) → Call
  wave_tx_stop : Call
  set_mode : (gpio mode : ℕ) → Call
  write : (gpio level : ℕ) → Call

-- The calls so far, the latest first.
abbrev pub History : Type 0
History = List Call

-- What the latest call of a history gives back.
pub record Hardware : Type 0 where
  -- the `int` of a function that has one
  pub code : History → ℤ
  -- the `uint32_t` of `gpioTick` and `gpioDelay`
  pub word : History → ℕ
  -- the bytes that `gpioSerialRead` stores from the start of its buffer
  pub stored : History → List ℕ

module _ (H : Hardware) where
  -- An extern function that returns a status or a count.
  abbrev pub invoke : Call → Exec History ℤ
  invoke c h = (ok (H.code (c ∷ h)), c ∷ h)

  -- An extern function that returns a `u32`.
  abbrev pub invoke_word : Call → Exec History ℕ
  invoke_word c h = (ok (H.word (c ∷ h)), c ∷ h)

-- The constants of the C library.
abbrev pub pi_input : ℕ
pi_input = 0

abbrev pub pi_output : ℕ
pi_output = 1

abbrev pub pi_wave_mode_one_shot_sync : ℕ
pi_wave_mode_one_shot_sync = 2

abbrev pub pi_disable_fifo_if : ℕ
pi_disable_fifo_if = 1

abbrev pub pi_disable_sock_if : ℕ
pi_disable_sock_if = 2
