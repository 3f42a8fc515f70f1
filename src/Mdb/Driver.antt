-- ===== src/Mdb/Driver.antt =====
-- `GpioMdb::new`, `close`, `bus_reset` and `drop`.
pub mod Parse
pub mod Safe
pub mod Opens
pub mod Calls
pub mod Waves
pub mod Reset
use vender.Prelude.{ℕ, Bool, Option, none, some, List, [], ◌∷◌}
use vender.Exec.{Exec, ok, pure, panic, gets, ignore, or_drop, ◌>>=◌, ◌>>◌}
use vender.Ffi.{
  set_mode, serial_read_open, serial_read_close, wave_tx_stop, delay, write, History, Hardware,
  invoke, invoke_word, pi_input, pi_output,
}
use vender.Pigpio.{check, drop_wave}
use vender.Mdb.{GpioMdb, baud, data_bits, response_ack, response_nak}
use vender.Mdb.Time.{Duration, duration_as_micros32}
use vender.Mdb.Bus.{mdb_wave_create}
use Parse.{parse_u32}

-- What the process finds around it.
pub record Env : Type 0 where
  -- the bytes of the variable `iodin_mdb_wait_step`, if it is set to UTF-8
  pub variable : Option (List ℕ)
  -- what `mem::uninitialized` leaves in the buffer
  pub uninitialized : History → List ℕ
  -- whether the logger takes `debug!` messages
  pub debug_enabled : Bool

abbrev pub wait_step_or_default : Option (List ℕ) → List ℕ
wait_step_or_default none = b'1' ∷ b'0' ∷ b'1' ∷ []
wait_step_or_default (some text) = text

-- `Result::expect`
abbrev pub expect : {S : Type 0} → Option ℕ → Exec S ℕ
expect none = panic
expect (some n) = pure n

module _ (H : Hardware) (E : Env) where
  -- The value of the struct. Its first wave is dropped if the second cannot be created.
  unfoldable pub make : (wait_step rx_pin tx_pin : ℕ) → Exec History GpioMdb
  make wait_step rx_pin tx_pin = do
    wave_ack ← mdb_wave_create H tx_pin (response_ack ∷ 0x00 ∷ [])
    wave_nak ← or_drop (drop_wave H wave_ack) (mdb_wave_create H tx_pin (response_nak ∷ 0x00 ∷ []))
    gets λ h. record {
      rx_pin = rx_pin;
      tx_pin = tx_pin;
      wave_ack = wave_ack;
      wave_nak = wave_nak;
      wait_step = wait_step;
      buf = E.uninitialized h;
    }

  unfoldable pub new : (rx_pin tx_pin : ℕ) → Exec History GpioMdb
  unfolding parse_u32
  new rx_pin tx_pin = do
    wait_step ← expect (parse_u32 (wait_step_or_default E.variable))
    check (← invoke H (set_mode rx_pin pi_input))
    check (← invoke H (set_mode tx_pin pi_output))
    check (← invoke H (serial_read_open rx_pin baud data_bits))
    check (← invoke H wave_tx_stop)
    make wait_step rx_pin tx_pin

module _ (H : Hardware) where
  unfoldable pub close : GpioMdb → Exec History (Unit {0})
  close m = do
    check (← invoke H wave_tx_stop)
    check (← invoke H (serial_read_close m.rx_pin))
    pure tt

  -- `Drop for GpioMdb`, and then the drops of its fields in their order.
  unfoldable pub drop_mdb : GpioMdb → Exec History (Unit {0})
  drop_mdb m = do ignore (close m); drop_wave H m.wave_ack; drop_wave H m.wave_nak; pure tt

  unfoldable pub bus_reset : GpioMdb → Duration → Exec History (Unit {0})
  bus_reset m duration = do
    duration_us ← duration_as_micros32 duration
    check (← invoke H (write m.tx_pin 1))
    invoke_word H (delay duration_us)
    check (← invoke H (write m.tx_pin 0))
    pure tt
