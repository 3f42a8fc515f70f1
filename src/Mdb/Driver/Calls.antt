-- ===== src/Mdb/Driver/Calls.antt =====
-- The calls that `GpioMdb::new` makes, on any hardware.
use vender.Prelude.{ℕ, pos, ◌≡◌, refl, Option, none, some, [], ◌∷◌, arith}
use vender.Exec.{Outcome, ok, err, panicked, out_of_fuel, ◌>>=◌, ◌>>◌}
use vender.Ffi.{
  set_mode, serial_read_open, wave_tx_stop, wave_create, wave_add_serial, wave_add_new, History,
  Hardware, invoke, pi_input, pi_output,
}
use vender.Pigpio.{check, new_serial, from_id, drop_wave}
use vender.Mdb.{GpioMdb, baud, data_bits, stop_bits, response_ack, response_nak}
use vender.Mdb.Bus.{mdb_wave_create}
use vender.Mdb.Driver.{Env, wait_step_or_default, make, new}
use vender.Mdb.Driver.Parse.{parse_u32}

module _ (H : Hardware) (E : Env) (rx tx : ℕ) (h : History) where
  -- The calls of a wave with one word, of this byte and without the ninth bit.
  abbrev word_calls : ℕ → History → History
  word_calls byte h' =
      wave_create
      ∷ wave_add_serial tx baud data_bits stop_bits 0 (byte ∷ 0x00 ∷ [])
      ∷ wave_add_new
      ∷ h'

  abbrev set_up : History
  set_up =
      wave_tx_stop
      ∷ serial_read_open rx baud data_bits
      ∷ set_mode tx pi_output
      ∷ set_mode rx pi_input
      ∷ h

  abbrev with_ack : History
  with_ack = word_calls response_ack set_up

  abbrev with_nak : History
  with_nak = word_calls response_nak with_ack

  -- What a driver holds, and which calls have led to it. A panic comes before all calls.
  abbrev pub HasCalled : Outcome GpioMdb → History → Type 0
  HasCalled (ok m) h' =
      (h' ≡ with_nak)
      × (H.code with_ack ≡ pos m.wave_ack.id)
      × (H.code with_nak ≡ pos m.wave_nak.id)
      × (m.rx_pin ≡ rx)
      × (m.tx_pin ≡ tx)
      × (parse_u32 (wait_step_or_default E.variable) ≡ some m.wait_step)
  HasCalled (err e) h' = Unit
  HasCalled panicked h' = (h' ≡ h) × (parse_u32 (wait_step_or_default E.variable) ≡ none)
  HasCalled out_of_fuel h' = ⊥

  make-HasCalled :
      (step : ℕ)
      → parse_u32 (wait_step_or_default E.variable) ≡ some step
      → let (r, h') = make H E step rx tx set_up in HasCalled r h'
  unfolding make mdb_wave_create new_serial check from_id drop_wave ◌>>=◌
  make-HasCalled step e = ground (arith, e)

  set_up-HasCalled :
      (step : ℕ)
      → parse_u32 (wait_step_or_default E.variable) ≡ some step
      → let (r, h') =
          (do
            check (← invoke H (set_mode rx pi_input))
            check (← invoke H (set_mode tx pi_output))
            check (← invoke H (serial_read_open rx baud data_bits))
            check (← invoke H wave_tx_stop)
            make H E step rx tx)
            h in
        HasCalled r h'
  unfolding check ◌>>=◌
  set_up-HasCalled step e = ground (arith, make-HasCalled step e)

  by_step :
      (o : Option ℕ)
      → parse_u32 (wait_step_or_default E.variable) ≡ o
      → let (r, h') = new H E rx tx h in HasCalled r h'
  unfolding new ◌>>=◌
  by_step none e = rw e (refl, e)
  by_step (some step) e = rw e (set_up-HasCalled step e)

  -- On any hardware, a driver that `new` returns has its two pins and the pause of the variable.
  -- The calls were these, in their order: the mode of each pin was set, the one to input and the
  -- other to output, the first was opened for nine bits at the bus's rate, what was being sent was
  -- stopped, and two waves were made for the second pin, that of the ACK from the ACK byte and that
  -- of the NAK from the NAK byte, each without the ninth bit. `new` panics only if the variable is
  -- no number that fits a u32, and then before all calls. Nothing is claimed of an error.
  pub new-HasCalled : let (r, h') = new H E rx tx h in HasCalled r h'
  new-HasCalled = by_step (parse_u32 (wait_step_or_default E.variable)) refl
