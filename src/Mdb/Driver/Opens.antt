-- ===== src/Mdb/Driver/Opens.antt =====
-- `GpioMdb::new` on hardware where no call fails.
use vender.Prelude.{ℕ, ◌+◌, ◌*◌, ◌≡◌, refl, arith, List, [], ◌∷◌}
use vender.Exec.{◌>>=◌}
use vender.Exec.Gives.{Gives}
use vender.Ffi.{
  set_mode, serial_read_open, wave_tx_stop, wave_create, wave_add_serial, wave_add_new, History,
  Hardware, pi_input, pi_output,
}
use vender.Ffi.Clock.{Clock}
use vender.Mdb.{GpioMdb, baud, data_bits, stop_bits, response_ack, response_nak}
use vender.Mdb.Driver.{Env, make, new}
use vender.Mdb.Driver.Safe.{HasStep}
use vender.Mdb.Live.Device.{Passed, Passed-refl, Passed-call}
use vender.Mdb.Live.{IsSound, checked}
use vender.Mdb.Live.Steps.{mdb_wave_create-Gives}
use vender.Mdb.Transfer.Sized.{Sized}
use vender.Mdb.Receive.Stream.{IsFull}

-- The calls that make a wave.
module _ (H : Hardware) (C : Clock H) where
  abbrev wave_calls : ℕ → List ℕ → History → History
  wave_calls pin bytes h =
      wave_create ∷ wave_add_serial pin baud data_bits stop_bits 0 bytes ∷ wave_add_new ∷ h

  wave_calls-Passed :
      (pin : ℕ) (bytes : List ℕ) (time : ℕ) (h h' : History)
      → Passed H C time h h'
      → Passed H C (time + C.jitter + C.jitter + C.jitter) h (wave_calls pin bytes h')
  wave_calls-Passed pin bytes time h h' passed = Passed-call H C wave_create _ h _ tt (
      Passed-call H C (wave_add_serial pin baud data_bits stop_bits 0 bytes) _ h _ tt
        (Passed-call H C wave_add_new time h h' tt passed))

module _ (H : Hardware) (C : Clock H) (E : Env) (sound : IsSound H) (sized : Sized E)
    (rx tx : ℕ) where
  -- A driver for these pins, with this pause and a buffer of its size.
  abbrev pub DriverFor : (step : ℕ) → GpioMdb → Type 0
  DriverFor step m = (m.rx_pin ≡ rx) × (m.tx_pin ≡ tx) × (m.wait_step ≡ step) × IsFull m

  make-Gives :
      (step : ℕ) (h : History)
      → (m : GpioMdb) × (h' : History) × Gives (make H E step rx tx) h m h'
        × DriverFor step m
        × ((time : ℕ) (h₀ : History)
            → Passed H C time h₀ h
            → Passed H C (time + 6 * C.jitter) h₀ h')
  unfolding make ◌>>=◌
  make-Gives step h =
      let (ack, made) = mdb_wave_create-Gives H sound tx (response_ack ∷ 0x00 ∷ []) h in
      let h₁ = wave_calls H C tx (response_ack ∷ 0x00 ∷ []) h in
      let (nak, made') = mdb_wave_create-Gives H sound tx (response_nak ∷ 0x00 ∷ []) h₁ in
      let h₂ = wave_calls H C tx (response_nak ∷ 0x00 ∷ []) h₁ in
      let m : GpioMdb = record {
        rx_pin = rx;
        tx_pin = tx;
        wave_ack = ack;
        wave_nak = nak;
        wait_step = step;
        buf = E.uninitialized h₂;
      } in
      (
        m,
        h₂,
        rw (made, made') refl,
        (refl, refl, refl, sized h₂),
        λ time h₀ passed.
            let passed₁ = wave_calls-Passed H C tx (response_ack ∷ 0x00 ∷ []) time h₀ h passed in
            let (same, later, soon) =
              wave_calls-Passed H C tx (response_nak ∷ 0x00 ∷ []) _ h₀ h₁ passed₁ in
            (same, later, omega arith),
      )

  pub new-Gives :
      (set : HasStep E) (h : History)
      → (m : GpioMdb) × (h' : History) × Gives (new H E rx tx) h m h'
        × DriverFor set.0 m
        × Passed H C (10 * C.jitter) h h'
  unfolding new ◌>>=◌
  new-Gives (step, parsed) h =
      let h₁ = set_mode rx pi_input ∷ h in
      let h₂ = set_mode tx pi_output ∷ h₁ in
      let h₃ = serial_read_open rx baud data_bits ∷ h₂ in
      let h₄ = wave_tx_stop ∷ h₃ in
      let (n₁, e₁) = checked (H.code h₁) h₁ (sound h₁) in
      let (n₂, e₂) = checked (H.code h₂) h₂ (sound h₂) in
      let (n₃, e₃) = checked (H.code h₃) h₃ (sound h₃) in
      let (n₄, e₄) = checked (H.code h₄) h₄ (sound h₄) in
      let (m, h', made, fields, passes) = make-Gives step h₄ in
      let passed₄ = Passed-call H C wave_tx_stop _ h h₃ tt (
        Passed-call H C (serial_read_open rx baud data_bits) _ h h₂ tt (
          Passed-call H C (set_mode tx pi_output) _ h h₁ tt
            (Passed-call H C (set_mode rx pi_input) 0 h h tt (Passed-refl H C h)))) in
      let (same, later, soon) = passes _ h passed₄ in
      (m, h', rw (parsed, e₁, e₂, e₃, e₄) made, fields, (same, later, omega arith))
