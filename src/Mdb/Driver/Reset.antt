-- ===== src/Mdb/Driver/Reset.antt =====
-- What `bus_reset` does to the output pin.
use vender.Prelude.{
  ℕ, ◌≡◌, ◌<◌, ◌-◌, ◌^◌, refl, ◌⊎◌, inl, inr, ◌∷◌, ltb, ltb→lt, ltb→le, ◌≤◌, Bool, true, false, ℤ,
  pos, negsuc,
}
use vender.Exec.{Outcome, ok, err, panicked, out_of_fuel, continue, Exec, pure, ◌>>=◌, ◌>>◌}
use vender.Ffi.{write, delay, History, Hardware, invoke, invoke_word}
use vender.Pigpio.{check}
use vender.Mdb.{GpioMdb}
use vender.Mdb.Time.{Duration, micros, overflow, duration_as_micros32_exact}
use vender.Mdb.Driver.{bus_reset}

module _ (H : Hardware) (m : GpioMdb) (d : Duration) (h : History) where
  -- The line after it was raised, held for the time, and lowered.
  abbrev raised : History
  raised = write m.tx_pin 1 ∷ h

  abbrev lowered : History
  lowered = write m.tx_pin 0 ∷ delay (micros d) ∷ raised

  abbrev pub Pulsed : Outcome (Unit {0}) → History → Type 0
  Pulsed (ok _) h' = (h' ≡ lowered) × (micros d < 2 ^ 32 - 1)
  Pulsed (err e) h' =
      ((h' ≡ h) × (e ≡ overflow) × (2 ^ 32 - 1 ≤ micros d))
      ⊎ ((h' ≡ raised) ⊎ (h' ≡ lowered)) × (micros d < 2 ^ 32 - 1)
  Pulsed panicked h' = ⊥
  Pulsed out_of_fuel h' = ⊥

  last_write :
      (z : ℤ)
      → micros d < 2 ^ 32 - 1
      → let c = check z lowered in let r = continue c.0 (λ _ s. (ok tt, s)) c.1 in Pulsed r.0 r.1
  unfolding check
  last_write (pos n) fits = (refl, fits)
  last_write (negsuc k) fits = inr (inr refl, fits)

  -- What follows the raise of the pin.
  abbrev hold : ℕ → Exec History (Unit {0})
  hold n = do invoke_word H (delay (micros d)); check (← invoke H (write m.tx_pin 0)); pure tt

  first_write :
      (z : ℤ)
      → micros d < 2 ^ 32 - 1
      → let c = check z raised in let r = continue c.0 hold c.1 in Pulsed r.0 r.1
  unfolding check ◌>>=◌
  first_write (pos n) fits = last_write (H.code lowered) fits
  first_write (negsuc k) fits = inr (inl refl, fits)

  -- `bus_reset` raises the output pin, holds it for exactly the microseconds of the duration, and
  -- lowers it. It fails before it touches the pin, if the duration reaches the greatest u32, and
  -- else only as the pin is raised, or as it is lowered; it never panics.
  pub bus_reset-Pulsed : let (r, h') = bus_reset H m d h in Pulsed r h'
  unfolding bus_reset check ◌>>=◌
  bus_reset-Pulsed = by_range _ refl
    where
      by_range :
          (b : Bool)
          → ltb (micros d) (2 ^ 32 - 1) ≡ b
          → let (r, h') = bus_reset H m d h in Pulsed r h'
      by_range true e =
          rw (duration_as_micros32_exact d h, e) (first_write (H.code raised) (ltb→lt _ _ e))
      by_range false e = rw (duration_as_micros32_exact d h, e) (inl (refl, refl, ltb→le _ _ e))
