-- ===== src/Mdb/Live/Steps.antt =====
-- The steps of a transfer on a bus that works: what each gives, and where it leads.
use vender.Prelude.{ℕ, ◌+◌, ◌*◌, ◌%◌, ◌^◌, ◌<◌, ◌≡◌, refl, ap, ◌∙◌, List, ◌∷◌, arith, lt→ltb, ◌-◌}
use vender.Exec.{ok, ◌>>=◌}
use vender.Exec.Gives.{Gives}
use vender.Ffi.{tick, wave_add_new, wave_add_serial, wave_create, History, Hardware}
use vender.Ffi.Clock.{Clock}
use vender.Pigpio.{Wave, u32_mod, add_u32, mul_u32, tick_since, wrapping_sub, from_id, new_serial}
use vender.Mdb.{baud, data_bits, stop_bits}
use vender.Mdb.Time.{Duration, micros, duration_as_micros32, duration_as_micros32_exact}
use vender.Mdb.Bus.{mdb_wave_create}
use vender.Mdb.Live.{IsSound, checked}
use vender.Mdb.Receive.{Port, hw}

module _ {S : Type 0} (s : S) where
  pub add_u32-Gives : (a b : ℕ) → a + b < 2 ^ 32 → Gives (add_u32 a b) s (a + b) s
  unfolding add_u32
  add_u32-Gives a b fits = rw (lt→ltb (a + b) u32_mod fits) refl

  pub mul_u32-Gives : (a b : ℕ) → a * b < 2 ^ 32 → Gives (mul_u32 a b) s (a * b) s
  unfolding mul_u32
  mul_u32-Gives a b fits = rw (lt→ltb (a * b) u32_mod fits) refl

  pub duration_as_micros32-Gives :
      (d : Duration) → micros d < 2 ^ 32 - 1 → Gives (duration_as_micros32 d) s (micros d) s
  duration_as_micros32-Gives d fits =
      duration_as_micros32_exact d s ∙ rw (lt→ltb (micros d) (2 ^ 32 - 1) fits) refl

-- The port after a look at the clock.
abbrev pub ticked : Port → Port
ticked p = record p { history = tick ∷ p.history }

module _ (H : Hardware) (C : Clock H) where
  pub tick_since-Gives :
      (p : Port)
      → C.now p.history + C.jitter < 2 ^ 32
      → Gives (hw (tick_since H 0)) p (C.now (tick ∷ p.history)) (ticked p)
  unfolding tick_since wrapping_sub ◌>>=◌
  tick_since-Gives p small =
      let now : (H.word (tick ∷ p.history) + u32_mod - 0) % u32_mod ≡ C.now (tick ∷ p.history) =
        omega (arith, C.tick_reads p.history, C.now_bounded tick p.history) in
      ap (λ t. (ok t, ticked p)) now

module _ (H : Hardware) where
  -- A wave is made of the bytes, for its pin.
  pub mdb_wave_create-Gives :
      (sound : IsSound H) (pin : ℕ) (bytes : List ℕ) (h : History)
      → (w : Wave) × Gives
          (mdb_wave_create H pin bytes)
          h
          w
          (wave_create ∷ wave_add_serial pin baud data_bits stop_bits 0 bytes ∷ wave_add_new ∷ h)
  unfolding mdb_wave_create new_serial ◌>>=◌
  mdb_wave_create-Gives sound pin bytes h =
      let h₁ = wave_add_new ∷ h in
      let h₂ = wave_add_serial pin baud data_bits stop_bits 0 bytes ∷ h₁ in
      let h₃ = wave_create ∷ h₂ in
      let (n₁, e₁) = checked (H.code h₁) h₁ (sound h₁) in
      let (n₂, e₂) = checked (H.code h₂) h₂ (sound h₂) in
      let (n₃, e₃) = checked (H.code h₃) h₃ (sound h₃) in (from_id n₃, rw (e₁, e₂, e₃) refl)
