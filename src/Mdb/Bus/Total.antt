-- ===== src/Mdb/Bus/Total.antt =====
-- Making and sending a wave ends, by the clock of the C library.
use vender.Prelude.{ℕ, ◌+◌, ◌*◌, ◌%◌, ◌^◌, ◌≤◌, ◌<◌, ◌≡◌, refl, String, List, ◌∷◌, arith, lt→ltb}
use vender.Exec.{Outcome, ok, err, panicked, out_of_fuel, pure, ◌>>=◌, ◌>>◌}
use vender.Exec.Ends.{EndPost, Ends, Ends-bind, EndPost-weaken}
use vender.Ffi.{
  tick, wave_add_new, wave_add_serial, wave_create, wave_tx_send, wave_tx_stop, History, Hardware,
  invoke, pi_wave_mode_one_shot_sync,
}
use vender.Ffi.Clock.{Clock}
use vender.Pigpio.{
  Wave, from_id, check, add_u32, mul_u32, u32_mod, tick_since, wrapping_sub, send, new_serial,
}
use vender.Mdb.{baud, data_bits, stop_bits}
use vender.Mdb.Bus.{mdb_wave_create, mdb_wave_send_wait, send_wait_loop}
use vender.Mdb.Bus.Deadline.{OutBy, send_wait_loop-OutBy}

-- A sum that fits.
pub Ends-add_u32 :
    {S : Type 0} (P : S → Type 0) (a b : ℕ)
    → a + b < 2 ^ 32
    → Ends P (add_u32 a b) (λ n s. (n ≡ a + b) × P s)
unfolding add_u32
Ends-add_u32 P a b h = record {
  at = λ s p. let fits = lt→ltb (a + b) u32_mod h in rw fits (refl, p);
}

-- A product that fits.
pub Ends-mul_u32 :
    {S : Type 0} (P : S → Type 0) (a b : ℕ)
    → a * b < 2 ^ 32
    → Ends P (mul_u32 a b) (λ n s. (n ≡ a * b) × P s)
unfolding mul_u32
Ends-mul_u32 P a b h = record {
  at = λ s p. let fits = lt→ltb (a * b) u32_mod h in rw fits (refl, p);
}

module _ (H : Hardware) (C : Clock H) where
  abbrev pub ClockBy : ℕ → History → Type 0
  ClockBy limit h = C.now h ≤ limit

  pub Ends-tick :
      (limit start : ℕ)
      → Ends (ClockBy limit) (tick_since H start) (λ t. ClockBy (limit + C.jitter))
  unfolding tick_since ◌>>=◌
  Ends-tick limit start = record { at = λ h p. omega (arith, C.now_bounded tick h) }

  -- Below the wrap, the tick is the time.
  pub Ends-tick_now :
      (limit : ℕ)
      → limit + C.jitter < 2 ^ 32
      → Ends
          (ClockBy limit)
          (tick_since H 0)
          (λ t h. (t ≤ limit + C.jitter) × ClockBy (limit + C.jitter) h)
  unfolding tick_since wrapping_sub ◌>>=◌
  Ends-tick_now limit small = record {
    at = λ h p.
        (omega (arith, C.now_bounded tick h, C.tick_reads h), omega (arith, C.now_bounded tick h));
  }

  pub Ends-create :
      (limit pin : ℕ) (s : List ℕ)
      → Ends (ClockBy limit) (mdb_wave_create H pin s) (λ w. ClockBy (limit + 3 * C.jitter))
  unfolding mdb_wave_create new_serial check from_id ◌>>=◌
  Ends-create limit pin s = record {
    at = λ h p.
        let c = wave_add_serial pin baud data_bits stop_bits 0 s in
        ground (
          arith,
          C.now_bounded wave_add_new h,
          C.now_bounded c (wave_add_new ∷ h),
          C.now_bounded wave_create (c ∷ wave_add_new ∷ h),
        );
  }

module _ (H : Hardware) (C : Clock H) (fuel deadline step : ℕ) (e : String) (positive : 0 < step)
    (enough : deadline < fuel) (no_wrap : deadline + step + 4 * C.jitter < 2 ^ 32) where
  module _ (w : Wave) (begin : ℕ) where
    abbrev Begun : History → Type 0
    Begun h = (begin ≤ C.now h) × (C.now h ≤ begin + C.jitter)

    Ends-send : Ends (λ h. C.now h ≡ begin) (send H w pi_wave_mode_one_shot_sync) (λ _. Begun)
    unfolding send check ◌>>=◌
    Ends-send = record {
      at = λ h p.
          let c = wave_tx_send w.id pi_wave_mode_one_shot_sync in
          ground (arith, C.now_later c h, C.now_bounded c h);
    }

    looped :
        (limit : ℕ) (r : Outcome (Unit {0})) (h : History)
        → OutBy H C begin deadline step limit r h
        → EndPost (λ _. ClockBy H C (limit + step + 3 * C.jitter)) r h
    looped limit (ok _) h (done, by) = by
    looped limit (err _) h (done, by) = tt
    looped limit panicked h (done, by) = done
    looped limit out_of_fuel h (done, by) = done

    Ends-loop :
        Ends Begun
          (send_wait_loop H fuel (begin % 2 ^ 32) deadline step e)
          (λ _. ClockBy H C (begin + deadline + step + 4 * C.jitter))
    Ends-loop = record {
      at = λ h (since, by).
          let limit = begin + deadline + C.jitter in
          let l = send_wait_loop H fuel (begin % 2 ^ 32) deadline step e h in
          EndPost-weaken (λ _. ClockBy H C (limit + step + 3 * C.jitter))
            (λ _. ClockBy H C (begin + deadline + step + 4 * C.jitter)) (λ a q k. omega arith) l.0
            l.1
            (looped limit l.0 l.1 (
              send_wait_loop-OutBy H C begin deadline step limit e positive (omega arith)
                (omega arith) fuel h (since, omega arith, omega arith, omega arith)));
    }

    Ends-stop :
        (limit : ℕ)
        → Ends
            (ClockBy H C limit)
            (do check (← invoke H wave_tx_stop); pure tt)
            (λ _. ClockBy H C (limit + C.jitter))
    unfolding check ◌>>=◌
    Ends-stop limit = record { at = λ h p. ground (arith, C.now_bounded wave_tx_stop h) }

    abbrev last : ℕ
    last = begin + deadline + step + 4 * C.jitter

    Ends-begun :
        Ends
          (λ h. C.now h ≡ begin)
          (do
            send H w pi_wave_mode_one_shot_sync
            send_wait_loop H fuel (begin % 2 ^ 32) deadline step e
            check (← invoke H wave_tx_stop)
            pure tt)
          (λ _. ClockBy H C (last + C.jitter))
    Ends-begun =
        Ends-bind (λ h. C.now h ≡ begin) (λ _. Begun) (λ _. ClockBy H C (last + C.jitter)) _ _
          Ends-send
          λ _.
            Ends-bind Begun (λ _. ClockBy H C last) (λ _. ClockBy H C (last + C.jitter)) _ _
              Ends-loop λ _. Ends-stop last

  -- Sending ends soon after the deadline has passed since its begin.
  pub Ends-send_wait :
      (limit : ℕ) (w : Wave)
      → Ends
          (ClockBy H C limit)
          (mdb_wave_send_wait H fuel w deadline step e)
          (λ _. ClockBy H C (limit + deadline + step + 6 * C.jitter))
  unfolding mdb_wave_send_wait tick_since wrapping_sub ◌>>=◌
  Ends-send_wait limit w = record {
    at = λ h p.
        let begin = C.now (tick ∷ h) in
        let start : wrapping_sub (H.word (tick ∷ h)) 0 ≡ begin % 2 ^ 32 =
          omega (arith, C.tick_reads h) in
        let soon = C.now_bounded tick h in
        rw start (
          EndPost-weaken (λ _. ClockBy H C (last w begin + C.jitter))
            (λ _. ClockBy H C (limit + deadline + step + 6 * C.jitter)) (λ a q k. omega arith) _ _
            ((Ends-begun w begin).at (tick ∷ h) refl));
  }
