-- ===== src/Mdb/Bus/Deadline.antt =====
-- How long `mdb_wave_send_wait` waits for its wave, by the clock of the C library.
use vender.Prelude.{
  ℕ, zero, suc, ℤ, pos, negsuc, ◌+◌, ◌-◌, ◌*◌, ◌%◌, ◌^◌, ◌≤◌, ◌<◌, ◌≡◌, ◌≢◌, refl, ap, ◌∙◌, ◌⊎◌,
  inl, inr, Bool, true, false, String, ◌∷◌, arith, ltb, ltb→le, ltb→lt, ◌==◌, if◌then◌else◌,
}
use vender.Error.{msg}
use vender.Exec.{Outcome, ok, err, panicked, out_of_fuel, continue, Exec, pure, fail, ◌>>=◌}
use vender.Ffi.{tick, delay, wave_tx_busy, History, Hardware}
use vender.Ffi.Clock.{Clock}
use vender.Pigpio.{check, tick_since, tx_busy, wrapping_sub}
use vender.Mdb.Bus.{send_wait_loop}

module _ (H : Hardware) (C : Clock H) (begin deadline : ℕ) where
  -- The last look at the wave has found it busy, and then the clock was read.
  abbrev pub StillBusy : History → Type 0
  StillBusy h =
      (h' : History) × (h ≡ tick ∷ wave_tx_busy ∷ h') × (H.code (wave_tx_busy ∷ h') ≡ pos 1)

  -- The wait is over: the wave is out, or the latest call failed, or the time since `begin` is
  -- past the deadline and the wave is still busy.
  abbrev pub SentOut : Outcome (Unit {0}) → History → Type 0
  SentOut (ok _) h = H.code h ≢ pos 1
  SentOut (err e) h = ((k : ℕ) × (H.code h ≡ negsuc k)) ⊎ (begin + deadline < C.now h) × StillBusy h
  SentOut panicked h = ⊥
  SentOut out_of_fuel h = ⊥

  tick_is_elapsed :
      (h : History)
      → begin ≤ C.now h
      → C.now (tick ∷ h) < begin + 2 ^ 32
      → wrapping_sub (H.word (tick ∷ h)) (begin % 2 ^ 32) ≡ C.now (tick ∷ h) - begin
  unfolding wrapping_sub
  tick_is_elapsed h since small = omega (arith, C.tick_reads h, C.now_later tick h)

module _ (H : Hardware) (C : Clock H) (begin deadline step limit : ℕ) where
  -- The wait is over, soon after `limit`.
  abbrev pub OutBy : Outcome (Unit {0}) → History → Type 0
  OutBy r h = SentOut H C begin deadline r h × (C.now h ≤ limit + step + 3 * C.jitter)

  -- A wait that goes on by `limit`, with fuel for each microsecond.
  abbrev pub IsPendingBy : ℕ → History → Type 0
  IsPendingBy fuel h =
      (begin ≤ C.now h) × (C.now h ≤ limit) × (0 < fuel) × (begin + deadline < C.now h + fuel)

  module _ (e : String) (positive : 0 < step) (room : begin + deadline ≤ limit)
      (no_wrap : limit + step + 3 * C.jitter < begin + 2 ^ 32) where
    abbrev again_if : ℕ → Bool → Exec History (Unit {0})
    again_if fuel busy =
        if busy
        then (do
          total ← tick_since H (begin % 2 ^ 32)
          if ltb deadline total
              then fail (msg e)
              else send_wait_loop H fuel (begin % 2 ^ 32) deadline step e)
        else pure tt

    -- The latest call has found the wave busy.
    abbrev IsBusy : History → Type 0
    IsBusy h = (h' : History) × (h ≡ wave_tx_busy ∷ h') × (H.code (wave_tx_busy ∷ h') ≡ pos 1)

    late-OutBy :
        (fuel : ℕ) (h : History) (b : Bool)
        → ltb deadline (wrapping_sub (H.word (tick ∷ h)) (begin % 2 ^ 32)) ≡ b
        → IsBusy h
        → begin ≤ C.now h
        → C.now h ≤ limit + step + 2 * C.jitter
        → begin + deadline < C.now h + fuel
        → ((h' : History)
            → IsPendingBy fuel h'
            → let (r, q) = send_wait_loop H fuel (begin % 2 ^ 32) deadline step e h' in OutBy r q)
        → let (r, q) = again_if fuel true h in OutBy r q
    unfolding tick_since ◌>>=◌
    late-OutBy fuel h true x busy since early enough again =
        let bounded = C.now_bounded tick h in
        let shown = tick_is_elapsed H C begin deadline h since (omega arith) in
        rw x (
          inr (
            omega (arith, shown, ltb→lt deadline _ x, C.now_later tick h),
            (busy.0, ap (λ h. tick ∷ h) busy.1, busy.2),
          ),
          omega arith,
        )
    late-OutBy fuel h false x busy since early enough again =
        let bounded = C.now_bounded tick h in
        let later = C.now_later tick h in
        let shown = tick_is_elapsed H C begin deadline h since (omega arith) in
        let not_late = ltb→le deadline _ x in
        rw x (again (tick ∷ h) (omega arith, omega arith, omega arith, omega arith))

    busy-OutBy :
        (fuel : ℕ) (h' : History) (z : ℤ)
        → let h = wave_tx_busy ∷ h' in
          H.code h ≡ z
          → begin ≤ C.now h
          → C.now h ≤ limit + step + 2 * C.jitter
          → begin + deadline < C.now h + fuel
          → ((h' : History)
              → IsPendingBy fuel h'
              → let (r, q) = send_wait_loop H fuel (begin % 2 ^ 32) deadline step e h' in OutBy r q)
          → let n = check z h in
            let busy = continue n.0 (λ n. pure (n == 1)) n.1 in
            let (r, q) = continue busy.0 (again_if fuel) busy.1 in OutBy r q
    unfolding check
    busy-OutBy fuel h' (negsuc k) x since early enough again = (inl (k, x), omega arith)
    busy-OutBy fuel h' (pos n) x since early enough again = by_status (n == 1) refl
      where
        by_status :
            (b : Bool)
            → (n == 1) ≡ b
            → let (r, q) = again_if fuel (n == 1) (wave_tx_busy ∷ h') in OutBy r q
        by_status true one =
            let is_one : pos n ≡ pos 1 = ground arith in
            rw one (late-OutBy fuel _ _ refl (h', refl, x ∙ is_one) since early enough again)
        by_status false other = rw other (λ y. ground arith, omega arith)

    pub send_wait_loop-OutBy :
        (fuel : ℕ) (h : History)
        → IsPendingBy fuel h
        → let (r, q) = send_wait_loop H fuel (begin % 2 ^ 32) deadline step e h in OutBy r q
    unfolding send_wait_loop tx_busy ◌>>=◌
    send_wait_loop-OutBy zero h (since, early, some, enough) = elim some [ ]
    send_wait_loop-OutBy (suc fuel) h (since, early, some, enough) =
        let h₁ = delay step ∷ h in
        let paused = C.now_later (delay step) h in
        let rested = C.now_bounded (delay step) h in
        let asked = C.now_later wave_tx_busy h₁ in
        let answered = C.now_bounded wave_tx_busy h₁ in
        busy-OutBy fuel h₁ _ refl (omega arith) (omega arith) (omega arith)
          (send_wait_loop-OutBy fuel)

module _ (H : Hardware) (C : Clock H) (begin deadline step : ℕ) where
  abbrev pub OutInTime : Outcome (Unit {0}) → History → Type 0
  OutInTime r h =
      SentOut H C begin deadline r h × (C.now h ≤ begin + deadline + step + 3 * C.jitter)

  abbrev pub IsPending : ℕ → History → Type 0
  IsPending fuel h =
      (begin ≤ C.now h) × (C.now h ≤ begin + deadline) × (begin + deadline < C.now h + fuel)

  module _ (e : String) (positive : 0 < step)
      (no_wrap : deadline + step + 3 * C.jitter < 2 ^ 32) where
    -- Where the clock runs as documented, the pause is positive, the deadline, a pause and three
    -- times the jitter together are below the range of the tick, the loop begins no earlier than
    -- `begin` and no later than the deadline after it, and the fuel has a round for each
    -- microsecond that is then left up to the deadline and one more, the loop ends: the wave is
    -- out, or the latest call failed, or the time since `begin` is past the deadline and the last
    -- look has found the wave busy. It does so within a pause and three times the jitter after the
    -- deadline.
    pub send_wait_loop-OutInTime :
        (fuel : ℕ) (h : History)
        → IsPending fuel h
        → let (r, q) = send_wait_loop H fuel (begin % 2 ^ 32) deadline step e h in OutInTime r q
    send_wait_loop-OutInTime fuel h (since, early, enough) =
        send_wait_loop-OutBy H C begin deadline step (begin + deadline) e positive (omega arith)
          (omega arith) fuel h (since, early, omega arith, enough)
