-- ===== src/Mdb/Live.antt =====
-- The two waits of the driver on hardware that works: they end with what they wait for.
pub mod Device
pub mod Listen
pub mod Steps
use vender.Prelude.{
  ℕ, ℤ, pos, negsuc, ◌+◌, ◌*◌, ◌%◌, ◌^◌, ◌≤◌, ◌<◌, ◌≡◌, ◌≢◌, refl, sym, ap, ◌∙◌, inl, inr, String,
  ◌∷◌, arith, length,
}
use vender.Error.{Error}
use vender.Exec.{Outcome, ok, err, panicked, out_of_fuel, continue, pure, ◌>>=◌, ◌>>◌}
use vender.Exec.Keeps.{Post}
use vender.Ffi.{
  tick, wave_tx_busy, wave_tx_send, wave_tx_stop, serial_read, History, Hardware, invoke,
  pi_wave_mode_one_shot_sync,
}
use vender.Ffi.Clock.{Clock}
use vender.Pigpio.{Wave, check, send, tick_since, wrapping_sub}
use vender.Mdb.{buf_size}
use vender.Mdb.Bus.{send_wait_loop, mdb_wave_send_wait}
use vender.Mdb.Bus.Deadline.{OutInTime, send_wait_loop-OutInTime}
use vender.Mdb.Receive.{Port, wait_receive}
use vender.Mdb.Receive.Quiet.{AtPort, Keeps-wait_receive}
use vender.Mdb.Receive.Stream.{IsFull, IsFull-Unread}
use vender.Mdb.Receive.Wait.{InTime, IsReady, wait_receive-InTime}

-- No call fails.
abbrev pub IsSound : Hardware → Type 0
IsSound H = (h : History) (k : ℕ) → H.code h ≢ negsuc k

-- The status of a call that has not failed.
pub checked :
    {S : Type 0} (z : ℤ) (s : S) → ((k : ℕ) → z ≢ negsuc k) → (n : ℕ) × (check z s ≡ (ok n, s))
unfolding check
checked (pos n) s good = (n, refl)
checked (negsuc k) s good = absurd (good k refl)

module _ (H : Hardware) (C : Clock H) where
  -- From the time `arrival` on a read with room for the driver's buffer finds something.
  abbrev pub IsHeardFrom : (arrival : ℕ) → Type 0
  IsHeardFrom arrival =
      (gpio size : ℕ) (h : History)
      → buf_size ≤ size
      → arrival ≤ C.now (serial_read gpio size ∷ h)
      → H.code (serial_read gpio size ∷ h) ≢ pos 0

  -- From `air` microseconds after `begin` on a look finds no wave on its way.
  abbrev pub IsOutAfter : (air begin : ℕ) → Type 0
  IsOutAfter air begin =
      (h : History) → begin + air ≤ C.now (wave_tx_busy ∷ h) → H.code (wave_tx_busy ∷ h) ≢ pos 1

module _ (H : Hardware) (C : Clock H) (sound : IsSound H) (deadline step : ℕ)
    (positive : 0 < step) where
  -- Something has come in, before the deadline is long past.
  abbrev pub Heard : Outcome ℕ → Port → Type 0
  Heard r q = (n : ℕ) × (r ≡ ok n) × (0 < n) × (C.now q.history ≤ deadline + step + 3 * C.jitter)

  not_missed :
      (arrival : ℕ) (r : Outcome ℕ) (q : Port)
      → IsHeardFrom H C arrival
      → arrival + C.jitter ≤ deadline
      → Post (λ _. AtPort IsFull (λ _. Unit)) (AtPort IsFull (λ _. Unit)) r q
      → InTime H C deadline step r q
      → Heard r q
  not_missed arrival (ok n) q heard early full (some, soon) = (n, refl, some, soon)
  not_missed arrival (err e) q heard early full (inl (k, failed), soon) = absurd (sound _ k failed)
  not_missed arrival (err e) q heard early (_, full)
        (inr (late, (h, at, (gpio, h', is_read, nothing))), soon) =
      let size = length q.mdb.buf in
      let read = serial_read gpio size ∷ h' in
      let now : C.now q.history ≡ C.now (tick ∷ read) =
        ap C.now (at ∙ ap (λ h. tick ∷ h) is_read) in
      absurd (
        heard gpio size h' (omega (arith, full)) (omega (arith, now, late, C.now_bounded tick read))
          (ap H.code (sym is_read) ∙ nothing))
  not_missed arrival panicked q heard early full (none, soon) = absurd none
  not_missed arrival out_of_fuel q heard early full (none, soon) = absurd none

  -- If no call fails, the driver's pause is positive, the clock runs as documented, the wait begins
  -- no later than a pause and the jitter after the deadline, the deadline, a pause and three times
  -- the jitter together lie below the wrap of the tick, the fuel has one round at least, and one
  -- for each microsecond from the begin up to the deadline and two more, and words that have come
  -- in by some time are found by every read from then on that has room for the driver's buffer,
  -- then `wait_receive` returns a count above 0, where the buffer has its size and that time is no
  -- less than the jitter before the deadline. It does so within a pause and three times the jitter
  -- after the deadline.
  pub wait_receive-Heard :
      (arrival fuel : ℕ) (p : Port)
      → deadline + step + 3 * C.jitter < 2 ^ 32
      → IsHeardFrom H C arrival
      → arrival + C.jitter ≤ deadline
      → IsFull p.mdb
      → IsReady H C deadline step fuel p
      → let (r, q) = wait_receive H fuel deadline p in Heard r q
  wait_receive-Heard arrival fuel p no_wrap heard early full ready =
      let w = wait_receive H fuel deadline p in
      not_missed arrival w.0 w.1 heard early
        ((Keeps-wait_receive IsFull (λ _. Unit) IsFull-Unread (record { keeps = λ c h l t. tt }) H
            fuel deadline).at
          p (tt, full))
        (wait_receive-InTime H C deadline step positive no_wrap fuel p ready)

  -- If the loop has failed after a last look, that look finds the wave gone after this time.
  abbrev pub IsOutAt : (air begin : ℕ) → Outcome (Unit {0}) → History → Type 0
  IsOutAt air begin r h =
      (error : Error) (h' : History)
      → r ≡ err error
      → h ≡ tick ∷ wave_tx_busy ∷ h'
      → begin + air ≤ C.now (wave_tx_busy ∷ h')
      → H.code (wave_tx_busy ∷ h') ≢ pos 1

  not_stuck :
      (air begin : ℕ) (r : Outcome (Unit {0})) (h : History)
      → IsOutAt air begin r h
      → air + C.jitter ≤ deadline
      → OutInTime H C begin deadline step r h
      → r ≡ ok tt
  not_stuck air begin (ok _) h out early (done, soon) = refl
  not_stuck air begin (err e) h out early (inl (k, failed), soon) = absurd (sound _ k failed)
  not_stuck air begin (err e) h out early (inr (late, (h', at, busy)), soon) =
      let now : C.now h ≡ C.now (tick ∷ wave_tx_busy ∷ h') = ap C.now at in
      absurd
        (out e h' refl at (omega (arith, now, late, C.now_bounded tick (wave_tx_busy ∷ h'))) busy)
  not_stuck air begin panicked h out early (none, soon) = absurd none
  not_stuck air begin out_of_fuel h out early (none, soon) = absurd none

  -- What is left of a send once the loop has returned.
  after_loop :
      (r : Outcome (Unit {0})) (h : History)
      → r ≡ ok tt
      → continue r (λ _. (do check (← invoke H wave_tx_stop); pure tt)) h
        ≡ (ok tt, wave_tx_stop ∷ h)
  unfolding ◌>>=◌
  after_loop r h done =
      let stopped = wave_tx_stop ∷ h in
      let (n, fine) = checked (H.code stopped) stopped (sound stopped) in rw (done, fine) refl

  module _ (air fuel : ℕ) (w : Wave) (e : String) (h : History) where
    -- The time at the first tick, and where the loop leaves the wave that was sent then.
    abbrev pub begin : ℕ
    begin = C.now (tick ∷ h)

    abbrev pub looped : Outcome (Unit {0}) × History
    looped =
        send_wait_loop H fuel (begin % 2 ^ 32) deadline step e
          (wave_tx_send w.id pi_wave_mode_one_shot_sync ∷ tick ∷ h)

    pub send_wait_returns :
        deadline + step + 3 * C.jitter < 2 ^ 32
        → IsOutAt air begin looped.0 looped.1
        → air + C.jitter ≤ deadline
        → deadline < fuel
        → (looped.0 ≡ ok tt)
          × (mdb_wave_send_wait H fuel w deadline step e h ≡ (ok tt, wave_tx_stop ∷ looped.1))
    unfolding mdb_wave_send_wait tick_since wrapping_sub send ◌>>=◌
    send_wait_returns no_wrap out early enough =
        let start : wrapping_sub (H.word (tick ∷ h)) 0 ≡ begin % 2 ^ 32 =
          omega (arith, C.tick_reads h) in
        let call = wave_tx_send w.id pi_wave_mode_one_shot_sync in
        let h₁ = call ∷ tick ∷ h in
        let (n, sent) = checked (H.code h₁) h₁ (sound h₁) in
        let done = not_stuck air begin looped.0 looped.1 out early (
          send_wait_loop-OutInTime H C begin deadline step e positive no_wrap fuel h₁ (
            omega (arith, C.now_later call (tick ∷ h)),
            omega (arith, C.now_bounded call (tick ∷ h)),
            omega (arith, C.now_later call (tick ∷ h)),
          )) in
        (done, rw (start, sent) (after_loop looped.0 looped.1 done))

  -- If no call fails, the pause is positive, the clock runs as documented, and the wave is out
  -- `air` microseconds after the first tick, then sending returns without an error, where that is
  -- no less than the jitter below the deadline and the deadline is below the fuel and, with a pause
  -- and three times the jitter, below the range of the tick.
  pub mdb_wave_send_wait-ok :
      (air fuel : ℕ) (w : Wave) (e : String) (h : History)
      → deadline + step + 3 * C.jitter < 2 ^ 32
      → IsOutAfter H C air (C.now (tick ∷ h))
      → air + C.jitter ≤ deadline
      → deadline < fuel
      → (mdb_wave_send_wait H fuel w deadline step e h).0 ≡ ok tt
  mdb_wave_send_wait-ok air fuel w e h no_wrap out early enough =
      ap (λ s. s.0)
        (send_wait_returns air fuel w e h no_wrap (λ error h' failed at. out h') early enough).1
