-- ===== src/Mdb/Receive/Wait.antt =====
-- How long `wait_receive` waits, by the clock of the C library.
use vender.Prelude.{
  ℕ, zero, suc, ℤ, pos, negsuc, ◌+◌, ◌*◌, ◌^◌, ◌≤◌, ◌<◌, ◌≡◌, refl, sym, ap, ◌⊎◌, inl, inr, ◌∷◌,
  Bool, true, false, arith, ltb, ltb→le, ltb→lt, length, if◌then◌else◌,
}
use vender.Exec.{
  Outcome, ok, err, panicked, out_of_fuel, continue, Exec, pure, fail, gets, ◌>>=◌, ◌>>◌,
}
use vender.Ffi.{serial_read, tick, delay, History, Hardware, invoke_word}
use vender.Ffi.Clock.{Clock}
use vender.Pigpio.{check, tick_since, wrapping_sub}
use vender.Error.{msg}
use vender.Mdb.Receive.{hw, Port, with_buf, overlay, read_serial, wait_receive}
use vender.Mdb.Receive.Words.{length-overlay}

tick_is_now :
    (H : Hardware) (C : Clock H) (h : History)
    → C.now (tick ∷ h) < 2 ^ 32
    → wrapping_sub (H.word (tick ∷ h)) 0 ≡ C.now (tick ∷ h)
unfolding wrapping_sub
tick_is_now H C h small = omega (arith, C.tick_reads h)

module _ (H : Hardware) (C : Clock H) (deadline : ℕ) where
  -- The latest call is a read into `size` bytes that has found nothing.
  abbrev pub IsNothing : (size : ℕ) → History → Type 0
  IsNothing size h =
      (gpio : ℕ) × (h' : History) × (h ≡ serial_read gpio size ∷ h') × (H.code h ≡ pos 0)

  -- The last read has found nothing, and then the clock was read.
  abbrev pub StillQuiet : (size : ℕ) → History → Type 0
  StillQuiet size h = (h' : History) × (h ≡ tick ∷ h') × IsNothing size h'

  -- The waiting is over: words came, or the latest read failed, or the deadline is past and the
  -- last read, into the whole buffer, has found nothing.
  abbrev pub Waited : Outcome ℕ → Port → Type 0
  Waited (ok n) q = 0 < n
  Waited (err e) q =
      ((k : ℕ) × (H.code q.history ≡ negsuc k))
      ⊎ (deadline < C.now q.history) × StillQuiet (length q.mdb.buf) q.history
  Waited panicked q = ⊥
  Waited out_of_fuel q = ⊥

module _ (H : Hardware) (C : Clock H) (deadline step limit : ℕ) where
  -- The wait is over, soon after `limit`, and the driver has the same pause.
  abbrev pub WaitedUntil : Outcome ℕ → Port → Type 0
  WaitedUntil r q =
      Waited H C deadline r q × (q.mdb.wait_step ≡ step) × (C.now q.history ≤ limit + 2 * C.jitter)

  -- A wait that begins by `limit`, with fuel for each microsecond.
  abbrev pub IsReadyBy : ℕ → Port → Type 0
  IsReadyBy fuel p =
      (p.mdb.wait_step ≡ step)
      × (C.now p.history ≤ limit)
      × (0 < fuel)
      × (deadline + 1 < C.now p.history + fuel)

  module _ (positive : 0 < step) (room : deadline + step + C.jitter ≤ limit)
      (no_wrap : limit + 2 * C.jitter < 2 ^ 32) where
    -- What follows a read that has found nothing.
    abbrev go_on : ℕ → Exec Port ℕ
    go_on fuel = do
      t ← hw (tick_since H 0)
      if ltb deadline t then fail (msg "recv timeout") else (do
        pause ← gets λ p. p.mdb.wait_step
        hw (invoke_word H (delay pause))
        wait_receive H fuel deadline)

    shows_now :
        (p : Port)
        → C.now p.history ≤ limit + C.jitter
        → wrapping_sub (H.word (tick ∷ p.history)) 0 ≡ C.now (tick ∷ p.history)
    shows_now p early = tick_is_now H C p.history (omega (arith, C.now_bounded tick p.history))

    go_on-WaitedUntil :
        (fuel : ℕ) (p : Port) (b : Bool)
        → ltb deadline (wrapping_sub (H.word (tick ∷ p.history)) 0) ≡ b
        → IsNothing H C deadline (length p.mdb.buf) p.history
        → p.mdb.wait_step ≡ step
        → C.now p.history ≤ limit + C.jitter
        → deadline < C.now p.history + fuel
        → ((p' : Port)
            → IsReadyBy fuel p'
            → let (r, q) = wait_receive H fuel deadline p' in WaitedUntil r q)
        → let (r, q) = go_on fuel p in WaitedUntil r q
    unfolding tick_since ◌>>=◌
    go_on-WaitedUntil fuel p true e none_yet paced early enough again = rw e (
      inr (omega (arith, shows_now p early, ltb→lt deadline _ e), (p.history, refl, none_yet)),
      paced,
      omega (arith, C.now_bounded tick p.history),
    )
    go_on-WaitedUntil fuel p false e none_yet paced early enough again =
        let h₂ = tick ∷ p.history in
        let not_late : C.now h₂ ≤ deadline =
          omega (arith, shows_now p early, ltb→le deadline _ e) in
        let later = C.now_later tick p.history in
        let paused = C.now_later (delay p.mdb.wait_step) h₂ in
        rw e (
          again (record p { history = delay p.mdb.wait_step ∷ h₂ })
            (
              paced,
              omega (arith, C.now_bounded (delay p.mdb.wait_step) h₂),
              omega arith,
              omega arith,
            ))

    after_read-WaitedUntil :
        (fuel : ℕ) (p : Port) (z : ℤ) (gpio : ℕ) (h' : History)
        → p.history ≡ serial_read gpio (length p.mdb.buf) ∷ h'
        → H.code p.history ≡ z
        → p.mdb.wait_step ≡ step
        → C.now p.history ≤ limit + C.jitter
        → deadline < C.now p.history + fuel
        → ((p' : Port)
            → IsReadyBy fuel p'
            → let (r, q) = wait_receive H fuel deadline p' in WaitedUntil r q)
        → let n = check z p in
          let (r, q) = continue n.0 (λ n. if ltb 0 n then pure n else go_on fuel) n.1 in
          WaitedUntil r q
    unfolding check
    after_read-WaitedUntil fuel p (negsuc k) gpio h' is_read e paced early enough again =
        (inl (k, e), paced, omega arith)
    after_read-WaitedUntil fuel p (pos (suc n)) gpio h' is_read e paced early enough again =
        let found : ltb 0 (suc n) ≡ true = ground arith in
        rw found (omega arith, paced, omega arith)
    after_read-WaitedUntil fuel p (pos zero) gpio h' is_read e paced early enough again =
        go_on-WaitedUntil fuel p _ refl (gpio, h', is_read, e) paced early enough again

    pub wait_receive-WaitedUntil :
        (fuel : ℕ) (p : Port)
        → IsReadyBy fuel p
        → let (r, q) = wait_receive H fuel deadline p in WaitedUntil r q
    unfolding wait_receive read_serial ◌>>=◌
    wait_receive-WaitedUntil zero p (paced, early, some, enough) = elim some [ ]
    wait_receive-WaitedUntil (suc fuel) p (paced, early, some, enough) =
        let c = serial_read p.mdb.rx_pin (length p.mdb.buf) in
        let h₁ = c ∷ p.history in
        let buf = overlay (H.stored h₁) p.mdb.buf in
        let later = C.now_later c p.history in
        let sooner = C.now_bounded c p.history in
        after_read-WaitedUntil fuel (record (with_buf p buf) { history = h₁ }) (H.code h₁)
          p.mdb.rx_pin p.history
          (ap (λ n. serial_read p.mdb.rx_pin n ∷ p.history)
            (sym (length-overlay (H.stored h₁) p.mdb.buf)))
          refl paced (omega arith) (omega arith) (wait_receive-WaitedUntil fuel)

module _ (H : Hardware) (C : Clock H) (deadline step : ℕ) where
  abbrev pub InTime : Outcome ℕ → Port → Type 0
  InTime r q = Waited H C deadline r q × (C.now q.history ≤ deadline + step + 3 * C.jitter)

  -- A wait on a port whose clock is not far past the deadline, with fuel for each microsecond.
  abbrev pub IsReady : ℕ → Port → Type 0
  IsReady fuel p =
      (p.mdb.wait_step ≡ step)
      × (C.now p.history ≤ deadline + step + C.jitter)
      × (0 < fuel)
      × (deadline + 1 < C.now p.history + fuel)

  module _ (positive : 0 < step) (no_wrap : deadline + step + 3 * C.jitter < 2 ^ 32) where
    -- Where the clock runs as documented, the driver's pause is positive, the wait begins no later
    -- than a pause and the jitter after the deadline, the deadline, a pause and three times the
    -- jitter together lie below the wrap of the tick, and the fuel has one round at least, and one
    -- for each microsecond from the begin up to the deadline and two more, `wait_receive` ends: it
    -- gives a count above 0, or fails because the latest read failed or because the deadline is
    -- past and the last read, into the whole buffer, has found nothing. It does so within a pause
    -- and three times the jitter after the deadline.
    pub wait_receive-InTime :
        (fuel : ℕ) (p : Port)
        → IsReady fuel p
        → let (r, q) = wait_receive H fuel deadline p in InTime r q
    wait_receive-InTime fuel p ready =
        let limit = deadline + step + C.jitter in
        let (done, paced, soon) =
          wait_receive-WaitedUntil H C deadline step limit positive (omega arith) (omega arith) fuel
            p ready in
        (done, omega arith)
