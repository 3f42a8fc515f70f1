-- ===== src/Mdb/Transfer/Answers.antt =====
-- Which waves the end of a transfer sends: the ACK or the NAK to what was received.
use vender.Prelude.{
  ℕ, ◌+◌, ◌≡◌, refl, ◌⊎◌, inl, inr, String, Bool, true, false, List, [], ◌∷◌, arith, ltb, ◌==◌,
  if◌then◌else◌,
}
use vender.Error.{mdb_checksum}
use vender.Exec.{Outcome, gets, fail, continue, ◌>>=◌, ◌>>◌}
use vender.Exec.Keeps.{Post, Post-weaken, Triple, Triple-bind, Keeps, Keeps-bind, Keeps-pure}
use vender.Ffi.{
  Call, wave_tx_busy, tick, wave_tx_send, wave_tx_stop, delay, History, Hardware, invoke,
  pi_wave_mode_one_shot_sync,
}
use vender.Pigpio.{Wave, wrapping_sub, u32_mod, check, add_u32, tick_since, send}
use vender.Pigpio.Quiet.{Keeps-check}
use vender.Mdb.{GpioMdb, checksum}
use vender.Mdb.Bus.{mdb_wave_send_wait}
use vender.Mdb.Bus.Quiet.{Looks, Looking, Keeps-send_wait_loop}
use vender.Mdb.Receive.{Port}
use vender.Mdb.Receive.Quiet.{AtPort, Triple-hw}
use vender.Mdb.Transfer.{send_wait, conclude}

-- The waves that were sent, the latest first.
unfoldable pub waves_sent : History → List ℕ
waves_sent [] = []
waves_sent (wave_tx_send wave mode ∷ h) = wave ∷ waves_sent h
waves_sent (_ ∷ h) = waves_sent h

module _ (H : Hardware) (waves : List ℕ) where
  abbrev pub HasSent : History → Type 0
  HasSent h = waves_sent h ≡ waves

  HasSent-Looks : (c : Call) (h : History) → Looks c → HasSent h → HasSent (c ∷ h)
  unfolding waves_sent
  HasSent-Looks (delay micros) h n e = e
  HasSent-Looks wave_tx_busy h n e = e
  HasSent-Looks tick h n e = e
  HasSent-Looks _ h n e = elim n [ ]

  pub HasSent-Looking : Looking HasSent
  HasSent-Looking = record { keeps = HasSent-Looks }

  Keeps-stop : Keeps HasSent (invoke H wave_tx_stop)
  unfolding waves_sent
  Keeps-stop = record { at = λ h p. p }

module _ (H : Hardware) (waves : List ℕ) (w : Wave) where
  Triple-tick :
      (start : ℕ)
      → Triple
          (HasSent H waves)
          (tick_since H start)
          (λ _. HasSent H waves)
          (HasSent H (w.id ∷ waves))
  unfolding waves_sent tick_since ◌>>=◌
  Triple-tick start = record { at = λ h p. p }

  Triple-send :
      (mode : ℕ)
      → Triple
          (HasSent H waves)
          (send H w mode)
          (λ _. HasSent H (w.id ∷ waves))
          (HasSent H (w.id ∷ waves))
  unfolding waves_sent send check ◌>>=◌
  Triple-send mode = record { at = λ h p. ground arith }

  -- The wave is sent once, also if the wait for it fails.
  Triple-send_wait :
      (fuel deadline wait_step : ℕ) (e : String)
      → Triple
          (HasSent H waves)
          (mdb_wave_send_wait H fuel w deadline wait_step e)
          (λ _. HasSent H (w.id ∷ waves))
          (HasSent H (w.id ∷ waves))
  unfolding mdb_wave_send_wait
  Triple-send_wait fuel deadline wait_step e =
      Triple-bind (HasSent H waves) (λ _. HasSent H waves) (λ _. HasSent H (w.id ∷ waves))
        (HasSent H (w.id ∷ waves)) _ _ (Triple-tick 0)
        λ start.
          Triple-bind (HasSent H waves) (λ _. HasSent H (w.id ∷ waves))
            (λ _. HasSent H (w.id ∷ waves)) (HasSent H (w.id ∷ waves)) _ _
            (Triple-send pi_wave_mode_one_shot_sync)
            λ _.
              Keeps-bind _ _ _
                (Keeps-send_wait_loop H _ (HasSent-Looking H (w.id ∷ waves)) fuel start deadline
                  wait_step e)
                λ _.
                  Keeps-bind _ _ _ (Keeps-stop H (w.id ∷ waves))
                    λ rc. Keeps-bind _ _ _ (Keeps-check _ rc) λ _. Keeps-pure _ tt

module _ (H : Hardware) (fuel : ℕ) where
  abbrev HasSentAt : List ℕ → Port → Type 0
  HasSentAt waves = AtPort (λ m. Unit) (HasSent H waves)

  pub Triple-answer :
      (I : GpioMdb → Type 0) (waves : List ℕ) (w : Wave) (deadline : ℕ) (e : String)
      → Triple
          (AtPort I (HasSent H waves))
          (send_wait H fuel w deadline e)
          (λ _. AtPort I (HasSent H (w.id ∷ waves)))
          (AtPort I (HasSent H (w.id ∷ waves)))
  unfolding send_wait ◌>>=◌
  Triple-answer I waves w deadline e = record {
    at = λ p h.
        (Triple-hw I (HasSent H waves) (HasSent H (w.id ∷ waves)) (λ _. HasSent H (w.id ∷ waves)) _
            (Triple-send_wait H waves w fuel deadline p.mdb.wait_step e)).at
          p h;
  }

  -- The wave that answers a response with bytes.
  abbrev pub due : (end_byte : ℕ) → List ℕ → Port → ℕ
  due end_byte bytes p = if end_byte == checksum bytes then p.mdb.wave_ack.id else p.mdb.wave_nak.id

  -- After `Ok` the end byte was the checksum, and the answer was sent; after an `Err` or a panic it
  -- was sent or nothing was.
  abbrev pub Answered : (end_byte : ℕ) → List ℕ → Port → Outcome (Unit {0}) → Port → Type 0
  Answered end_byte bytes p r q =
      Post
        (λ _ q.
          (end_byte ≡ checksum bytes)
          × (waves_sent q.history ≡ p.mdb.wave_ack.id ∷ waves_sent p.history))
        (λ q.
          (waves_sent q.history ≡ waves_sent p.history)
          ⊎ (waves_sent q.history ≡ due end_byte bytes p ∷ waves_sent p.history))
        r q

  -- What the rules do not ask.
  abbrev Nothing : Port → Type 0
  Nothing q = Unit

  by_checksum :
      (deadline end_byte : ℕ) (bytes : List ℕ) (p p₁ : Port) (good : Bool)
      → (end_byte == checksum bytes) ≡ good
      → waves_sent p₁.history ≡ waves_sent p.history
      → let (r, q) =
          (if end_byte == checksum bytes
              then send_wait H fuel p.mdb.wave_ack deadline "send ACK timeout"
              else (do
                send_wait H fuel p.mdb.wave_nak deadline "send NAK timeout"
                fail (mdb_checksum (checksum bytes) end_byte bytes)))
            p₁ in
        Answered end_byte bytes p r q
  by_checksum deadline end_byte bytes p p₁ true e same =
      let closes : end_byte ≡ checksum bytes = ground arith in
      let waves = waves_sent p.history in
      let ack = p.mdb.wave_ack in
      rw e (
        Post-weaken Nothing Nothing (λ _. HasSentAt (ack.id ∷ waves))
          (λ _ q. (end_byte ≡ checksum bytes) × (waves_sent q.history ≡ ack.id ∷ waves))
          (HasSentAt (ack.id ∷ waves))
          (λ q. (waves_sent q.history ≡ waves) ⊎ (waves_sent q.history ≡ ack.id ∷ waves))
          (λ a q h. (closes, h.0)) (λ q h. inr h.0) _ _
          ((Triple-answer (λ m. Unit) waves ack deadline "send ACK timeout").at p₁ (same, tt)))
  by_checksum deadline end_byte bytes p p₁ false e same =
      let waves = waves_sent p.history in
      let nak = p.mdb.wave_nak in
      rw e (
        Post-weaken Nothing Nothing (λ _ q. ⊥)
          (λ _ q. (end_byte ≡ checksum bytes) × (waves_sent q.history ≡ p.mdb.wave_ack.id ∷ waves))
          (HasSentAt (nak.id ∷ waves))
          (λ q. (waves_sent q.history ≡ waves) ⊎ (waves_sent q.history ≡ nak.id ∷ waves))
          (λ a q h. absurd h) (λ q h. inr h.0) _ _
          ((Triple-bind (HasSentAt waves) (λ _. HasSentAt (nak.id ∷ waves)) (λ _ q. ⊥)
              (HasSentAt (nak.id ∷ waves)) _ _
              (Triple-answer (λ m. Unit) waves nak deadline "send NAK timeout")
              λ _. record { at = λ q h. h }).at
            p₁ (same, tt)))

  by_overflow :
      (t small_us end_byte b : ℕ) (bs : List ℕ) (p : Port) (h : History) (fits : Bool)
      → ltb (t + small_us) u32_mod ≡ fits
      → waves_sent h ≡ waves_sent p.history
      → let a = add_u32 t small_us (record p { history = h }) in
        let (r, q) =
          continue a.0
            (λ deadline. (do
              nak ← gets λ q. q.mdb.wave_nak
              ack ← gets λ q. q.mdb.wave_ack
              if end_byte == checksum (b ∷ bs)
                  then send_wait H fuel ack deadline "send ACK timeout"
                  else (do
                    send_wait H fuel nak deadline "send NAK timeout"
                    fail (mdb_checksum (checksum (b ∷ bs)) end_byte (b ∷ bs)))))
            a.1 in
        Answered end_byte (b ∷ bs) p r q
  unfolding add_u32 ◌>>=◌
  by_overflow t small_us end_byte b bs p h true e same =
      rw e (by_checksum (t + small_us) end_byte (b ∷ bs) p (record p { history = h }) _ refl same)
  by_overflow t small_us end_byte b bs p h false e same = rw e (inl same)

  -- The end of a transfer answers a response that has bytes once: after `Ok` the end byte was the
  -- checksum and the driver's wave of the ACK was sent, and no other wave; after an `Err` or a
  -- panic either no wave was sent, or only the one that is due: that of the ACK for the right
  -- checksum, that of the NAK for any other end byte.
  pub conclude-Answered :
      (small_us end_byte b : ℕ) (bs : List ℕ) (p : Port)
      → let (r, q) = conclude H fuel small_us end_byte (b ∷ bs) p in
        Answered end_byte (b ∷ bs) p r q
  unfolding conclude tick_since waves_sent ◌>>=◌
  conclude-Answered small_us end_byte b bs p =
      by_overflow (wrapping_sub (H.word (tick ∷ p.history)) 0) small_us end_byte b bs p
        (tick ∷ p.history) _ refl refl
