-- ===== src/Mdb/Transfer/Sends.antt =====
-- The waves that `tx` sends, and what the first of them was made from.
use vender.Prelude.{
  ℕ, pos, ◌≡◌, refl, ap, ◌∙◌, ◌⊎◌, inl, inr, Bool, true, false, List, [], ◌∷◌, arith,
}
use vender.Exec.{Outcome, Exec, ok, err, panicked, out_of_fuel, assert, gets, with_drop, ◌>>=◌}
use vender.Exec.Keeps.{Post, Post-weaken, Triple, Triple-bind, Triple-weaken, Triple-with_drop_both}
use vender.Ffi.{wave_add_new, wave_add_serial, wave_create, History, Hardware}
use vender.Pigpio.{Wave, check, from_id, new_serial, drop_wave}
use vender.Mdb.{GpioMdb, baud, data_bits, stop_bits}
use vender.Mdb.Time.{Duration}
use vender.Mdb.Bus.{mdb_wave_create}
use vender.Mdb.Driver.{Env}
use vender.Mdb.Receive.{Port, hw}
use vender.Mdb.Receive.Quiet.{AtPort, Triple-hw}
use vender.Mdb.Receive.Waves.{SameBut, SameBut-Unread, without_buf}
use vender.Mdb.Transfer.{encode, exchange, tx}
use vender.Mdb.Transfer.Quiet.{Keeps-encoded}
use vender.Mdb.Transfer.Answers.{waves_sent, HasSent}
use vender.Mdb.Transfer.Order.{Finished, Tried, Triple-exchange}

-- A fact that a precondition holds.
Triple_assuming :
    {S A : Type 0} (F : Type 0) (P : S → Type 0) (Q : A → S → Type 0) (R : S → Type 0)
    (m : Exec S A)
    → (F → Triple P m Q R)
    → Triple (λ s. F × P s) m Q R
Triple_assuming F P Q R m km = record { at = λ s h. (km h.0).at s h.1 }

module _ (H : Hardware) where
  -- The C library has made the wave `w` for these bytes on this pin.
  abbrev pub IsWaveOf : (pin : ℕ) → List ℕ → (w : ℕ) → Type 0
  IsWaveOf pin bytes w =
      (h : History) × (H.code
          (wave_create ∷ wave_add_serial pin baud data_bits stop_bits 0 bytes ∷ wave_add_new ∷ h)
        ≡ pos w)

  -- What has been made after the calls `h`, and nothing was sent.
  abbrev MadeAfter : (h : History) (pin : ℕ) → List ℕ → Wave → History → Type 0
  MadeAfter h pin bytes w h' =
      (H.code
          (wave_create ∷ wave_add_serial pin baud data_bits stop_bits 0 bytes ∷ wave_add_new ∷ h)
        ≡ pos w.id)
      × (waves_sent h' ≡ waves_sent h)

  mdb_wave_create-MadeAfter :
      (pin : ℕ) (bytes : List ℕ) (h : History)
      → let (r, h') = mdb_wave_create H pin bytes h in
        Post (MadeAfter h pin bytes) (λ h'. waves_sent h' ≡ waves_sent h) r h'
  unfolding mdb_wave_create new_serial check from_id waves_sent ◌>>=◌
  mdb_wave_create-MadeAfter pin bytes h = ground arith

  Triple-create :
      (waves : List ℕ) (pin : ℕ) (bytes : List ℕ)
      → Triple
          (HasSent H waves)
          (mdb_wave_create H pin bytes)
          (λ w h. IsWaveOf pin bytes w.id × HasSent H waves h)
          (HasSent H waves)
  Triple-create waves pin bytes = record {
    at = λ h sent.
        let c = mdb_wave_create H pin bytes h in
        Post-weaken (HasSent H waves) (HasSent H waves) (MadeAfter h pin bytes)
          (λ w h. IsWaveOf pin bytes w.id × HasSent H waves h) (λ h'. waves_sent h' ≡ waves_sent h)
          (HasSent H waves) (λ w h' k. ((h, k.0), k.1 ∙ sent)) (λ h' k. k ∙ sent) c.0 c.1
          (mdb_wave_create-MadeAfter pin bytes h);
  }

module _ (H : Hardware) (fuel : ℕ) (request : List ℕ) (p : Port) where
  -- The driver but for what its buffer holds, and the waves that were sent before.
  abbrev fixed : GpioMdb
  fixed = without_buf p.mdb

  abbrev before : List ℕ
  before = waves_sent p.history

  -- The wave `w` was made from the words of the request.
  abbrev pub Requested : (w : ℕ) → Type 0
  Requested w =
      (bytes : List ℕ) × ((encode request p).0 ≡ ok bytes) × IsWaveOf H p.mdb.tx_pin bytes w

  -- After a success: the wave of the request, and then the ACK if the response has bytes.
  abbrev pub Sent : List ℕ → Port → Type 0
  Sent response q = (w : ℕ) × Requested w × Finished H fuel fixed w before response q

  -- After a failure: no wave, or some of those of a transfer.
  abbrev pub SentSome : Port → Type 0
  SentSome q =
      (waves_sent q.history ≡ before) ⊎ (w : ℕ) × Requested w × Tried H fuel fixed w before q

  abbrev Idle : Port → Type 0
  Idle = AtPort (SameBut fixed) (HasSent H before)

  Triple-assert : (b : Bool) → Triple (λ q. q ≡ p) (assert b) (λ _ q. q ≡ p) SentSome
  Triple-assert true = record { at = λ q h. h }
  Triple-assert false = record { at = λ q h. inl (ap (λ q. waves_sent q.history) h) }

  encoded :
      (r : Outcome (List ℕ)) (q : Port)
      → (encode request p).0 ≡ r
      → Post (λ _. Idle) Idle r q
      → Post (λ bytes q. ((encode request p).0 ≡ ok bytes) × Idle q) SentSome r q
  encoded (ok bytes) q e h = (e, h)
  encoded (err _) q e h = inl h.0
  encoded panicked q e h = inl h.0
  encoded out_of_fuel q e h = tt

  Triple-encode :
      Triple
        (λ q. q ≡ p)
        (encode request)
        (λ bytes q. ((encode request p).0 ≡ ok bytes) × Idle q)
        SentSome
  Triple-encode = record {
    at = λ q h. rw h (
        encoded _ _ refl (
          (Keeps-encoded (SameBut fixed) (HasSent H before) (SameBut-Unread fixed) request).at p
            (refl, refl)));
  }

  Triple-pin :
      Triple Idle (gets λ q. q.mdb.tx_pin) (λ pin q. (pin ≡ p.mdb.tx_pin) × Idle q) SentSome
  Triple-pin = record { at = λ q h. (ap (λ m. m.tx_pin) h.1, h) }

  Triple-wave :
      (bytes : List ℕ)
      → Triple Idle
          (hw (mdb_wave_create H p.mdb.tx_pin bytes))
          (λ w q. IsWaveOf H p.mdb.tx_pin bytes w.id × Idle q)
          SentSome
  Triple-wave bytes =
      Triple-weaken Idle Idle
        (λ w. AtPort (SameBut fixed) (λ h. IsWaveOf H p.mdb.tx_pin bytes w.id × HasSent H before h))
        (λ w q. IsWaveOf H p.mdb.tx_pin bytes w.id × Idle q) Idle SentSome _ (λ q h. h)
        (λ w q h. (h.0.0, (h.0.1, h.1))) (λ q h. inl h.0)
        (Triple-hw (SameBut fixed) (HasSent H before) (HasSent H before)
          (λ w h. IsWaveOf H p.mdb.tx_pin bytes w.id × HasSent H before h) _
          (Triple-create H before p.mdb.tx_pin bytes))

  Finished-drop :
      (w : Wave) (bytes : List ℕ) (q : Port)
      → Finished H fuel fixed w.id before bytes q
      → Finished H fuel fixed w.id before bytes (hw (drop_wave H w) q).1
  unfolding drop_wave waves_sent
  Finished-drop w [] q h = h
  Finished-drop w (b ∷ bs) q h = h

  Tried-drop :
      (w : Wave) (q : Port)
      → Tried H fuel fixed w.id before q
      → Tried H fuel fixed w.id before (hw (drop_wave H w) q).1
  unfolding drop_wave waves_sent
  Tried-drop w q h = h

  Triple-sent :
      (E : Env) (w : Wave) (response : List ℕ) (timeout : Duration)
      → Requested w.id
      → Triple Idle
          (with_drop (hw (drop_wave H w)) (exchange H fuel E w request response timeout))
          Sent
          SentSome
  Triple-sent E w response timeout requested =
      Triple-weaken Idle Idle (Finished H fuel fixed w.id before) Sent
        (Tried H fuel fixed w.id before) SentSome _ (λ q h. h) (λ bytes q h. (w.id, requested, h))
        (λ q h. inr (w.id, requested, h))
        (Triple-with_drop_both Idle (Finished H fuel fixed w.id before)
          (Tried H fuel fixed w.id before) _ _ (λ bytes q h. Finished-drop w bytes q h)
          (λ q h. Tried-drop w q h)
          (Triple-exchange H fuel fixed w.id before E w request response timeout refl))

  Triple-tx :
      (E : Env) (response : List ℕ) (capacity : ℕ) (timeout : Duration)
      → Triple (λ q. q ≡ p) (tx H fuel E request response capacity timeout) Sent SentSome
  unfolding tx
  Triple-tx E response capacity timeout =
      let same : Port → Type 0 = λ q. q ≡ p in
      let made : List ℕ → Wave → Port → Type 0 =
        λ bytes w q. IsWaveOf H p.mdb.tx_pin bytes w.id × Idle q in
      Triple-bind same (λ _. same) Sent SentSome _ _ (Triple-assert _)
        λ _.
          Triple-bind same (λ _. same) Sent SentSome _ _ (Triple-assert _)
            λ _.
              Triple-bind same (λ _. same) Sent SentSome _ _ (Triple-assert _)
                λ _.
                  Triple-bind same (λ bytes q. ((encode request p).0 ≡ ok bytes) × Idle q) Sent
                    SentSome _ _ Triple-encode
                    λ bytes.
                      Triple_assuming ((encode request p).0 ≡ ok bytes) Idle Sent SentSome _
                        λ frame.
                          Triple-bind Idle (λ pin q. (pin ≡ p.mdb.tx_pin) × Idle q) Sent SentSome _
                            _ Triple-pin
                            λ pin. Triple_assuming (pin ≡ p.mdb.tx_pin) Idle Sent SentSome _ λ own.
                              rw own (
                                Triple-bind Idle (made bytes) Sent SentSome _ _ (Triple-wave bytes)
                                  λ w.
                                    Triple_assuming (IsWaveOf H p.mdb.tx_pin bytes w.id) Idle Sent
                                      SentSome _
                                      λ wave. Triple-sent E w response timeout (bytes, frame, wave))

-- The waves of a transfer go out in their order, each at most once. After a success they are the
-- wave that the C library has made from the words of the request, and then, if the response has
-- bytes, the driver's wave of the ACK. After an error or a panic no wave was sent, or that of the
-- request, or that and then the ACK or the NAK.
pub tx-Sent :
    (H : Hardware) (fuel : ℕ) (E : Env) (request response : List ℕ) (capacity : ℕ)
    (timeout : Duration) (p : Port)
    → let (r, q) = tx H fuel E request response capacity timeout p in
      Post (Sent H fuel request p) (SentSome H fuel request p) r q
tx-Sent H fuel E request response capacity timeout p =
    (Triple-tx H fuel request p E response capacity timeout).at p refl
