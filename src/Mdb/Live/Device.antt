-- ===== src/Mdb/Live/Device.antt =====
-- A bus that works, with a device that answers; and sending a wave over it.
use vender.Prelude.{
  ℕ, pos, ◌+◌, ◌*◌, ◌%◌, ◌^◌, ◌≤◌, ◌<◌, ◌≡◌, ◌≢◌, refl, sym, ap, ◌∙◌, Option, none, some, String,
  List, [], ◌∷◌, ◌++◌, arith,
}
use vender.Exec.{ok}
use vender.Exec.Gives.{Gives, Post-at_ok, Post-at_err, EndPost-at_ok}
use vender.Exec.Keeps.{Post}
use vender.Ffi.{
  Call, delay, tick, wave_tx_busy, wave_tx_send, serial_read, History, Hardware,
  pi_wave_mode_one_shot_sync,
}
use vender.Ffi.Clock.{Clock, duration}
use vender.Pigpio.{Wave}
use vender.Pigpio.Quiet.{Quiet}
use vender.Mdb.{buf_size}
use vender.Mdb.Bus.{mdb_wave_send_wait}
use vender.Mdb.Bus.Quiet.{Looks, Looking, Keeps-send_wait_loop, Keeps-send_wait}
use vender.Mdb.Bus.Total.{ClockBy, Ends-send_wait}
use vender.Mdb.Live.{IsSound, IsOutAt, looped, send_wait_returns}
use vender.Mdb.Receive.Quiet.{Listens, Listening}
use vender.Mdb.Receive.Stream.{Came, Came-Quiet}
use vender.Mdb.Receive.Words.{Word, Serial, stream}

module _ {H : Hardware} (C : Clock H) where
  -- When the latest wave was sent.
  unfoldable pub sent_at : History → Option ℕ
  sent_at [] = none
  sent_at (wave_tx_send wave mode ∷ h) = some (C.now (wave_tx_send wave mode ∷ h))
  sent_at (_ ∷ h) = sent_at h

-- A bus that works, and a device that sends `words` in all: no call fails; a wave is out `air`
-- microseconds after it was sent; and from `arrival` microseconds after the latest send on, a read
-- with room for the driver's buffer finds something as long as words are missing.
pub record Answering (H : Hardware) (C : Clock H) (words : List Word) (air arrival : ℕ)
    : Type 0 where
  pub sound : IsSound H
  pub out :
      (time : ℕ) (h : History)
      → sent_at C h ≡ some time
      → time + air ≤ C.now (wave_tx_busy ∷ h)
      → H.code (wave_tx_busy ∷ h) ≢ pos 1
  pub sends : (h : History) → (rest : List Word) × (stream H h ++ rest ≡ words)
  pub comes :
      (time gpio size : ℕ) (h : History)
      → sent_at C h ≡ some time
      → buf_size ≤ size
      → time + arrival ≤ C.now (serial_read gpio size ∷ h)
      → stream H h ≢ words
      → H.code (serial_read gpio size ∷ h) ≢ pos 0

-- The time of the latest send, over the loop that waits for its wave.
module _ (H : Hardware) (C : Clock H) (time : ℕ) where
  abbrev pub SentAt : History → Type 0
  SentAt h = sent_at C h ≡ some time

  SentAt-Looks : (c : Call) (h : History) → Looks c → SentAt h → SentAt (c ∷ h)
  unfolding sent_at
  SentAt-Looks (delay micros) h n e = e
  SentAt-Looks wave_tx_busy h n e = e
  SentAt-Looks tick h n e = e
  SentAt-Looks _ h n e = elim n [ ]

  SentAt-Looking : Looking SentAt
  SentAt-Looking = record { keeps = SentAt-Looks }

  SentAt-Listens : (c : Call) (h : History) → Listens c → SentAt h → SentAt (c ∷ h)
  unfolding sent_at
  SentAt-Listens (delay micros) h n e = e
  SentAt-Listens (serial_read gpio size) h n e = e
  SentAt-Listens tick h n e = e
  SentAt-Listens _ h n e = elim n [ ]

  pub SentAt-Listening : Listening SentAt
  SentAt-Listening = record { keeps = SentAt-Listens }

-- An invariant of time: the clock does not run backwards.
module _ (H : Hardware) (C : Clock H) (since : ℕ) where
  abbrev pub Since : History → Type 0
  Since h = since ≤ C.now h

  pub Since-Quiet : Quiet Since
  Since-Quiet = record { keeps = λ c h n p. omega (arith, C.now_later c h) }

abbrev pub IsBrief : Call → Type 0
IsBrief (delay micros) = ⊥
IsBrief (serial_read gpio size) = ⊥
IsBrief _ = Unit

brief_duration : (c : Call) → IsBrief c → duration c ≡ 0
brief_duration (delay micros) brief = elim brief [ ]
brief_duration _ brief = refl

brief_stream : (H : Hardware) (c : Call) (h : History) → IsBrief c → stream H (c ∷ h) ≡ stream H h
unfolding stream
brief_stream H (delay micros) h brief = refl
brief_stream H (serial_read gpio size) h brief = elim brief [ ]
brief_stream H _ h brief = refl

module _ (H : Hardware) (C : Clock H) where
  -- The words are the same, and the clock has run on for at most this time.
  abbrev pub Passed : (time : ℕ) → History → History → Type 0
  Passed time h h' = (stream H h' ≡ stream H h) × (C.now h ≤ C.now h') × (C.now h' ≤ C.now h + time)

  pub Passed-refl : (h : History) → Passed 0 h h
  Passed-refl h = (refl, omega arith, omega arith)

  -- A call that neither reads words nor waits.
  pub Passed-call :
      (c : Call) (time : ℕ) (h h' : History)
      → IsBrief c
      → Passed time h h'
      → Passed (time + C.jitter) h (c ∷ h')
  Passed-call c time h h' brief (same, later, soon) =
      let kept : stream H (c ∷ h') ≡ stream H h' = brief_stream H c h' brief in
      let still : duration c ≡ 0 = brief_duration c brief in
      (kept ∙ same, omega (arith, C.now_later c h'), omega (arith, C.now_bounded c h', still))

  -- A wave has been sent, the latest by this time.
  abbrev pub SentBy : (limit : ℕ) → History → Type 0
  SentBy limit h = (time : ℕ) × SentAt H C time h × (time ≤ limit)

module _ (H : Hardware) (C : Clock H) (S : Serial H) (words : List Word) (air arrival : ℕ)
    (A : Answering H C words air arrival) (step : ℕ) (positive : 0 < step) (fuel deadline : ℕ)
    (no_wrap : deadline + step + 4 * C.jitter < 2 ^ 32) (in_time : air + 2 * C.jitter ≤ deadline)
    (enough : deadline < fuel) where
  module _ (w : Wave) (e : String) (h : History) where
    abbrev first : History
    first = wave_tx_send w.id pi_wave_mode_one_shot_sync ∷ tick ∷ h

    -- The loop leaves the wave the latest one.
    sent_looped :
        let l = looped H C A.sound deadline step positive (air + C.jitter) fuel w e h in
        Post (λ _. SentAt H C (C.now first)) (SentAt H C (C.now first)) l.0 l.1
    unfolding sent_at
    sent_looped =
        (Keeps-send_wait_loop H _ (SentAt-Looking H C (C.now first)) fuel
            (C.now (tick ∷ h) % 2 ^ 32) deadline step e).at
          first refl

    out_at :
        let l = looped H C A.sound deadline step positive (air + C.jitter) fuel w e h in
        IsOutAt H C A.sound deadline step positive (air + C.jitter) (C.now (tick ∷ h)) l.0 l.1
    unfolding sent_at
    out_at error h' failed at late =
        let time = C.now first in
        let l = looped H C A.sound deadline step positive (air + C.jitter) fuel w e h in
        let kept : sent_at C l.1 ≡ some time =
          Post-at_err (λ _. SentAt H C time) (SentAt H C time) l.0 l.1 failed sent_looped in
        let same : sent_at C l.1 ≡ sent_at C h' = ap (sent_at C) at in
        let soon = C.now_bounded (wave_tx_send w.id pi_wave_mode_one_shot_sync) (tick ∷ h) in
        A.out time h' (sym same ∙ kept) (omega (arith, soon, late))

    -- A wave is sent and goes out, and meanwhile no words come in.
    pub wave_out :
        (h' : History) × Gives (mdb_wave_send_wait H fuel w deadline step e) h tt h'
        × Passed H C (deadline + step + 6 * C.jitter) h h'
        × SentBy H C (C.now h + 2 * C.jitter) h'
    unfolding sent_at
    wave_out =
        let m = mdb_wave_send_wait H fuel w deadline step e h in
        let l = looped H C A.sound deadline step positive (air + C.jitter) fuel w e h in
        let (over, sent) =
          send_wait_returns H C A.sound deadline step positive (air + C.jitter) fuel w e h
            (omega arith) out_at (omega arith) enough in
        let done : m.0 ≡ ok tt = ap (λ s. s.0) sent in
        let kept =
          Post-at_ok (λ _. SentAt H C (C.now first)) (SentAt H C (C.now first)) l.0 l.1 over
            sent_looped in
        let bounded = C.now_bounded tick h in
        let bounded' = C.now_bounded (wave_tx_send w.id pi_wave_mode_one_shot_sync) (tick ∷ h) in
        let same = Keeps-send_wait H _ (Came-Quiet H S (stream H h)) fuel w deadline step e in
        let later = Keeps-send_wait H _ (Since-Quiet H C (C.now h)) fuel w deadline step e in
        let soon = Ends-send_wait H C fuel deadline step e positive enough no_wrap (C.now h) w in
        (
          m.1,
          ap (λ r. (r, m.1)) done,
          (
            Post-at_ok (λ _. Came H S (stream H h)) (Came H S (stream H h)) m.0 m.1 done
                (same.at h refl),
            Post-at_ok (λ _. Since H C (C.now h)) (Since H C (C.now h)) m.0 m.1 done
                (later.at h (omega arith)),
            omega (
              arith,
              EndPost-at_ok (λ _. ClockBy H C (C.now h + deadline + step + 6 * C.jitter)) m.0 m.1
                  done (soon.at h (omega arith)),
            ),
          ),
          (C.now first, ap (λ s. sent_at C s.1) sent ∙ kept, omega arith),
        )
