-- ===== src/Mdb/Transfer/Succeeds.antt =====
-- An exchange succeeds: on a bus that works, with a device that answers in time.

use vender.Prelude.{
  ℕ, ◌+◌, ◌*◌, ◌^◌, ◌≤◌, ◌<◌, ◌≡◌, ap, ◌∙◌, List, ◌∷◌, ◌++◌, arith, if◌then◌else◌, min, length,
}
use vender.Exec.{pure, ◌>>=◌, ◌>>◌}
use vender.Exec.Gives.{Yields, Gives-bind, Keeps-Gives}
use vender.Ffi.{tick, Hardware}
use vender.Ffi.Clock.{Clock}
use vender.Pigpio.{Wave, add_u32, tick_since}
use vender.Mdb.{block_max_length, timeout_small_us, timeout_char_us, timeout_receive_us}
use vender.Mdb.Time.{Duration, micros}
use vender.Mdb.Driver.{Env}
use vender.Mdb.Live.Device.{Answering, Since, SentAt, sent_at, SentAt-Listening}
use vender.Mdb.Live.Listen.{Unread-any, heard, received, not_missing}
use vender.Mdb.Live.Steps.{
  ticked, tick_since-Gives, add_u32-Gives, mul_u32-Gives, duration_as_micros32-Gives,
}
use vender.Mdb.Receive.{Port, hw, ended, wait_receive, receive}
use vender.Mdb.Receive.Quiet.{AtPort, Listening, Keeps-wait_receive, Keeps-receive}
use vender.Mdb.Receive.Total.{By, CameBy, reads}
use vender.Mdb.Receive.Stream.{IsFull}
use vender.Mdb.Receive.Words.{Word, Serial, stream, scan}
use vender.Mdb.Transfer.{conclude, exchange}
use vender.Mdb.Transfer.Judged.{judged}
use vender.Mdb.Transfer.Ending.{send_wait-Gives, finish-Yields}

Since-Listening : (H : Hardware) (C : Clock H) (since : ℕ) → Listening (Since H C since)
Since-Listening H C since = record { keeps = λ c h n p. omega (arith, C.now_later c h) }

module _ (H : Hardware) (C : Clock H) (S : Serial H) (words : List Word) (air arrival : ℕ)
    (A : Answering H C words air arrival) (step : ℕ) (positive : 0 < step) (fuel : ℕ)
    (big : 2 ^ 32 ≤ fuel) where
  -- Receiving, from the first chunk on.
  rest-Yields :
      (E : Env) (deadline limit us start : ℕ) (base ws : List Word) (n : ℕ) (response : List ℕ)
      (end_byte : ℕ) (bytes : List ℕ) (time : ℕ) (p : Port)
      → base ++ ws ≡ words
      → scan ws response ≡ ended end_byte bytes
      → length ws ≤ fuel
      → limit
          + timeout_receive_us
          + timeout_small_us
          + 2 * step
          + 7 * C.jitter
          + reads C.jitter (length ws)
        < 2 ^ 32
      → time + arrival + C.jitter ≤ C.now p.history + timeout_receive_us
      → air + 2 * C.jitter ≤ C.now p.history + min us timeout_small_us
      → SentAt H C time p.history
      → CameBy H C S deadline step limit base n p
      → (q : Port) × Yields
          (do
            t ← hw (tick_since H 0)
            receive_deadline ← add_u32 t timeout_receive_us
            (end_byte, bytes) ← receive H fuel fuel receive_deadline n response
            conclude H fuel (min us timeout_small_us) end_byte bytes
            if E.debug_enabled then (do hw (tick_since H start); pure bytes) else pure bytes)
          p
          (judged end_byte bytes)
          q
  unfolding stream sent_at
  rest-Yields E deadline limit us start base ws n response end_byte bytes time p all found few room
        comes out asked (chunk, (got_some, (paced, by))) =
      let t = C.now (tick ∷ p.history) in
      let later = C.now_later tick p.history in
      let soon = C.now_bounded tick p.history in
      let d = t + timeout_receive_us in
      let last = limit + timeout_receive_us + step + 2 * C.jitter in
      let (q, got, (paced', by')) =
        received H C S words air arrival A step positive fuel d (omega arith) time (omega arith)
          (length ws) fuel (end_byte, bytes) last base ws n response (ticked p) (all, found)
          (omega arith) few (omega arith) (omega arith) asked
          (chunk, (got_some, (paced, omega arith))) in
      let (since, _) =
        Keeps-Gives (AtPort (λ m. Unit) (Since H C t)) (receive H fuel fuel d n response)
          (Keeps-receive (λ m. Unit) (Since H C t) Unread-any (Since-Listening H C t) H fuel fuel d
            n response)
          got (omega arith, tt) in
      let (q', finished) =
        finish-Yields H C S words air arrival A step positive fuel big E (min us timeout_small_us)
          start end_byte bytes q paced' (omega arith) (omega arith) in
      (
        q',
        Gives-bind _ _ (tick_since-Gives H C p (omega arith)) (
            Gives-bind _ _ (add_u32-Gives (ticked p) t timeout_receive_us (omega arith))
              (Gives-bind _ _ got finished)),
      )

  -- Receiving, with the wait for the first chunk.
  answer-Yields :
      (E : Env) (deadline limit us start : ℕ) (ws : List Word) (response : List ℕ) (end_byte : ℕ)
      (bytes : List ℕ) (time : ℕ) (p : Port)
      → stream H p.history ++ ws ≡ words
      → scan ws response ≡ ended end_byte bytes
      → length ws ≤ fuel
      → limit
          + timeout_receive_us
          + timeout_small_us
          + 2 * step
          + 9 * C.jitter
          + reads C.jitter (length ws)
        < 2 ^ 32
      → deadline + step + C.jitter ≤ limit
      → time + arrival + C.jitter ≤ deadline
      → time + arrival + C.jitter ≤ C.now p.history + timeout_receive_us
      → air + 2 * C.jitter ≤ C.now p.history + min us timeout_small_us
      → IsFull p.mdb
      → By C step limit p
      → SentAt H C time p.history
      → (q : Port) × Yields
          (do
            received_count ← wait_receive H fuel deadline
            t ← hw (tick_since H 0)
            receive_deadline ← add_u32 t timeout_receive_us
            (end_byte, bytes) ← receive H fuel fuel receive_deadline received_count response
            conclude H fuel (min us timeout_small_us) end_byte bytes
            if E.debug_enabled then (do hw (tick_since H start); pure bytes) else pure bytes)
          p
          (judged end_byte bytes)
          q
  answer-Yields E deadline limit us start ws response end_byte bytes time p all found few room soon
        in_time comes out full by asked =
      let (n, q, got, came) =
        heard H C S words air arrival A step positive fuel deadline (omega arith) time in_time limit
          soon (omega arith) p
          (not_missing H C S words air arrival A step positive fuel deadline (omega arith) time
            in_time p.history ws response (end_byte, bytes) all found)
          full by asked in
      let now = C.now p.history in
      let (since, _) =
        Keeps-Gives (AtPort (λ m. Unit) (Since H C now)) (wait_receive H fuel deadline)
          (Keeps-wait_receive (λ m. Unit) (Since H C now) Unread-any (Since-Listening H C now) H
            fuel deadline)
          got (omega arith, tt) in
      let (asked', _) =
        Keeps-Gives (AtPort (λ m. Unit) (SentAt H C time)) (wait_receive H fuel deadline)
          (Keeps-wait_receive (λ m. Unit) (SentAt H C time) Unread-any (SentAt-Listening H C time) H
            fuel deadline)
          got (asked, tt) in
      let (q', done) =
        rest-Yields E deadline (limit + 2 * C.jitter) us start (stream H p.history) ws n response
          end_byte bytes time q all found few (omega arith) (omega arith) (omega arith) asked'
          came in
      (q', Gives-bind _ _ got done)

  pub exchange-Yields :
      (E : Env) (w : Wave) (request response : List ℕ) (timeout : Duration) (ws : List Word)
      (end_byte : ℕ) (bytes : List ℕ) (p : Port)
      → 0 < length request
      → length request < block_max_length
      → IsFull p.mdb
      → p.mdb.wait_step ≡ step
      → stream H p.history ++ ws ≡ words
      → scan ws response ≡ ended end_byte bytes
      → length ws ≤ fuel
      → 2 * C.now p.history
          + micros timeout
          + 40 * timeout_char_us
          + timeout_receive_us
          + timeout_small_us
          + 4 * step
          + 22 * C.jitter
          + reads C.jitter (length ws)
        < 2 ^ 32
      → air + 2 * C.jitter ≤ C.now p.history + min (micros timeout) timeout_small_us
      → air + 2 * C.jitter ≤ C.now p.history + timeout_char_us
      → arrival + 4 * C.jitter ≤ micros timeout
      → arrival + 4 * C.jitter ≤ timeout_receive_us
      → (q : Port) × Yields
          (exchange H fuel E w request response timeout)
          p
          (judged end_byte bytes)
          q
  unfolding exchange stream
  exchange-Yields E w request response timeout ws end_byte bytes p some short full paced all found
        few room out_ack out in_time comes =
      let us = micros timeout in
      let now = C.now p.history in
      let t = C.now (tick ∷ p.history) in
      let later = C.now_later tick p.history in
      let soon = C.now_bounded tick p.history in
      let send_us = timeout_char_us * length request in
      let p₁ = ticked p in
      let (h, sent, (same, after, by), (time, asked, early)) =
        send_wait-Gives H C S words air arrival A step positive fuel big (t + send_us) w
          "send request timeout" p₁ paced (omega arith) (omega arith) in
      let p₂ : Port = record p₁ { history = h } in
      let limit = 2 * now + us + 40 * timeout_char_us + 2 * step + 12 * C.jitter in
      let (q, done) =
        answer-Yields E (t + us) limit us t ws response end_byte bytes time p₂
          (ap (λ s. s ++ ws) same ∙ all) found few (omega arith) (omega arith) (omega arith)
          (omega arith) (omega arith) full (paced, omega arith) asked in
      (
        q,
        Gives-bind _ _ (duration_as_micros32-Gives p timeout (omega arith)) (
            Gives-bind _ _ (tick_since-Gives H C p (omega arith)) (
              Gives-bind _ _ (add_u32-Gives p₁ t us (omega arith)) (
                Gives-bind _ _ (mul_u32-Gives p₁ timeout_char_us (length request) (omega arith)) (
                  Gives-bind _ _ (add_u32-Gives p₁ t send_us (omega arith))
                    (Gives-bind _ _ sent done))))),
      )
