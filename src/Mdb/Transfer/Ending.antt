-- ===== src/Mdb/Transfer/Ending.antt =====
-- Sending the driver's waves on a bus that works, and the end of an exchange.

use vender.Prelude.{
  ℕ, ◌+◌, ◌*◌, ◌^◌, ◌≤◌, ◌<◌, ◌≡◌, refl, ap, Bool, true, false, String, List, [], ◌∷◌, arith, ◌==◌,
  if◌then◌else◌,
}
use vender.Error.{Error, mdb_checksum}
use vender.Exec.{Outcome, Exec, ok, err, panicked, out_of_fuel, continue, pure, fail, ◌>>=◌, ◌>>◌}
use vender.Exec.Gives.{Yields, Gives, Gives-bind}
use vender.Ffi.{tick, History, Hardware}
use vender.Ffi.Clock.{Clock}
use vender.Pigpio.{Wave, tick_since}
use vender.Mdb.{checksum}
use vender.Mdb.Driver.{Env}
use vender.Mdb.Live.Device.{Answering, Passed, SentBy, wave_out}
use vender.Mdb.Live.Steps.{ticked, tick_since-Gives, add_u32-Gives}
use vender.Mdb.Receive.{Port, hw}
use vender.Mdb.Receive.Words.{Word, Serial}
use vender.Mdb.Transfer.{verdict, send_wait, conclude}
use vender.Mdb.Transfer.Judged.{settled, with_bytes, judged}

-- One of two waves goes out, and after the second one there is an error.
answer-Yields :
    (right : Bool) (e : Error) (ack nak : Exec Port (Unit {0})) (p q q' : Port)
    → Gives ack p tt q
    → Gives nak p tt q'
    → (q'' : Port) × Yields
        (if right then ack else nak >> fail e)
        p
        (if right then ok tt else err e)
        q''
answer-Yields true e ack nak p q q' acked naked = (q, acked)
answer-Yields false e ack nak p q q' acked naked = (q', Gives-bind _ _ naked refl)

module _ (H : Hardware) (C : Clock H) (S : Serial H) (words : List Word) (air arrival : ℕ)
    (A : Answering H C words air arrival) (step : ℕ) (positive : 0 < step) (fuel : ℕ)
    (big : 2 ^ 32 ≤ fuel) where
  -- The driver's wave goes out.
  pub send_wait-Gives :
      (deadline : ℕ) (w : Wave) (e : String) (p : Port)
      → p.mdb.wait_step ≡ step
      → deadline + step + 4 * C.jitter < 2 ^ 32
      → air + 2 * C.jitter ≤ deadline
      → (h : History) × Gives (send_wait H fuel w deadline e) p tt (record p { history = h })
        × Passed H C (deadline + step + 6 * C.jitter) p.history h
        × SentBy H C (C.now p.history + 2 * C.jitter) h
  unfolding send_wait ◌>>=◌
  send_wait-Gives deadline w e p paced no_wrap in_time =
      let (h, sent, (same, later, soon), asked) =
        wave_out H C S words air arrival A p.mdb.wait_step (omega (arith, positive, paced)) fuel
          deadline (omega (arith, no_wrap, paced)) in_time (omega (arith, big, no_wrap)) w e
          p.history in
      (
        h,
        ap (λ s. (s.0, record p { history = s.1 })) sent,
        (same, later, omega (arith, soon, paced)),
        asked,
      )

  conclude-Yields :
      (small_us end_byte : ℕ) (bytes : List ℕ) (p : Port)
      → p.mdb.wait_step ≡ step
      → C.now p.history + small_us + step + 5 * C.jitter < 2 ^ 32
      → air + 2 * C.jitter ≤ C.now p.history + small_us
      → (q : Port) × Yields (conclude H fuel small_us end_byte bytes) p (settled end_byte bytes) q
  unfolding conclude verdict settled
  conclude-Yields small_us end_byte [] p paced room in_time = (p, ground arith)
  conclude-Yields small_us end_byte (b ∷ bs) p paced room in_time =
      let t = C.now (tick ∷ p.history) in
      let later = C.now_later tick p.history in
      let soon = C.now_bounded tick p.history in
      let (h, acked, _, _) =
        send_wait-Gives (t + small_us) p.mdb.wave_ack "send ACK timeout" (ticked p) paced
          (omega arith) (omega arith) in
      let (h', naked, _, _) =
        send_wait-Gives (t + small_us) p.mdb.wave_nak "send NAK timeout" (ticked p) paced
          (omega arith) (omega arith) in
      let (q, answered) =
        answer-Yields (end_byte == checksum (b ∷ bs))
          (mdb_checksum (checksum (b ∷ bs)) end_byte (b ∷ bs)) _ _ (ticked p)
          (record p { history = h }) (record p { history = h' }) acked naked in
      (
        q,
        Gives-bind _ _ (tick_since-Gives H C p (omega arith)) (
            Gives-bind _ _ (add_u32-Gives (ticked p) t small_us (omega arith))
              (Gives-bind _ _ refl (Gives-bind _ _ refl answered))),
      )

-- The debug message at the end of `exchange`.
debug-Gives :
    (H : Hardware) (debug : Bool) (start : ℕ) (bytes : List ℕ) (p : Port)
    → (q : Port) × Gives
        (if debug then (do hw (tick_since H start); pure bytes) else pure bytes)
        p
        bytes
        q
unfolding tick_since ◌>>=◌
debug-Gives H true start bytes p = (ticked p, refl)
debug-Gives H false start bytes p = (p, refl)

module _ (H : Hardware) (C : Clock H) (S : Serial H) (words : List Word) (air arrival : ℕ)
    (A : Answering H C words air arrival) (step : ℕ) (positive : 0 < step) (fuel : ℕ)
    (big : 2 ^ 32 ≤ fuel) where
  after_conclude :
      (E : Env) (start : ℕ) (bytes : List ℕ) (r : Outcome (Unit {0})) (p : Port)
      → (q : Port) × (continue r
            (λ _. if E.debug_enabled then (do hw (tick_since H start); pure bytes) else pure bytes)
            p
          ≡ (with_bytes bytes r, q))
  after_conclude E start bytes (ok _) p = debug-Gives H E.debug_enabled start bytes p
  after_conclude E start bytes (err e) p = (p, refl)
  after_conclude E start bytes panicked p = (p, refl)
  after_conclude E start bytes out_of_fuel p = (p, refl)

  pub finish-Yields :
      (E : Env) (small_us start end_byte : ℕ) (bytes : List ℕ) (p : Port)
      → p.mdb.wait_step ≡ step
      → C.now p.history + small_us + step + 5 * C.jitter < 2 ^ 32
      → air + 2 * C.jitter ≤ C.now p.history + small_us
      → (q : Port) × Yields
          (do
            conclude H fuel small_us end_byte bytes
            if E.debug_enabled then (do hw (tick_since H start); pure bytes) else pure bytes)
          p
          (judged end_byte bytes)
          q
  unfolding ◌>>=◌
  finish-Yields E small_us start end_byte bytes p paced room in_time =
      let (q, done) =
        conclude-Yields H C S words air arrival A step positive fuel big small_us end_byte bytes p
          paced room in_time in
      let (q', said) = after_conclude E start bytes (settled end_byte bytes) q in (q', rw done said)
