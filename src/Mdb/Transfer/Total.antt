-- ===== src/Mdb/Transfer/Total.antt =====
-- A transfer ends: with a response or an error, and without a panic.
use vender.Prelude.{
  ℕ, ◌+◌, ◌*◌, ◌^◌, ◌≤◌, ◌<◌, ◌≡◌, String, List, [], ◌∷◌, arith, ◌==◌, if◌then◌else◌,
}
use vender.Error.{mdb_checksum}
use vender.Exec.{Outcome, Exec, ok, err, panicked, out_of_fuel, fail, ◌>>=◌, ◌>>◌}
use vender.Exec.Ends.{
  EndPost, Ends, Ends-bind, Ends-if, Ends-weaken, EndPost-weaken, Whatever, Ends-gets, Ends-fail,
  Ends_assuming,
}
use vender.Ffi.{History, Hardware}
use vender.Ffi.Clock.{Clock}
use vender.Pigpio.{Wave, tick_since}
use vender.Mdb.{GpioMdb, timeout_small_us, checksum}
use vender.Mdb.Bus.Total.{ClockBy, Ends-tick_now, Ends-send_wait, Ends-add_u32}
use vender.Mdb.Receive.{Port, hw}
use vender.Mdb.Receive.Quiet.{AtPort}
use vender.Mdb.Transfer.{verdict, send_wait, conclude}

module _ (H : Hardware) (C : Clock H) (I : GpioMdb → Type 0) where
  -- The clock has not passed `limit`, and `I` holds of the driver.
  abbrev pub ReadyBy : (limit : ℕ) → Port → Type 0
  ReadyBy limit = AtPort I (ClockBy H C limit)

  module _ {A : Type 0} (P : History → Type 0) (Q : A → History → Type 0) where
    EndPost-hw :
        (p : Port) (r : Outcome A) (h : History)
        → EndPost Q r h
        → I p.mdb
        → EndPost (λ a. AtPort I (Q a)) r (record p { history = h })
    EndPost-hw p (ok a) h q i = (q, i)
    EndPost-hw p (err _) h q i = tt
    EndPost-hw p panicked h q i = q
    EndPost-hw p out_of_fuel h q i = q

    pub Ends-hw : (m : Exec History A) → Ends P m Q → Ends (AtPort I P) (hw m) (λ a. AtPort I (Q a))
    Ends-hw m km = record {
      at = λ p h. EndPost-hw p (m p.history).0 (m p.history).1 (km.at p.history h.0) h.1;
    }

  pub Ends-clock :
      (limit : ℕ)
      → limit + C.jitter < 2 ^ 32
      → Ends
          (ReadyBy limit)
          (hw (tick_since H 0))
          (λ t p. (t ≤ limit + C.jitter) × ReadyBy (limit + C.jitter) p)
  Ends-clock limit small =
      Ends-weaken (ReadyBy limit) (ReadyBy limit)
        (λ t. AtPort I (λ h. (t ≤ limit + C.jitter) × ClockBy H C (limit + C.jitter) h))
        (λ t p. (t ≤ limit + C.jitter) × ReadyBy (limit + C.jitter) p) _ (λ p h. h)
        (λ t p h. (h.0.0, (h.0.1, h.1)))
        (Ends-hw (ClockBy H C limit)
          (λ t h. (t ≤ limit + C.jitter) × ClockBy H C (limit + C.jitter) h) _
          (Ends-tick_now H C limit small))

module _ (H : Hardware) (C : Clock H) (I : GpioMdb → Type 0) (step : ℕ) (positive : 0 < step)
    (paced : (m : GpioMdb) → I m → m.wait_step ≡ step) (fuel : ℕ) (big : 2 ^ 32 ≤ fuel) where
  pub Ends-send_at :
      (limit deadline : ℕ) (w : Wave) (e : String)
      → deadline + step + 4 * C.jitter < 2 ^ 32
      → Ends
          (ReadyBy H C I limit)
          (send_wait H fuel w deadline e)
          (λ _. ReadyBy H C I (limit + deadline + step + 6 * C.jitter))
  unfolding send_wait ◌>>=◌
  Ends-send_at limit deadline w e no_wrap = record {
    at = λ p h.
        let pause = p.mdb.wait_step in
        let same = paced p.mdb h.1 in
        EndPost-weaken (λ _. ReadyBy H C I (limit + deadline + pause + 6 * C.jitter))
          (λ _. ReadyBy H C I (limit + deadline + step + 6 * C.jitter))
          (λ a q k. (omega arith, k.1)) _ _
          ((Ends-hw H C I (ClockBy H C limit)
              (λ _. ClockBy H C (limit + deadline + pause + 6 * C.jitter)) _
              (Ends-send_wait H C fuel deadline pause e (omega arith) (omega arith) (omega arith)
                limit w)).at
            p h);
  }

  -- The answer is sent, or the transfer has failed before.
  pub Ends-conclude :
      (limit small_us end_byte : ℕ) (bytes : List ℕ)
      → small_us ≤ timeout_small_us
      → limit + timeout_small_us + step + 5 * C.jitter < 2 ^ 32
      → Ends (ReadyBy H C I limit) (conclude H fuel small_us end_byte bytes) Whatever
  unfolding conclude verdict
  Ends-conclude limit small_us end_byte [] short no_wrap = record { at = λ p h. ground arith }
  Ends-conclude limit small_us end_byte (b ∷ bs) short no_wrap =
      let soon = limit + C.jitter in
      Ends-bind (ReadyBy H C I limit) (λ t p. (t ≤ soon) × ReadyBy H C I soon p) Whatever _ _
        (Ends-clock H C I limit (omega arith))
        λ t. Ends_assuming (ReadyBy H C I soon) (t ≤ soon) Whatever _ λ now.
          Ends-bind (ReadyBy H C I soon) (λ d p. (d ≡ t + small_us) × ReadyBy H C I soon p) Whatever
            _ _ (Ends-add_u32 (ReadyBy H C I soon) t small_us (omega arith))
            λ d. Ends_assuming (ReadyBy H C I soon) (d ≡ t + small_us) Whatever _ λ sum.
              Ends-bind (ReadyBy H C I soon) (λ _. ReadyBy H C I soon) Whatever _ _
                (Ends-gets (ReadyBy H C I soon) _)
                λ nak.
                  Ends-bind (ReadyBy H C I soon) (λ _. ReadyBy H C I soon) Whatever _ _
                    (Ends-gets (ReadyBy H C I soon) _) λ ack. answer soon d nak ack (omega arith)
    where
      answer :
          (soon d : ℕ) (nak ack : Wave)
          → d + step + 4 * C.jitter < 2 ^ 32
          → Ends
              (ReadyBy H C I soon)
              (if end_byte == checksum (b ∷ bs)
                then send_wait H fuel ack d "send ACK timeout"
                else (do
                  send_wait H fuel nak d "send NAK timeout"
                  fail (mdb_checksum (checksum (b ∷ bs)) end_byte (b ∷ bs))))
              Whatever
      answer soon d nak ack small =
          let last = soon + d + step + 6 * C.jitter in
          Ends-if (ReadyBy H C I soon) Whatever (end_byte == checksum (b ∷ bs)) _ _
            (λ _.
              Ends-weaken (ReadyBy H C I soon) (ReadyBy H C I soon) (λ _. ReadyBy H C I last)
                Whatever _ (λ p h. h) (λ a p h. tt)
                (Ends-send_at soon d ack "send ACK timeout" small))
            (λ _.
              Ends-bind (ReadyBy H C I soon) (λ _. ReadyBy H C I last) Whatever _ _
                (Ends-send_at soon d nak "send NAK timeout" small)
                λ _. Ends-fail (ReadyBy H C I last) Whatever _)
