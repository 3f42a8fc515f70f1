-- ===== src/Mdb/Transfer/Exchange.antt =====
-- What `tx` does with the wave of its request ends with a response or an error.
use vender.Prelude.{
  ℕ, suc, ◌+◌, ◌-◌, ◌*◌, ◌^◌, ◌≤◌, ◌<◌, ◌≡◌, refl, List, Bool, true, false, arith, ltb, min,
  if◌then◌else◌, length,
}
use vender.Exec.{ok, err, pure, ◌>>=◌, ◌>>◌}
use vender.Exec.Ends.{EndPost, Ends, Ends-bind, Ends-if, Ends-weaken, Whatever, Ends_assuming}
use vender.Ffi.{tick, History, Hardware}
use vender.Ffi.Clock.{Clock}
use vender.Pigpio.{Wave, add_u32, tick_since, wrapping_sub}
use vender.Mdb.{GpioMdb, block_max_length, timeout_small_us, timeout_char_us, timeout_receive_us}
use vender.Mdb.Time.{Duration, micros, overflow, duration_as_micros32, duration_as_micros32_exact}
use vender.Mdb.Bus.Total.{Ends-add_u32, Ends-mul_u32}
use vender.Mdb.Driver.{Env}
use vender.Mdb.Receive.{Port, hw, wait_receive, receive}
use vender.Mdb.Receive.Words.{Word, Serial, stream}
use vender.Mdb.Receive.Stream.{IsFull}
use vender.Mdb.Receive.Total.{By, CameBy, Nearly, reads, wait-Came, receive-Ends}
use vender.Mdb.Transfer.{conclude, exchange}
use vender.Mdb.Transfer.Total.{ReadyBy, Ends-clock, Ends-send_at, Ends-conclude}

module _ {S : Type 0} (P : S → Type 0) (d : Duration) where
  in_range :
      (s : S) (b : Bool)
      → P s
      → EndPost (λ us s. (us ≡ micros d) × P s) (if b then ok (micros d) else err overflow) s
  in_range s true p = (refl, p)
  in_range s false p = tt

  -- `duration_as_micros32` gives the microseconds, or fails.
  Ends-duration : Ends P (duration_as_micros32 d) (λ us s. (us ≡ micros d) × P s)
  Ends-duration = record {
    at = λ s p. rw (duration_as_micros32_exact d s) (in_range s (ltb (micros d) (2 ^ 32 - 1)) p);
  }

module _ (H : Hardware) (C : Clock H) (S : Serial H) (step : ℕ) (positive : 0 < step) (fuel : ℕ)
    (big : 2 ^ 32 ≤ fuel) (total : ℕ) (finite : (h : History) → length (stream H h) ≤ total)
    (rounds : total < fuel) where
  abbrev pub Held : GpioMdb → Type 0
  Held m = (m.wait_step ≡ step) × IsFull m

  abbrev pub Paced : GpioMdb → Type 0
  Paced m = m.wait_step ≡ step

  abbrev pub IdleBy : ℕ → Port → Type 0
  IdleBy = ReadyBy H C Held

  -- After the first chunk, the clock is read and the chunk stays.
  Ends-chunk_clock :
      (deadline limit : ℕ) (base : List Word) (n : ℕ)
      → limit + C.jitter < 2 ^ 32
      → Ends
          (CameBy H C S deadline step limit base n)
          (hw (tick_since H 0))
          (λ t p. (t ≤ limit + C.jitter) × CameBy H C S deadline step (limit + C.jitter) base n p)
  unfolding tick_since wrapping_sub stream ◌>>=◌
  Ends-chunk_clock deadline limit base n small = record {
    at = λ p h.
        let (chunk, (some, (paced, by))) = h in
        let soon = C.now_bounded tick p.history in
        (omega (arith, C.tick_reads p.history), (chunk, (some, (paced, omega arith))));
  }

  -- The debug message reads the clock.
  Ends-debug :
      (E : Env) (start : ℕ) (bytes : List ℕ)
      → Ends
          (λ p. Unit)
          (if E.debug_enabled then hw (tick_since H start) >> pure bytes else pure bytes)
          Whatever
  unfolding tick_since ◌>>=◌
  Ends-debug E start bytes =
      Ends-if (λ p. Unit) Whatever E.debug_enabled _ _ (λ _. record { at = λ p h. tt })
        (λ _. record { at = λ p h. tt })

  -- The end of an exchange, once a block is there.
  Ends-finish :
      (E : Env) (limit small_us start end_byte : ℕ) (bytes : List ℕ)
      → small_us ≤ timeout_small_us
      → limit + timeout_small_us + step + 5 * C.jitter < 2 ^ 32
      → Ends
          (By C step limit)
          (conclude H fuel small_us end_byte bytes
            >> (if E.debug_enabled then hw (tick_since H start) >> pure bytes else pure bytes))
          Whatever
  Ends-finish E limit small_us start end_byte bytes short no_wrap =
      Ends-bind (By C step limit) (λ _ p. Unit) Whatever _ _
        (Ends-weaken (By C step limit) (ReadyBy H C Paced limit) Whatever (λ _ p. Unit) _
          (λ p h. (h.1, h.0)) (λ a p h. tt)
          (Ends-conclude H C Paced step positive (λ m h. h) fuel big limit small_us end_byte bytes
            short no_wrap))
        λ _. Ends-debug E start bytes

  -- Receiving, from the first chunk on.
  Ends-rest :
      (E : Env) (deadline limit us start : ℕ) (base : List Word) (n : ℕ) (response : List ℕ)
      → limit
          + timeout_receive_us
          + timeout_small_us
          + 2 * step
          + 7 * C.jitter
          + reads C.jitter (suc total)
        < 2 ^ 32
      → Ends
          (CameBy H C S deadline step limit base n)
          (do
            t ← hw (tick_since H 0)
            receive_deadline ← add_u32 t timeout_receive_us
            (end_byte, bytes) ← receive H fuel fuel receive_deadline n response
            conclude H fuel (min us timeout_small_us) end_byte bytes
            if E.debug_enabled then (do hw (tick_since H start); pure bytes) else pure bytes)
          Whatever
  Ends-rest E deadline limit us start base n response no_wrap =
      let soon = limit + C.jitter in
      let last = soon + timeout_receive_us + step + C.jitter in
      let here = CameBy H C S deadline step soon base n in
      Ends-bind (CameBy H C S deadline step limit base n) (λ t p. (t ≤ soon) × here p) Whatever _ _
        (Ends-chunk_clock deadline limit base n (omega arith))
        λ t. Ends_assuming here (t ≤ soon) Whatever _ λ now.
          Ends-bind here (λ d p. (d ≡ t + timeout_receive_us) × here p) Whatever _ _
            (Ends-add_u32 here t timeout_receive_us (omega arith))
            λ d. Ends_assuming here (d ≡ t + timeout_receive_us) Whatever _ λ sum.
              Ends-bind here (λ r. By C step (last + reads C.jitter (suc total))) Whatever _ _
                (Ends-weaken here
                  (Nearly H C S d step positive fuel (omega arith) total finite total last base n)
                  (λ r. By C step (last + reads C.jitter (suc total)))
                  (λ r. By C step (last + reads C.jitter (suc total))) _
                  (λ p h.
                    let (chunk, (some, (paced, by))) = h in
                    (chunk, (paced, omega arith), omega arith))
                  (λ a p h. h)
                  (receive-Ends H C S d step positive fuel (omega arith) total finite fuel total
                    last base n response rounds (omega arith) (omega arith)))
                λ r.
                  Ends-finish E (last + reads C.jitter (suc total)) (min us timeout_small_us) start
                    r.0 r.1 (omega arith) (omega arith)

  -- Where the exchange may be when it sends its request.
  abbrev send_limit : ℕ → ℕ
  send_limit limit = 2 * limit + 40 * timeout_char_us + step + 8 * C.jitter

  abbrev pub Fits : (limit : ℕ) → Duration → Type 0
  Fits limit timeout =
      2 * limit
        + micros timeout
        + 40 * timeout_char_us
        + timeout_receive_us
        + timeout_small_us
        + 4 * step
        + 18 * C.jitter
        + reads C.jitter (suc total)
      < 2 ^ 32

  -- Receiving, with the wait for the first chunk.
  Ends-answer :
      (E : Env) (deadline limit us start : ℕ) (response : List ℕ)
      → deadline + step + C.jitter ≤ limit
      → limit
          + timeout_receive_us
          + timeout_small_us
          + 2 * step
          + 9 * C.jitter
          + reads C.jitter (suc total)
        < 2 ^ 32
      → Ends
          (IdleBy limit)
          (do
            received_count ← wait_receive H fuel deadline
            t ← hw (tick_since H 0)
            receive_deadline ← add_u32 t timeout_receive_us
            (end_byte, bytes) ← receive H fuel fuel receive_deadline received_count response
            conclude H fuel (min us timeout_small_us) end_byte bytes
            if E.debug_enabled then (do hw (tick_since H start); pure bytes) else pure bytes)
          Whatever
  Ends-answer E deadline limit us start response room no_wrap = record {
    at = λ p h.
        let base = stream H p.history in
        let waiting : Port → Type 0 = λ q. (stream H q.history ≡ base) × IdleBy limit q in
        let came = CameBy H C S deadline step (limit + 2 * C.jitter) base in
        (Ends-bind waiting came Whatever _ _
            (record {
              at = λ q w.
                  let (same, (by, (paced, full))) = w in
                  wait-Came H C S deadline step positive fuel (omega arith) limit base q room
                    (omega arith) same full (paced, by);
            })
            (λ n.
              Ends-rest E deadline (limit + 2 * C.jitter) us start base n response
                (omega arith))).at
          p (refl, h);
  }

  pub Ends-exchange :
      (E : Env) (limit : ℕ) (w : Wave) (request response : List ℕ) (timeout : Duration)
      → length request < block_max_length
      → Fits limit timeout
      → Ends (IdleBy limit) (exchange H fuel E w request response timeout) Whatever
  unfolding exchange
  Ends-exchange E limit w request response timeout short fits =
      let soon = limit + C.jitter in
      let idle = IdleBy soon in
      Ends-bind (IdleBy limit) (λ us p. (us ≡ micros timeout) × IdleBy limit p) Whatever _ _
        (Ends-duration (IdleBy limit) timeout)
        λ us. Ends_assuming (IdleBy limit) (us ≡ micros timeout) Whatever _ λ exact.
          Ends-bind (IdleBy limit) (λ t p. (t ≤ soon) × idle p) Whatever _ _
            (Ends-clock H C Held limit (omega arith))
            λ t. Ends_assuming idle (t ≤ soon) Whatever _ λ now.
              Ends-bind idle (λ d p. (d ≡ t + us) × idle p) Whatever _ _
                (Ends-add_u32 idle t us (omega arith))
                λ d. Ends_assuming idle (d ≡ t + us) Whatever _ λ sum.
                  Ends-bind idle (λ m p. (m ≡ timeout_char_us * length request) × idle p) Whatever _
                    _ (Ends-mul_u32 idle timeout_char_us (length request) (omega arith))
                    λ m.
                      Ends_assuming idle (m ≡ timeout_char_us * length request) Whatever _
                        λ product.
                          Ends-bind idle (λ d' p. (d' ≡ t + m) × idle p) Whatever _ _
                            (Ends-add_u32 idle t m (omega arith))
                            λ d'. Ends_assuming idle (d' ≡ t + m) Whatever _ λ sum'.
                              Ends-bind idle (λ _. IdleBy (soon + d' + step + 6 * C.jitter))
                                Whatever _ _
                                (Ends-send_at H C Held step positive (λ m h. h.0) fuel big soon d' w
                                  "send request timeout" (omega arith))
                                λ _.
                                  Ends-weaken (IdleBy (soon + d' + step + 6 * C.jitter))
                                    (IdleBy (send_limit limit + us + step + C.jitter)) Whatever
                                    Whatever _ (λ p h. (omega arith, h.1)) (λ a p h. h)
                                    (Ends-answer E d (send_limit limit + us + step + C.jitter) us t
                                      response (omega arith) (omega arith))
