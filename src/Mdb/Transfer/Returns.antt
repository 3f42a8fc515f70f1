-- ===== src/Mdb/Transfer/Returns.antt =====
-- `tx` as a whole: it returns a response or an error.
use vender.Prelude.{ℕ, ◌+◌, ◌*◌, ◌^◌, ◌≤◌, ◌<◌, ◌≡◌, List, Bool, true, false, arith, lt→ltb, length}
use vender.Exec.{Outcome, gets, assert, with_drop, ◌>>=◌}
use vender.Exec.Ends.{EndPost, Ends, Ends-bind, Whatever, Ends-with_drop, Ends-gets}
use vender.Ffi.{History, Hardware}
use vender.Ffi.Clock.{Clock}
use vender.Pigpio.{drop_wave}
use vender.Mdb.{GpioMdb, block_max_length}
use vender.Mdb.Time.{Duration}
use vender.Mdb.Bus.{mdb_wave_create}
use vender.Mdb.Bus.Total.{ClockBy, Ends-create}
use vender.Mdb.Driver.{Env}
use vender.Mdb.Receive.{Port, hw}
use vender.Mdb.Receive.Words.{Serial, stream}
use vender.Mdb.Transfer.{encode, exchange, tx}
use vender.Mdb.Transfer.Frame.{encode_frame}
use vender.Mdb.Transfer.Limits.{not-is_empty}
use vender.Mdb.Transfer.Total.{Ends-hw}
use vender.Mdb.Transfer.Exchange.{Held, IdleBy, Fits, Ends-exchange}

-- A response or an error, not a panic and not a loop without an end.
abbrev pub Returns : Outcome (List ℕ) → Port → Type 0
Returns = EndPost Whatever

module _ (H : Hardware) (C : Clock H) (S : Serial H) (step : ℕ) (positive : 0 < step) (fuel : ℕ)
    (big : 2 ^ 32 ≤ fuel) (total : ℕ) (finite : (h : History) → length (stream H h) ≤ total)
    (rounds : total < fuel) where
  abbrev pub Ready : GpioMdb → Type 0
  Ready = Held H C S step positive fuel big total finite rounds

  abbrev Waiting : ℕ → Port → Type 0
  Waiting = IdleBy H C S step positive fuel big total finite rounds

  -- The time at the call leaves room for the transfer, below the wrap of the tick.
  abbrev pub HasRoom : (limit : ℕ) → Duration → Type 0
  HasRoom = Fits H C S step positive fuel big total finite rounds

  Ends-assert : (P : Port → Type 0) (b : Bool) → b ≡ true → Ends P (assert b) (λ _. P)
  Ends-assert P true e = record { at = λ p h. h }
  Ends-assert P false e = absurd cc

  -- The words of the request change only the buffer, and not its size.
  Ends-encode :
      (limit : ℕ) (request : List ℕ)
      → length request < block_max_length
      → Ends (Waiting limit) (encode request) (λ _. Waiting limit)
  Ends-encode limit request short = record {
    at = λ p h.
        let (by, (paced, full)) = h in
        let (bytes, buf, encoded, size, _, _) = encode_frame request p full short in
        rw encoded (by, (paced, size));
  }

  Ends-wave :
      (E : Env) (limit : ℕ) (request response : List ℕ) (timeout : Duration) (bytes : List ℕ)
      → length request < block_max_length
      → HasRoom (limit + 3 * C.jitter) timeout
      → Ends
          (Waiting limit)
          (do
            pin ← gets λ p. p.mdb.tx_pin
            wave ← hw (mdb_wave_create H pin bytes)
            with_drop (hw (drop_wave H wave)) (exchange H fuel E wave request response timeout))
          Whatever
  Ends-wave E limit request response timeout bytes short fits =
      Ends-bind (Waiting limit) (λ _. Waiting limit) Whatever _ _ (Ends-gets (Waiting limit) _)
        λ pin.
          Ends-bind (Waiting limit) (λ _. Waiting (limit + 3 * C.jitter)) Whatever _ _
            (Ends-hw H C Ready (ClockBy H C limit) (λ _. ClockBy H C (limit + 3 * C.jitter)) _
              (Ends-create H C limit pin bytes))
            λ wave. Ends-with_drop (Waiting (limit + 3 * C.jitter)) _ _ (
              Ends-exchange H C S step positive fuel big total finite rounds E
                (limit + 3 * C.jitter) wave request response timeout short fits)

  Ends-tx :
      (E : Env) (limit : ℕ) (request response : List ℕ) (capacity : ℕ) (timeout : Duration)
      → 0 < length request
      → length request < block_max_length
      → block_max_length ≤ capacity
      → HasRoom (limit + 3 * C.jitter) timeout
      → Ends (Waiting limit) (tx H fuel E request response capacity timeout) Whatever
  unfolding tx
  Ends-tx E limit request response capacity timeout some short room fits =
      let idle = Waiting limit in
      Ends-bind idle (λ _. idle) Whatever _ _ (Ends-assert idle _ (not-is_empty request some))
        λ _.
          Ends-bind idle (λ _. idle) Whatever _ _
            (Ends-assert idle _ (lt→ltb (length request) block_max_length short))
            λ _.
              Ends-bind idle (λ _. idle) Whatever _ _ (Ends-assert idle _ (ground (arith, room)))
                λ _.
                  Ends-bind idle (λ _. idle) Whatever _ _ (Ends-encode limit request short)
                    λ bytes. Ends-wave E limit request response timeout bytes short fits

  -- `tx` returns a response or an error, and neither panics nor loops for ever: if the request has
  -- from 1 to 39 bytes and the vector has room for 40, the driver's buffer has its size and its
  -- pause is positive, the clock and the reads are as documented, the device sends at most `total`
  -- words, the waits have 2 ^ 32 rounds and more than `total`, and `HasRoom` holds of the time at
  -- the call: twice that time, the timeout and the bound on what the transfer may take besides stay
  -- below the wrap of the tick.
  pub tx-Returns :
      (E : Env) (request response : List ℕ) (capacity : ℕ) (timeout : Duration) (p : Port)
      → 0 < length request
      → length request < block_max_length
      → block_max_length ≤ capacity
      → Ready p.mdb
      → HasRoom (C.now p.history + 3 * C.jitter) timeout
      → let (r, q) = tx H fuel E request response capacity timeout p in Returns r q
  tx-Returns E request response capacity timeout p some short room held fits =
      (Ends-tx E (C.now p.history) request response capacity timeout some short room fits).at p
        (omega arith, held)
