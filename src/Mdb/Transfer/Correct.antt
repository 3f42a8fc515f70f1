-- ===== src/Mdb/Transfer/Correct.antt =====
-- The response that `tx` returns, and the words that came in.
use vender.Prelude.{
  ℕ, ◌≡◌, refl, List, [], ◌∷◌, ◌++◌, arith, if◌then◌else◌, length, set, length-set,
}
use vender.Exec.{Exec, pure, ◌>>=◌, ◌>>◌}
use vender.Exec.Keeps.{
  Post, Triple, Triple-bind, Triple-if, Triple-weaken, Post-weaken, Triple-kept, Triple-and,
  Triple-with_drop_ok, Anything, Keeps, Keeps-bind, Keeps-assert, Keeps-gets,
}
use vender.Ffi.{wave_create, Hardware, invoke}
use vender.Pigpio.{Wave, from_id, check, new_serial, drop_wave, tick_since}
use vender.Pigpio.Quiet.{Quiet, quiet, Keeps-check, Keeps-invoke, Keeps-add_u32, Keeps-mul_u32}
use vender.Mdb.{GpioMdb, response_ack, checksum}
use vender.Mdb.Time.{Duration}
use vender.Mdb.Bus.{mdb_wave_create}
use vender.Mdb.Driver.{Env}
use vender.Mdb.Receive.{Port, hw}
use vender.Mdb.Receive.Quiet.{AtPort, Keeps-hw}
use vender.Mdb.Receive.Words.{Word, Serial, stream}
use vender.Mdb.Receive.Stream.{
  IsFull, Came, Came-Quiet, Chunk, Chunk-tick, Block, Triple-wait_receive, Triple-receive,
}
use vender.Mdb.Transfer.{conclude, exchange, tx}
use vender.Mdb.Transfer.Quiet.{Keeps-duration, Keeps-encode, Keeps-send, Keeps-tick, Keeps-conclude}

-- An end byte that closes a response: an ACK if there is no data, or else the checksum.
abbrev pub Closes : ℕ → List ℕ → Type 0
Closes end_byte [] = end_byte ≡ response_ack
Closes end_byte (b ∷ bs) = end_byte ≡ checksum (b ∷ bs)

module _ (H : Hardware) (fuel : ℕ) where
  conclude-Closes :
      (small_us end_byte : ℕ) (bytes : List ℕ) (p : Port)
      → Post
          (λ _ _. Closes end_byte bytes)
          Anything
          (conclude H fuel small_us end_byte bytes p).0
          (conclude H fuel small_us end_byte bytes p).1
  unfolding conclude ◌>>=◌
  conclude-Closes small_us end_byte [] p = ground arith
  conclude-Closes small_us end_byte (b ∷ bs) p = ground arith

-- Nothing is asked of the driver.
abbrev Unbound : GpioMdb → Type 0
Unbound m = Unit

module _ (H : Hardware) (S : Serial H) (base : List Word) where
  -- The words that came in since hold the block `bytes`, and its end byte closes it.
  abbrev pub Delivered : List ℕ → List ℕ → Port → Type 0
  Delivered response bytes p =
      (end_byte : ℕ) × Block H S base response (end_byte, bytes) p × Closes end_byte bytes

  -- A step that keeps the stream, whatever it is, keeps a block that came in.
  Block-kept :
      {A : Type 0} (response : List ℕ) (r : ℕ × List ℕ) (m : Exec Port A)
      → ((words : List Word) → Keeps (AtPort Unbound (Came H S words)) m)
      → Triple (Block H S base response r) m (λ _. Block H S base response r) Anything
  Block-kept response r m km = record {
    at = λ p h.
        let (ws, same, found) = h in
        Post-weaken Anything Anything (λ _. AtPort Unbound (Came H S (base ++ ws)))
          (λ _. Block H S base response r) (AtPort Unbound (Came H S (base ++ ws))) Anything
          (λ _ q k. (ws, k.0, found)) (λ q k. tt) _ _ ((km (base ++ ws)).at p (same, tt));
  }

  -- The block of the answer that is being checked.
  abbrev Settled : List ℕ → ℕ × List ℕ → Port → Type 0
  Settled response r p = Block H S base response r p × Closes r.0 r.1

  Triple-conclude :
      (fuel small_us : ℕ) (response : List ℕ) (r : ℕ × List ℕ)
      → Triple
          (Block H S base response r)
          (conclude H fuel small_us r.0 r.1)
          (λ _. Settled response r)
          Anything
  Triple-conclude fuel small_us response r =
      Triple-weaken (Block H S base response r) (λ p. Block H S base response r p × Anything p)
        (λ _. Settled response r) (λ _. Settled response r) Anything Anything _ (λ p h. (h, tt))
        (λ a p h. h) (λ p h. h)
        (Triple-and (Block H S base response r) Anything _ _ _
          (Block-kept response r _
            (λ words. Keeps-conclude Unbound H _ (Came-Quiet H S words) fuel small_us r.0 r.1))
          (record { at = λ p h. conclude-Closes H fuel small_us r.0 r.1 p }))

  Settled-tick :
      (fuel start : ℕ) (response : List ℕ) (r : ℕ × List ℕ)
      → Triple (Settled response r) (hw (tick_since H start)) (λ _. Settled response r) Anything
  Settled-tick fuel start response r = record {
    at = λ p h.
        Post-weaken Anything Anything (λ _. Block H S base response r) (λ _. Settled response r)
          Anything Anything (λ _ q k. (k, h.1)) (λ q k. tt) _ _
          ((Block-kept response r _
              (λ words. Keeps-tick Unbound H _ (Came-Quiet H S words) fuel start)).at
            p h.0);
  }

  Triple-exchange :
      (fuel : ℕ) (E : Env) (w : Wave) (request response : List ℕ) (timeout : Duration)
      → Triple
          (AtPort IsFull (Came H S base))
          (exchange H fuel E w request response timeout)
          (Delivered response)
          Anything
  unfolding exchange
  Triple-exchange fuel E w request response timeout =
      step _ _ (Keeps-duration _ timeout) λ timeout_us.
        step _ _ (Keeps-tick IsFull H _ q fuel 0) λ io_start_us.
          step _ _ (Keeps-add_u32 _ io_start_us timeout_us) λ receive_wait_deadline_us.
            step _ _ (Keeps-mul_u32 _ _ (length request)) λ send_us.
              step _ _ (Keeps-add_u32 _ io_start_us send_us) λ send_deadline_us.
                step _ _ (Keeps-send IsFull H _ q fuel w send_deadline_us _) λ _.
                  Triple-bind idle (Chunk H S base) (Delivered response) Anything _ _
                    (Triple-wait_receive H S base fuel _)
                    λ received_count.
                      Triple-bind (Chunk H S base received_count)
                        (λ _. Chunk H S base received_count) (Delivered response) Anything _ _
                        (Chunk-tick H S base received_count 0)
                        λ t.
                          Triple-bind (Chunk H S base received_count)
                            (λ _. Chunk H S base received_count) (Delivered response) Anything _ _
                            (Triple-kept _ _ (Keeps-add_u32 _ t _))
                            λ receive_deadline.
                              Triple-bind (Chunk H S base received_count) (Block H S base response)
                                (Delivered response) Anything _ _
                                (Triple-receive H S fuel fuel receive_deadline base received_count
                                  response)
                                λ r. finish _ io_start_us r
    where
      finish :
          (small_us start : ℕ) (r : ℕ × List ℕ)
          → Triple
              (Block H S base response r)
              (conclude H fuel small_us r.0 r.1
                >> (if E.debug_enabled then hw (tick_since H start) >> pure r.1 else pure r.1))
              (Delivered response)
              Anything
      finish small_us start r =
          Triple-bind (Block H S base response r) (λ _. Settled response r) (Delivered response)
            Anything _ _ (Triple-conclude fuel small_us response r)
            λ _.
              Triple-if _ _ _ E.debug_enabled _ _
                (λ _.
                  Triple-bind (Settled response r) (λ _. Settled response r) (Delivered response)
                    Anything _ _ (Settled-tick fuel start response r)
                    λ _. record { at = λ p h. (r.0, h.0, h.1) })
                (λ _. record { at = λ p h. (r.0, h.0, h.1) })

      idle : Port → Type 0
      idle = AtPort IsFull (Came H S base)

      q : Quiet (Came H S base)
      q = Came-Quiet H S base

      step :
          {A : Type 0} (m : Exec Port A) (f : A → Exec Port (List ℕ))
          → Keeps idle m
          → ((a : A) → Triple idle (f a) (Delivered response) Anything)
          → Triple idle (m >>= f) (Delivered response) Anything
      step m f km kf =
          Triple-bind idle (λ _. idle) (Delivered response) Anything m f (Triple-kept _ _ km) kf

module _ (H : Hardware) (S : Serial H) (base : List Word) where
  Keeps-create : Keeps (Came H S base) (do wid ← check (← invoke H wave_create); pure (from_id wid))
  unfolding stream check from_id ◌>>=◌
  Keeps-create = record { at = λ h p. ground arith }

  -- The wave of the request is made without a look at the serial input.
  Keeps-wave : (pin : ℕ) (bytes : List ℕ) → Keeps (Came H S base) (mdb_wave_create H pin bytes)
  unfolding mdb_wave_create new_serial
  Keeps-wave pin bytes =
      search (Keeps-bind, Keeps-create, Keeps-invoke, Came-Quiet, Keeps-check, quiet)

  drop_wave-Delivered :
      (w : Wave) (response bytes : List ℕ) (p : Port)
      → Delivered H S base response bytes p
      → Delivered H S base response bytes (hw (drop_wave H w) p).1
  unfolding drop_wave stream
  drop_wave-Delivered w response bytes p h = h

Triple-tx :
    (H : Hardware) (S : Serial H) (base : List Word) (fuel : ℕ) (E : Env)
    (request response : List ℕ) (capacity : ℕ) (timeout : Duration)
    → Triple
        (AtPort IsFull (Came H S base))
        (tx H fuel E request response capacity timeout)
        (Delivered H S base response)
        Anything
unfolding tx
Triple-tx H S base fuel E request response capacity timeout = step _ _ (Keeps-assert _ _) λ _.
    step _ _ (Keeps-assert _ _) λ _. step _ _ (Keeps-assert _ _) λ _.
      step _ _ (Keeps-encode _ _ stable request) λ bytes. step _ _ (Keeps-gets _ _) λ pin.
        step _ _ (Keeps-hw IsFull (Came H S base) _ (Keeps-wave H S base pin bytes)) λ w.
          Triple-with_drop_ok idle (Delivered H S base response) _ _
            (λ a p h. drop_wave-Delivered H S base w response a p h)
            (Triple-exchange H S base fuel E w request response timeout)
  where
    idle : Port → Type 0
    idle = AtPort IsFull (Came H S base)

    stable : (m : GpioMdb) (i b : ℕ) → IsFull m → IsFull (record m { buf = set m.buf i b })
    stable m i b h = omega (arith, length-set m.buf i b, h)

    step :
        {A : Type 0} (m : Exec Port A) (f : A → Exec Port (List ℕ))
        → Keeps idle m
        → ((a : A) → Triple idle (f a) (Delivered H S base response) Anything)
        → Triple idle (m >>= f) (Delivered H S base response) Anything
    step m f km kf =
        Triple-bind idle (λ _. idle) (Delivered H S base response) Anything m f (Triple-kept _ _ km)
          kf

-- Where the C library's reads give whole words, every response that `tx` returns is a block that
-- came in during the call, with the bytes that `response` held before it: some words come in,
-- the bytes of those before the first one with the ninth bit make up the response, and the byte
-- of that word closes it. It is the checksum of the response, or an ACK if the response is empty.
-- Nothing is claimed where `tx` returns an error or panics.
pub tx-Delivered :
    (H : Hardware) (S : Serial H) (fuel : ℕ) (E : Env) (request response : List ℕ) (capacity : ℕ)
    (timeout : Duration) (p : Port)
    → IsFull p.mdb
    → let (r, q) = tx H fuel E request response capacity timeout p in
      Post (Delivered H S (stream H p.history) response) Anything r q
tx-Delivered H S fuel E request response capacity timeout p full =
    (Triple-tx H S (stream H p.history) fuel E request response capacity timeout).at p (refl, full)
