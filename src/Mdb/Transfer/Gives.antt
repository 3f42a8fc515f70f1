-- ===== src/Mdb/Transfer/Gives.antt =====
-- What `tx` returns on a bus that works, with a device that answers in time.
use vender.Prelude.{
  ℕ, ◌+◌, ◌*◌, ◌^◌, ◌≤◌, ◌<◌, ◌≡◌, refl, ap, List, ◌∷◌, ◌++◌, arith, lt→ltb, min, length,
}
use vender.Exec.{gets, with_drop, ◌>>=◌}
use vender.Exec.Gives.{Yields, Gives-bind, Yields-with_drop, Gives-assert}
use vender.Ffi.{wave_add_new, wave_add_serial, wave_create, History, Hardware}
use vender.Ffi.Clock.{Clock}
use vender.Pigpio.{drop_wave}
use vender.Mdb.{
  block_max_length, baud, data_bits, stop_bits, timeout_small_us, timeout_char_us,
  timeout_receive_us,
}
use vender.Mdb.Bus.{mdb_wave_create}
use vender.Mdb.Time.{Duration, micros}
use vender.Mdb.Driver.{Env}
use vender.Mdb.Live.Device.{Answering}
use vender.Mdb.Live.Steps.{mdb_wave_create-Gives}
use vender.Mdb.Receive.{Port, ended, with_buf, hw}
use vender.Mdb.Receive.Stream.{IsFull}
use vender.Mdb.Receive.Total.{reads}
use vender.Mdb.Receive.Words.{Word, Serial, stream, scan}
use vender.Mdb.Transfer.{exchange, tx}
use vender.Mdb.Transfer.Correct.{Closes}
use vender.Mdb.Transfer.Frame.{encode_frame}
use vender.Mdb.Transfer.Limits.{not-is_empty}
use vender.Mdb.Transfer.Judged.{judged}
use vender.Mdb.Transfer.Succeeds.{exchange-Yields}

-- The words that are still to come are the block `bytes`, after what `response` holds, and then
-- the byte `end_byte` with the ninth bit.
pub record Coming (H : Hardware) (words : List Word) (response bytes : List ℕ) (end_byte : ℕ)
    (h : History) : Type 0 where
  pub rest : List Word
  pub all : stream H h ++ rest ≡ words
  pub found : scan rest response ≡ ended end_byte bytes

-- The same, of an end byte that closes the block.
pub record Answer (H : Hardware) (words : List Word) (response bytes : List ℕ) (h : History)
    : Type 0 where
  pub end_byte : ℕ
  pub coming : Coming H words response bytes end_byte h
  pub closes : Closes end_byte bytes

-- The waits of a transfer that begins at `now` are long enough, and it ends before the tick wraps:
-- `total` words come in, all of them `arrival` microseconds after the request is sent.
pub record IsPrompt (jitter air arrival step total now : ℕ) (timeout : Duration) : Type 0 where
  pub room :
      2 * now
        + micros timeout
        + 40 * timeout_char_us
        + timeout_receive_us
        + timeout_small_us
        + 4 * step
        + 28 * jitter
        + reads jitter total
      < 2 ^ 32
  pub out : air + 2 * jitter ≤ now + timeout_char_us
  pub out_ack : air + 2 * jitter ≤ now + min (micros timeout) timeout_small_us
  pub answered : arrival + 4 * jitter ≤ micros timeout
  pub received : arrival + 4 * jitter ≤ timeout_receive_us

-- The conditions hold at a time between two at which they hold.
pub IsPrompt-between :
    (jitter air arrival step total first last now : ℕ) (timeout : Duration)
    → IsPrompt jitter air arrival step total first timeout
    → IsPrompt jitter air arrival step total last timeout
    → first ≤ now
    → now ≤ last
    → IsPrompt jitter air arrival step total now timeout
IsPrompt-between jitter air arrival step total first last now timeout early late since until =
    record {
      room = omega (arith, late.room);
      out = omega (arith, early.out);
      out_ack = omega (arith, early.out_ack);
      answered = early.answered;
      received = early.received;
    }

module _ (H : Hardware) (C : Clock H) (S : Serial H) (words : List Word) (air arrival : ℕ)
    (A : Answering H C words air arrival) (step : ℕ) (positive : 0 < step) (fuel : ℕ)
    (big : 2 ^ 32 ≤ fuel) (E : Env) (request response bytes : List ℕ) (timeout : Duration) where
  -- The wave of the request is made, used and freed.
  wave-Yields :
      (frame : List ℕ) (end_byte : ℕ) (p : Port)
      (a : Coming H words response bytes end_byte p.history)
      → 0 < length request
      → length request < block_max_length
      → IsFull p.mdb
      → p.mdb.wait_step ≡ step
      → length a.rest ≤ fuel
      → IsPrompt C.jitter air arrival step (length a.rest) (C.now p.history) timeout
      → (q : Port) × Yields
          (do
            pin ← gets λ p. p.mdb.tx_pin
            wave ← hw (mdb_wave_create H pin frame)
            with_drop (hw (drop_wave H wave)) (exchange H fuel E wave request response timeout))
          p
          (judged end_byte bytes)
          q
  unfolding stream
  wave-Yields frame end_byte p a some_bytes short full paced few prompt =
      let h = p.history in
      let pin = p.mdb.tx_pin in
      let add = wave_add_serial pin baud data_bits stop_bits 0 frame in
      let h₁ = wave_add_new ∷ h in
      let h₂ = add ∷ h₁ in
      let p' : Port = record p { history = wave_create ∷ h₂ } in
      let (w, made) = mdb_wave_create-Gives H A.sound pin frame h in
      let later₁ = C.now_later wave_add_new h in
      let later₂ = C.now_later add h₁ in
      let later₃ = C.now_later wave_create h₂ in
      let soon₁ = C.now_bounded wave_add_new h in
      let soon₂ = C.now_bounded add h₁ in
      let soon₃ = C.now_bounded wave_create h₂ in
      let (q, done) =
        exchange-Yields H C S words air arrival A step positive fuel big E w request response
          timeout a.rest end_byte bytes p' some_bytes short full paced a.all a.found few
          (omega (arith, prompt.room)) (omega (arith, prompt.out_ack)) (omega (arith, prompt.out))
          prompt.answered prompt.received in
      let (q', freed) =
        Yields-with_drop (hw (drop_wave H w)) (exchange H fuel E w request response timeout) done in
      (
        q',
        Gives-bind _ _ refl
            (Gives-bind _ _ (ap (λ s. (s.0, record p { history = s.1 })) made) freed),
      )

  -- `tx` judges the block that the device sends: it returns `judged` of the bytes and of the end
  -- byte. That is the bytes, if the end byte is their checksum, or, for no bytes, an ACK; it is the
  -- error of a NAK for no bytes and a NAK; and it is the error of an invalid response for no bytes
  -- and any other end byte, and of a checksum for bytes with another end byte. That holds if no
  -- call fails, the clock and the reads are as documented, and the bus and the device answer in
  -- time. The request has from 1 to 39 bytes, and the vector has room for 40. The driver's buffer
  -- has its size, its pause is positive, and the waits have 2 ^ 32 rounds, which is no less than
  -- the words that are still to come. Those words are the block of `bytes`, after what `response`
  -- holds, and the end byte. Every wave is out `air` microseconds after it is sent. From `arrival`
  -- microseconds after the latest send on, each read with room for the buffer finds something while
  -- words are missing. With four times the jitter, that is no later than the timeout and than the
  -- limit on receiving. With twice the jitter, `air` is no more than the time at the call and that
  -- of one character, nor than the time at the call and the limit of the closing ACK or NAK. Twice
  -- the time at the call, the timeout and a bound on what the transfer takes besides stay below the
  -- wrap of the tick.
  pub tx-Yields :
      (capacity end_byte : ℕ) (p : Port) (a : Coming H words response bytes end_byte p.history)
      → 0 < length request
      → length request < block_max_length
      → block_max_length ≤ capacity
      → IsFull p.mdb
      → p.mdb.wait_step ≡ step
      → length a.rest ≤ fuel
      → IsPrompt C.jitter air arrival step (length a.rest) (C.now p.history) timeout
      → (q : Port) × Yields
          (tx H fuel E request response capacity timeout)
          p
          (judged end_byte bytes)
          q
  unfolding tx
  tx-Yields capacity end_byte p a some_bytes short room full paced few prompt =
      let (frame, buf, encoded, size, _, _) = encode_frame request p full short in
      let (q, done) =
        wave-Yields frame end_byte (with_buf p buf) a some_bytes short size paced few prompt in
      (
        q,
        Gives-bind _ _ (Gives-assert _ p (not-is_empty request some_bytes)) (
            Gives-bind _ _ (Gives-assert _ p (lt→ltb (length request) block_max_length short)) (
              Gives-bind _ _ (Gives-assert _ p (ground (arith, room)))
                (Gives-bind _ _ encoded done))),
      )
