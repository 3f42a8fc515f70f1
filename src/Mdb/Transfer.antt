-- ===== src/Mdb/Transfer.antt =====
-- `GpioMdb::tx`: one request over the bus, the response to it, and the closing ACK or NAK.
pub mod Quiet
pub mod Sized
pub mod Order
pub mod Sends
pub mod Waves
pub mod Frame
pub mod Correct
pub mod Limits
pub mod Answers
pub mod Total
pub mod Exchange
pub mod Returns
pub mod Judged
pub mod Ending
pub mod Succeeds
pub mod Gives
use vender.Prelude.{
  ℕ, zero, suc, ◌+◌, ◌-◌, ◌*◌, String, Bool, true, false, not, List, [], ◌∷◌, min, ltb, leb, ◌==◌,
  if◌then◌else◌, length, take,
}
use vender.Error.{msg, mdb_nak, mdb_invalid_response, mdb_checksum}
use vender.Exec.{Exec, ok, pure, fail, panic, gets, assert, with_drop, ◌>>=◌, ◌>>◌}
use vender.Ffi.{History, Hardware}
use vender.Pigpio.{Wave, add_u32, mul_u32, tick_since, drop_wave}
use vender.Mdb.{
  GpioMdb, block_max_length, word_size, timeout_small_us, timeout_char_us, timeout_receive_us,
  response_ack, response_nak, checksum,
}
use vender.Mdb.Time.{Duration, duration_as_micros32}
use vender.Mdb.Bus.{mdb_wave_create, mdb_wave_send_wait}
use vender.Mdb.Driver.{Env}
use vender.Mdb.Receive.{Port, hw, put, wait_receive, receive}

abbrev pub is_empty : List ℕ → Bool
is_empty [] = true
is_empty (_ ∷ _) = false

-- `for (i, b) in request.iter().enumerate()`
unfoldable pub fill : (i : ℕ) → (request : List ℕ) → Exec Port (Unit {0})
fill i [] = pure tt
fill i (b ∷ bs) = put (i * word_size) b >> fill (i + 1) bs

-- `&self.buf[..n]`, with its bounds check.
unfoldable pub slice_to : ℕ → Exec Port (List ℕ)
slice_to n p = if leb n (length p.mdb.buf) then (ok (take n p.mdb.buf), p) else panic p

-- The words of the request, in the form that the wave is made from.
unfoldable pub encode : List ℕ → Exec Port (List ℕ)
unfolding fill slice_to put
encode request = do
  put (word_size - 1) 1
  fill 0 request
  put (length request * word_size) (checksum request)
  slice_to (length request * word_size + word_size)

-- An answer of one word: ACK, NAK or something else.
unfoldable pub verdict : ℕ → Exec Port (Unit {0})
verdict end_byte =
    if end_byte == response_ack
    then pure tt
    else if end_byte == response_nak
    then fail mdb_nak
    else fail (mdb_invalid_response end_byte)

module _ (H : Hardware) (fuel : ℕ) where
  -- `mdb_wave_send_wait` with the driver's step.
  unfoldable pub send_wait : Wave → (deadline : ℕ) → String → Exec Port (Unit {0})
  send_wait wave deadline e = do
    step ← gets λ p. p.mdb.wait_step
    hw (mdb_wave_send_wait H fuel wave deadline step e)

  -- The end of `tx`: the check of what was received, and the answer to it.
  unfoldable pub conclude : (small_us end_byte : ℕ) → (response : List ℕ) → Exec Port (Unit {0})
  unfolding verdict
  conclude small_us end_byte [] = verdict end_byte
  conclude small_us end_byte (b ∷ bs) = do
    t ← hw (tick_since H 0)
    deadline_us ← add_u32 t small_us
    nak ← gets λ p. p.mdb.wave_nak
    ack ← gets λ p. p.mdb.wave_ack
    if end_byte == checksum (b ∷ bs) then send_wait ack deadline_us "send ACK timeout" else (do
      send_wait nak deadline_us "send NAK timeout"
      fail (mdb_checksum (checksum (b ∷ bs)) end_byte (b ∷ bs)))

  -- What `tx` does while it holds the wave of the request.
  unfoldable pub exchange :
      Env → Wave → (request response : List ℕ) → (timeout : Duration) → Exec Port (List ℕ)
  exchange E wave request response timeout = do
    timeout_us ← duration_as_micros32 timeout
    io_start_us ← hw (tick_since H 0)
    receive_wait_deadline_us ← add_u32 io_start_us timeout_us
    send_us ← mul_u32 timeout_char_us (length request)
    send_deadline_us ← add_u32 io_start_us send_us
    send_wait wave send_deadline_us "send request timeout"
    received_count ← wait_receive H fuel receive_wait_deadline_us
    t ← hw (tick_since H 0)
    receive_deadline ← add_u32 t timeout_receive_us
    (end_byte, bytes) ← receive H fuel fuel receive_deadline received_count response
    conclude (min timeout_us timeout_small_us) end_byte bytes
    if E.debug_enabled then (do hw (tick_since H io_start_us); pure bytes) else pure bytes

  -- `response` and `capacity` are what the vector holds and has room for; the vector that the
  -- caller finds after a success is the result.
  unfoldable pub tx :
      Env → (request response : List ℕ) → (capacity : ℕ) → (timeout : Duration) → Exec Port (List ℕ)
  tx E request response capacity timeout = do
    assert (not (is_empty request))
    assert (ltb (length request) block_max_length)
    assert (leb block_max_length capacity)
    bytes ← encode request
    pin ← gets λ p. p.mdb.tx_pin
    wave ← hw (mdb_wave_create H pin bytes)
    with_drop (hw (drop_wave H wave)) (exchange E wave request response timeout)
