-- ===== src/Mdb/Receive.antt =====
-- The buffer, `wait_receive` and the loop `'receive` of `GpioMdb::tx`.
pub mod Quiet
pub mod Waves
pub mod Words
pub mod Wait
pub mod Total
pub mod Stream
use vender.Prelude.{
  ℕ, zero, suc, ◌+◌, ◌*◌, ◌/◌, Option, none, some, List, [], ◌∷◌, ◌++◌, ltb, ◌==◌, if◌then◌else◌,
  length, get_elem?, set, drop,
}
use vender.Error.{msg}
use vender.Exec.{Outcome, Exec, ok, pure, fail, panic, stuck, gets, ◌>>=◌, ◌>>◌}
use vender.Ffi.{serial_read, delay, History, Hardware, invoke, invoke_word}
use vender.Pigpio.{check, tick_since}
use vender.Mdb.{GpioMdb}

-- The driver that a method works on, and the calls so far.
pub record Port : Type 0 where
  pub mdb : GpioMdb
  pub history : History

-- A call that does not touch the driver.
abbrev pub hw : {A : Type 0} → Exec History A → Exec Port A
hw m p = let (r, h) = m p.history in (r, record p { history = h })

abbrev pub with_buf : Port → List ℕ → Port
with_buf p bytes = record { mdb = record (p.mdb) { buf = bytes }; history = p.history }

-- `self.buf[i] = b`, with its bounds check.
unfoldable pub put : (i b : ℕ) → Exec Port (Unit {0})
put i b p = if ltb i (length p.mdb.buf) then (ok tt, with_buf p (set p.mdb.buf i b)) else panic p

-- `self.buf[i]`, with its bounds check.
unfoldable pub get : ℕ → Exec Port ℕ
get i p = elim (get_elem? p.mdb.buf i) [ none ↦ panic p | some b ↦ (ok b, p) ]

-- The bytes that the C library stores lie over the start of the buffer.
unfoldable pub overlay : List ℕ → List ℕ → List ℕ
overlay bytes [] = []
overlay [] buf = buf
overlay (b ∷ bytes) (_ ∷ buf) = b ∷ overlay bytes buf

-- How a pass over the received words ended: at a word with the ninth bit set, or at the end.
pub data Scan : Type 0 where
  ended : (end_byte : ℕ) → (response : List ℕ) → Scan
  more : (response : List ℕ) → Scan

-- `for i in (0..received_count).step_by(2)`, with the rounds that are left.
unfoldable pub scan_words : (rounds i : ℕ) → (response : List ℕ) → Exec Port Scan
scan_words zero i response = pure (more response)
scan_words (suc rounds) i response = do
  bvalue ← get i
  bflag ← get (i + 1)
  if bflag == 1
      then pure (ended bvalue response)
      else scan_words rounds (i + 2) (response ++ (bvalue ∷ []))

-- `break 'receive` with the end byte, or another round after the bytes so far.
abbrev pub resume : Scan → (List ℕ → Exec Port (ℕ × List ℕ)) → Exec Port (ℕ × List ℕ)
resume (ended end_byte bytes) again = pure (end_byte, bytes)
resume (more bytes) again = again bytes

module _ (H : Hardware) where
  -- `gpioSerialRead` into `self.buf`.
  unfoldable pub read_serial : Exec Port ℕ
  unfolding overlay
  read_serial = do
    size ← gets λ p. length p.mdb.buf
    pin ← gets λ p. p.mdb.rx_pin
    rc ← hw (invoke H (serial_read pin size))
    (λ p. (ok tt, with_buf p (overlay (H.stored p.history) p.mdb.buf)))
    check rc

  unfoldable pub wait_receive : (fuel deadline : ℕ) → Exec Port ℕ
  wait_receive zero deadline = stuck
  wait_receive (suc fuel) deadline = do
    n ← read_serial
    if ltb 0 n then pure n else (do
      t ← hw (tick_since H 0)
      if ltb deadline t then fail (msg "recv timeout") else (do
        step ← gets λ p. p.mdb.wait_step
        hw (invoke_word H (delay step))
        wait_receive fuel deadline))

  -- The loop `'receive`: the end byte, and the bytes before it.
  unfoldable pub receive :
      (rounds fuel deadline count : ℕ) → (response : List ℕ) → Exec Port (ℕ × List ℕ)
  receive zero fuel deadline count response = stuck
  receive (suc rounds) fuel deadline count response = do
    s ← scan_words ((count + 1) / 2) 0 response
    resume s λ bytes. (do n ← wait_receive fuel deadline; receive rounds fuel deadline n bytes)
