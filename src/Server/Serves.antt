-- ===== src/Server/Serves.antt =====
-- MDB_TX on an open driver, over a bus that works and with a device that answers in time.
use vender.Prelude.{ℕ, ◌^◌, ◌≤◌, ◌<◌, ◌≡◌, refl, Bool, false, some, List, [], arith, length}
use vender.Error.{to_string}
use vender.Exec.{Outcome, Exec, ok, err, panicked, out_of_fuel, continue, ◌>>=◌}
use vender.Exec.Gives.{Yields}
use vender.Exec.Ends.{EndPost, Whatever}
use vender.Exec.Keeps.{Post, Anything}
use vender.Ffi.{History, Hardware}
use vender.Ffi.Clock.{Clock}
use vender.Mdb.{GpioMdb, block_max_length}
use vender.Mdb.Driver.{Env}
use vender.Mdb.Live.Device.{Answering}
use vender.Mdb.Receive.{Port}
use vender.Mdb.Receive.Quiet.{AtPort}
use vender.Mdb.Receive.Waves.{SameBut, SameBut-Unread, without_buf}
use vender.Mdb.Receive.Stream.{IsFull}
use vender.Mdb.Receive.Words.{Word, Serial}
use vender.Mdb.Transfer.{tx}
use vender.Mdb.Transfer.Sized.{Keeps-tx_unread}
use vender.Mdb.Transfer.Judged.{judged, judged-Ends}
use vender.Mdb.Transfer.Gives.{Coming, IsPrompt, tx-Yields}
use vender.Server.{
  Request, Response, mdb_tx, ok_status, err_hardware, Server, Session, mdb_timeout, transmit,
  assert_status, exec,
}
use vender.Server.Contract.{assert_status-if_valid}
use vender.Server.Data.{fresh}

-- A server that has opened the driver `m`, and is no mock.
abbrev pub opened : (running : Bool) → GpioMdb → Server
opened running m = record { mdb = some m; mock = false; running = running }

-- The server and its driver are as they were, but for what the driver's buffer holds.
abbrev pub IsKept : (running : Bool) → GpioMdb → Session → Type 0
IsKept running m s =
    (m' : GpioMdb) × (s.server ≡ opened running m') × (without_buf m' ≡ without_buf m)

-- The response tells what the transfer has returned: OK and the bytes, or ERR_HARDWARE, the text of
-- the error and no bytes.
abbrev pub Tells : Outcome (List ℕ) → Response → Type 0
Tells (ok bytes) r = (r.status ≡ ok_status) × (r.data_bytes ≡ bytes)
Tells (err e) r = (r.status ≡ err_hardware) × (r.error ≡ to_string e) × (r.data_bytes ≡ [])
Tells panicked r = ⊥
Tells out_of_fuel r = ⊥

abbrev pub without_bytes : Outcome (List ℕ) → Outcome (Unit {0})
without_bytes (ok bytes) = ok tt
without_bytes (err e) = err e
without_bytes panicked = panicked
without_bytes out_of_fuel = out_of_fuel

-- What becomes of a session: `action` returns as the transfer has, the response tells it, and the
-- server is kept.
abbrev pub Answers :
    Exec Session (Unit {0}) → (running : Bool) → GpioMdb → History → Outcome (List ℕ) → Type 0
Answers action running m h r =
    (s : Session) × Yields action (fresh (opened running m) h) (without_bytes r) s
    × Tells r s.response
    × IsKept running m s

module _ (H : Hardware) (E : Env) (fuel : ℕ) (running : Bool) (m : GpioMdb) (h : History) where
  abbrev sent_on : List ℕ → Exec Port (List ℕ)
  sent_on bytes = tx H fuel E bytes [] block_max_length mdb_timeout

  abbrev begin : Port
  begin = record { mdb = m; history = h }

  abbrev Fixed : Port → Type 0
  Fixed = AtPort (SameBut (without_buf m)) Anything

  -- What `tx` returns is what the client gets.
  transmit-Answers :
      (request : List ℕ) (r : Outcome (List ℕ)) (q : Port)
      → Yields (sent_on request) begin r q
      → EndPost Whatever r q
      → Post (λ _. Fixed) Fixed r q
      → Answers (transmit H E fuel request) running m h r
  unfolding transmit ◌>>=◌
  transmit-Answers request (ok bytes) q sent ends kept =
      let s = transmit H E fuel request (fresh (opened running m) h) in
      (s.1, rw sent refl, rw sent (refl, refl), rw sent (q.mdb, refl, kept.1))
  transmit-Answers request (err e) q sent ends kept =
      let s = transmit H E fuel request (fresh (opened running m) h) in
      (s.1, rw sent refl, rw sent (refl, refl, refl), rw sent (q.mdb, refl, kept.1))
  transmit-Answers request panicked q sent ends kept = absurd ends
  transmit-Answers request out_of_fuel q sent ends kept = absurd ends

  asserted :
      (r : Outcome (List ℕ)) (s : Session)
      → Tells r s.response
      → continue (without_bytes r) (λ _. assert_status) s ≡ (without_bytes r, s)
  asserted (ok bytes) s (valid, carried) = assert_status-if_valid H E fuel s (λ e. absurd cc)
  asserted (err e) s tells = refl
  asserted panicked s tells = refl
  asserted out_of_fuel s tells = refl

  exec-Answers :
      (request : Request) (r : Outcome (List ℕ)) (q : Port)
      → request.command ≡ mdb_tx
      → Yields (sent_on request.arg_bytes) begin r q
      → EndPost Whatever r q
      → Answers (exec H E fuel request) running m h r
  unfolding exec ◌>>=◌
  exec-Answers request r q asked sent ends =
      let fixed = SameBut (without_buf m) in
      let kept : Post (λ _. Fixed) Fixed r q = rw sent at (
        (Keeps-tx_unread fixed (SameBut-Unread (without_buf m)) H fuel E request.arg_bytes []
            block_max_length mdb_timeout).at
          begin (tt, refl)) in
      let (s, transmitted, tells, is_kept) =
        transmit-Answers request.arg_bytes r q sent ends kept in
      (s, rw (asked, transmitted) (asserted r s tells), tells, is_kept)

-- MDB_TX answers with what the device's block is to give: OK and its bytes, where the end byte is
-- their checksum, or an ACK after no bytes; and otherwise ERR_HARDWARE and the text of the error,
-- without data. The error is that of a NAK after no bytes and a NAK, of an invalid response after
-- no bytes and any other end byte, and of a checksum after bytes with another end byte. The server
-- and its driver stay as they were but for what the buffer holds. That holds if the server has an
-- open driver and is no mock, and the bus and the device answer in time. The request has from 1 to
-- 39 bytes. The driver's buffer has its size, its pause is positive, and the waits have 2 ^ 32
-- rounds, which is no less than the words that are still to come. No call fails; the clock and the
-- reads are as documented. The words to come are the block of `bytes` and the end byte; every wave
-- is out `air` microseconds after it is sent, and from `arrival` microseconds after the latest send
-- on, each read with room for the buffer finds something while words are missing. With four times
-- the jitter, that is no later than the 300 milliseconds of the timeout and than the limit on
-- receiving. With twice the jitter, `air` is no more than the time at the call and that of one
-- character, nor than the time at the call and the limit of the closing ACK or NAK. Twice the time
-- at the call, the timeout and a bound on what the transfer takes besides stay below the wrap of
-- the tick.
pub exec-serves :
    (H : Hardware) (C : Clock H) (S : Serial H) (words : List Word) (air arrival : ℕ)
    (A : Answering H C words air arrival) (step : ℕ) (fuel : ℕ) (E : Env) (request : Request)
    (running : Bool) (m : GpioMdb) (h : History) (bytes : List ℕ) (end_byte : ℕ)
    (a : Coming H words [] bytes end_byte h)
    → 0 < step
    → 2 ^ 32 ≤ fuel
    → request.command ≡ mdb_tx
    → 0 < length request.arg_bytes
    → length request.arg_bytes < block_max_length
    → IsFull m
    → m.wait_step ≡ step
    → length a.rest ≤ fuel
    → IsPrompt C.jitter air arrival step (length a.rest) (C.now h) mdb_timeout
    → Answers (exec H E fuel request) running m h (judged end_byte bytes)
exec-serves H C S words air arrival A step fuel E request running m h bytes end_byte a positive big
      asked some_bytes short full paced few prompt =
    let (q, sent) =
      tx-Yields H C S words air arrival A step positive fuel big E request.arg_bytes [] bytes
        mdb_timeout block_max_length end_byte (record { mdb = m; history = h }) a some_bytes short
        (omega arith) full paced few prompt in
    exec-Answers H E fuel running m h request (judged end_byte bytes) q asked sent
      (judged-Ends end_byte bytes q)
