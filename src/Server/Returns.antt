-- ===== src/Server/Returns.antt =====
-- `Server::exec` returns, and does not panic.
use vender.Prelude.{
  ℕ, ◌+◌, ◌*◌, ◌^◌, ◌≤◌, ◌<◌, ◌≡◌, refl, Option, none, some, List, [], ◌∷◌, arith, length,
}
use vender.Exec.{Outcome, ◌>>=◌, ◌>>◌}
use vender.Exec.Ends.{EndPost, Whatever}
use vender.Ffi.{History, Hardware}
use vender.Ffi.Clock.{Clock}
use vender.Mdb.{GpioMdb, block_max_length}
use vender.Mdb.Time.{from_millis}
use vender.Mdb.Driver.{Env}
use vender.Mdb.Driver.Safe.{HasStep, IsSafe-bus_reset, IsSafe-new}
use vender.Mdb.Receive.Words.{Serial, stream}
use vender.Mdb.Transfer.{tx}
use vender.Mdb.Transfer.Returns.{Ready, HasRoom, tx-Returns}
use vender.Server.{
  Request, Command, mdb_open, mdb_reset, mdb_tx, stop, Server, Session, set_mdb, mdb_timeout,
  release, open_pins, reset, transmit, assert_status, exec,
}
use vender.Server.Contract.{release-ok}
use vender.Server.Data.{fresh}

-- A status that the client sees, whether it is OK or an error.
abbrev pub Answered : Outcome (Unit {0}) → Session → Type 0
Answered = EndPost Whatever

module _ (H : Hardware) (E : Env) (fuel : ℕ) where
  open_pins-Answered :
      (bytes : List ℕ) (s : Session)
      → HasStep E
      → let (r, s') = (open_pins H E fuel bytes >> assert_status) s in Answered r s'
  unfolding open_pins assert_status ◌>>=◌
  open_pins-Answered (rx ∷ tx ∷ []) s set = ground (arith, (IsSafe-new H E rx tx set).at s.history)
  open_pins-Answered _ s set = ground arith

  reset-Answered :
      (arg_uint : ℕ) (s : Session)
      → let (r, s') = (reset H E fuel arg_uint >> assert_status) s in Answered r s'
  unfolding reset assert_status ◌>>=◌
  reset-Answered arg_uint s =
      elim s.server.mdb
        as (λ o.
          let s = set_mdb o s in
          let (r, s') = (reset H E fuel arg_uint >> assert_status) s in Answered r s') [
            | none ↦ tt
            | some m ↦ ground (arith, (IsSafe-bus_reset H m (from_millis arg_uint)).at s.history)
          ]

  -- `tx` on the driver that the server has, if it has one and is no mock.
  abbrev SafeTx : List ℕ → Session → Type 0
  SafeTx bytes s =
      (m : GpioMdb)
      → s.server.mdb ≡ some m
      → let (r, q) =
          tx H fuel E bytes [] block_max_length mdb_timeout
            (record { mdb = m; history = s.history }) in
        EndPost Whatever r q

  transmit_by :
      (bytes : List ℕ) (s : Session) (o : Option GpioMdb)
      → s.server.mdb ≡ o
      → SafeTx bytes s
      → let (r, s') = (transmit H E fuel bytes >> assert_status) s in Answered r s'
  unfolding transmit assert_status ◌>>=◌
  transmit_by bytes s none e safe = rw e tt
  transmit_by bytes s (some m) e safe = ground (arith, e, safe m e)

  exec-Answered :
      (request : Request) (s : Session)
      → (request.command ≡ mdb_open → HasStep E)
      → (request.command ≡ mdb_tx → SafeTx request.arg_bytes s)
      → let (r, s') = exec H E fuel request s in Answered r s'
  unfolding exec ◌>>=◌
  exec-Answered request s set safe =
      elim request.command
          as (λ c.
            (c ≡ mdb_open → HasStep E)
            → (c ≡ mdb_tx → SafeTx request.arg_bytes s)
            → let (r, s') = exec H E fuel (record request { command = c }) s in Answered r s') [
              | Command.invalid ↦ λ set safe. tt
              | stop ↦ λ set safe. tt
              | mdb_open ↦ λ set safe.
                  rw (release-ok H E fuel s)
                    (open_pins-Answered request.arg_bytes (release H s).1 (set refl))
              | mdb_reset ↦ λ set safe. reset-Answered request.arg_uint s
              | mdb_tx ↦ λ set safe. transmit_by request.arg_bytes s s.server.mdb refl (safe refl)
            ]
        set safe

module _ (H : Hardware) (C : Clock H) (S : Serial H) (step : ℕ) (positive : 0 < step) (fuel : ℕ)
    (big : 2 ^ 32 ≤ fuel) (total : ℕ) (finite : (h : History) → length (stream H h) ≤ total)
    (rounds : total < fuel) where
  -- A transfer that the driver can make: of 1 to 39 bytes, with a driver that is ready, and with
  -- room for it before the tick wraps.
  pub record CanSend (request : Request) (server : Server) (h : History) : Type 0 where
    pub some_bytes : 0 < length request.arg_bytes
    pub short : length request.arg_bytes < block_max_length
    pub ready :
        (m : GpioMdb)
        → server.mdb ≡ some m
        → Ready H C S step positive fuel big total finite rounds m
    pub room :
        HasRoom H C S step positive fuel big total finite rounds
          (C.now h + 3 * C.jitter)
          mdb_timeout

  -- `exec` answers every request with `Ok` or an `Err`: it neither panics nor loops for ever,
  -- whatever the status of each call, if two conditions hold. For MDB_OPEN, the variable for the
  -- wait step is unset or holds a number that fits a u32. For MDB_TX, the request has from 1 to 39
  -- bytes, and an open driver has its buffer and a positive pause; the clock and the reads are as
  -- documented, the device sends at most `total` words, the waits have 2 ^ 32 rounds and more than
  -- `total`, and twice the time at the call, the timeout and the bound on what the transfer may
  -- take besides stay below the wrap of the tick.
  pub exec-Returns :
      (E : Env) (request : Request) (server : Server) (h : History)
      → (request.command ≡ mdb_open → HasStep E)
      → (request.command ≡ mdb_tx → CanSend request server h)
      → let (r, s) = exec H E fuel request (fresh server h) in Answered r s
  exec-Returns E request server h set can =
      exec-Answered H E fuel request (fresh server h) set λ asked m is_open.
        let c = can asked in
        tx-Returns H C S step positive fuel big total finite rounds E request.arg_bytes []
          block_max_length mdb_timeout (record { mdb = m; history = h }) c.some_bytes c.short
          (omega arith) (c.ready m is_open) c.room
