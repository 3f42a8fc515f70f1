-- ===== src/Server/Data.antt =====
-- The data of a response: what `exec` passes on from the bus.
use vender.Prelude.{ℕ, ◌≡◌, refl, ap, Bool, true, false, Option, none, some, List, [], ◌∷◌, arith}
use vender.Exec.{Outcome, ok, err, panicked, out_of_fuel, caught, modify, ◌>>=◌, ◌>>◌}
use vender.Exec.Keeps.{Post, Anything, bind-ok}
use vender.Ffi.{History, Hardware}
use vender.Pigpio.{drop_wave}
use vender.Mdb.{GpioMdb, block_max_length}
use vender.Mdb.Driver.{Env, drop_mdb, new}
use vender.Mdb.Receive.{Port}
use vender.Mdb.Receive.Stream.{IsFull}
use vender.Mdb.Receive.Words.{Serial, stream}
use vender.Mdb.Transfer.{tx}
use vender.Mdb.Transfer.Correct.{Delivered, tx-Delivered}
use vender.Mdb.Transfer.Sized.{Sized, FullPort, Keeps-tx_full, Triple-new_full}
use vender.Server.{
  Request, Command, mdb_open, mdb_reset, mdb_tx, stop, new_response, Server, Session, mdb_timeout,
  ok_status, set_status, set_mdb, on_result, answer, release, open_pins, reset, transmit,
  assert_status, exec,
}

-- What `exec` is called on for each request.
abbrev pub fresh : Server → History → Session
fresh server h = record { server = server; response = new_response; history = h }

-- The buffer of the driver, if there is one, has its size.
abbrev pub HasFull : Option GpioMdb → Type 0
HasFull none = Unit
HasFull (some m) = IsFull m

abbrev FullSession : Session → Type 0
FullSession s = HasFull s.server.mdb

-- A step that failed has left no data.
abbrev NoData : Session → Type 0
NoData s = (s.response.data_bytes ≡ []) × HasFull s.server.mdb

module _ (H : Hardware) (S : Serial H) (h : History) where
  -- The data that a driver's transfer has brought.
  abbrev Brought : Option GpioMdb → Session → Type 0
  Brought none s = ⊥
  Brought (some m) s =
      Delivered H S (stream H h) [] s.response.data_bytes (record { mdb = m; history = s.history })

  -- The data of a response to a command, from a server with or without a mock: a block that came
  -- in since, the request's own bytes on a mock, and none for the other commands.
  abbrev pub Data : Command → (mock : Bool) → (arg_bytes : List ℕ) → Session → Type 0
  Data mdb_tx true arg_bytes s = s.response.data_bytes ≡ arg_bytes
  Data mdb_tx false arg_bytes s = Brought s.server.mdb s
  Data _ mock arg_bytes s = s.response.data_bytes ≡ []

  -- What the response carries, by the outcome of `exec`, and the driver that is left.
  abbrev pub Carries :
      Command → (mock : Bool) → (arg_bytes : List ℕ) → Outcome (Unit {0}) → Session → Type 0
  Carries c mock arg_bytes = Post (λ _ s. Data c mock arg_bytes s × HasFull s.server.mdb) NoData

  abbrev Transferred : Outcome (List ℕ) → Port → Type 0
  Transferred =
      Post (λ bytes p. Delivered H S (stream H h) [] bytes p × IsFull p.mdb) (λ p. IsFull p.mdb)

  both :
      (r : Outcome (List ℕ)) (p : Port)
      → Post (Delivered H S (stream H h) []) Anything r p
      → Post (λ _. FullPort) FullPort r p
      → Transferred r p
  both (ok a) p d f = (d, f.1)
  both (err e) p d f = f.1
  both panicked p d f = f.1
  both out_of_fuel p d f = tt

  -- The response to a transfer that has ended.
  after_tx :
      (server : Server) (arg_bytes : List ℕ) (r : Outcome (List ℕ)) (p : Port)
      → Transferred r p
      → let s : Session = record {
        server = record server { mdb = some p.mdb };
        response = new_response;
        history = p.history;
      } in
        let (o, s') = (((λ s. caught r s) >>= λ e. on_result e answer) >>= λ _. assert_status) s in
        Carries mdb_tx false arg_bytes o s'
  unfolding assert_status ◌>>=◌
  after_tx server arg_bytes (ok a) p t = t
  after_tx server arg_bytes (err e) p t = (refl, t)
  after_tx server arg_bytes panicked p t = (refl, t)
  after_tx server arg_bytes out_of_fuel p t = tt

  -- The response to an attempt to make a driver.
  after_new :
      (mock : Bool) (arg_bytes : List ℕ) (s : Session) (r : Outcome GpioMdb)
      → s.server.mdb ≡ none
      → s.response ≡ new_response
      → Post (λ m _. IsFull m) Anything r s.history
      → let (o, s') =
          (((λ s. caught r s) >>= λ e.
          on_result e λ m. modify (set_mdb (some m)) >> modify (set_status ok_status))
              >>= λ _. assert_status)
            s in
        Carries mdb_open mock arg_bytes o s'
  unfolding assert_status ◌>>=◌
  after_new mock arg_bytes s (ok m) shut fresh full = rw fresh (refl, full)
  after_new mock arg_bytes s (err e) shut fresh full = rw (fresh, shut) (refl, tt)
  after_new mock arg_bytes s panicked shut fresh full = rw (fresh, shut) (refl, tt)
  after_new mock arg_bytes s out_of_fuel shut fresh full = tt

  module _ (E : Env) (fuel : ℕ) (server : Server) where
    abbrev start : Session
    start = fresh server h

    transmit-Carries :
        (o : Option GpioMdb) (mock : Bool) (arg_bytes : List ℕ)
        → HasFull o
        → let s = record start { server = record server { mdb = o; mock = mock } } in
          let (r, s') = (transmit H E fuel arg_bytes >>= λ _. assert_status) s in
          Carries mdb_tx mock arg_bytes r s'
    unfolding transmit assert_status ◌>>=◌
    transmit-Carries none mock arg_bytes full = (refl, tt)
    transmit-Carries (some m) true arg_bytes full = (refl, full)
    transmit-Carries (some m) false arg_bytes full =
        let p : Port = record { mdb = m; history = h } in
        let t = tx H fuel E arg_bytes [] block_max_length mdb_timeout p in
        after_tx (record server { mock = false }) arg_bytes t.0 t.1
          (both t.0 t.1 (tx-Delivered H S fuel E arg_bytes [] block_max_length mdb_timeout p full)
            ((Keeps-tx_full H fuel E arg_bytes [] block_max_length mdb_timeout).at p (tt, full)))

    reset-Carries :
        (arg_uint : ℕ) (arg_bytes : List ℕ)
        → HasFull server.mdb
        → let (r, s) = (reset H E fuel arg_uint >>= λ _. assert_status) start in
          Carries mdb_reset server.mock arg_bytes r s
    unfolding reset assert_status ◌>>=◌
    reset-Carries arg_uint arg_bytes full = ground arith

    open_pins-Carries :
        (arg_bytes : List ℕ) (s : Session)
        → Sized E
        → s.server.mdb ≡ none
        → s.response ≡ new_response
        → let (r, s') = (open_pins H E fuel arg_bytes >>= λ _. assert_status) s in
          Carries mdb_open server.mock arg_bytes r s'
    unfolding open_pins assert_status ◌>>=◌
    open_pins-Carries (rx ∷ tx ∷ []) s sized shut fresh =
        let n = new H E rx tx s.history in
        after_new server.mock (rx ∷ tx ∷ []) (record s { history = n.1 }) n.0 shut fresh
          ((Triple-new_full H E sized rx tx).at s.history tt)
    open_pins-Carries _ s sized shut fresh = ground arith

    released :
        (o : Option GpioMdb)
        → server.mdb ≡ o
        → let (r, s) = release H start in
          (r ≡ ok tt) × (s.server ≡ record server { mdb = none }) × (s.response ≡ new_response)
    unfolding release drop_mdb drop_wave ◌>>=◌
    released none e = rw e (refl, refl, refl)
    released (some m) e = rw e (refl, refl, refl)

    opened :
        (arg_bytes : List ℕ)
        → Sized E
        → let (r, s) =
            (release H >>= λ _. open_pins H E fuel arg_bytes >>= λ _. assert_status) start in
          Carries mdb_open server.mock arg_bytes r s
    opened arg_bytes sized =
        let (done, left, fresh) = released server.mdb refl in
        rw
          (bind-ok (release H) (λ _. open_pins H E fuel arg_bytes >>= λ _. assert_status) start
            (ap (λ r. (r, (release H start).1)) done))
          (open_pins-Carries arg_bytes (release H start).1 sized (ap (λ v. v.mdb) left) fresh)

module _ (H : Hardware) (S : Serial H) (E : Env) (fuel : ℕ) (request : Request) (server : Server)
    (h : History) where
  -- What the response to a request carries, where the reads give whole words and the driver's
  -- buffer has its size, if there is a driver: after `Ok`, MDB_TX has brought a block that came in
  -- since, with the ACK or the checksum that closes it, or on a mock the bytes of the request, and
  -- every other command no data; after an error or a panic there is no data. The driver that is
  -- left has a buffer of the right size again, if a new array has it.
  pub exec-Carries :
      Sized E
      → HasFull server.mdb
      → let (r, s) = exec H E fuel request (fresh server h) in
        Carries H S h request.command server.mock request.arg_bytes r s
  unfolding exec ◌>>=◌
  exec-Carries sized full =
      elim request.command
        as (λ c.
          let (r, s) = exec H E fuel (record request { command = c }) (fresh server h) in
          Carries H S h c server.mock request.arg_bytes r s) [
            | Command.invalid ↦ (refl, full)
            | stop ↦ (refl, full)
            | mdb_open ↦ opened H S h E fuel server request.arg_bytes sized
            | mdb_reset ↦ reset-Carries H S h E fuel server request.arg_uint request.arg_bytes full
            | mdb_tx ↦
                transmit-Carries H S h E fuel server server.mdb server.mock request.arg_bytes full
          ]
