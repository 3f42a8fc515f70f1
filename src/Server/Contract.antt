-- ===== src/Server/Contract.antt =====
-- What a response tells the client: how the status answers to the outcome of `exec`, and which
-- states the driver can be in.
use vender.Prelude.{ℕ, ◌≡◌, ◌≢◌, ◌⊎◌, Bool, true, false, Option, none, some, List, [], ◌∷◌, arith}
use vender.Error.{to_string}
use vender.Exec.{Outcome, ok, err, panicked, out_of_fuel, ◌>>=◌}
use vender.Ffi.{History, Hardware}
use vender.Mdb.{GpioMdb}
use vender.Pigpio.{drop_wave}
use vender.Mdb.Driver.{Env, drop_mdb}
use vender.Server.{
  Request, Command, mdb_open, mdb_reset, mdb_tx, stop, Status, ok_status, err_input, err_hardware,
  Response, new_response, Server, Session, release, open_pins, reset, transmit, assert_status, exec,
}

-- How a response matches what `exec` returned.
abbrev pub Reports : Outcome (Unit {0}) → Response → Type 0
Reports (ok _) r = r.status ≡ ok_status
Reports (err e) r =
    ((r.status ≡ err_input) ⊎ (r.status ≡ err_hardware))
    × (r.error ≡ to_string e)
    × (r.data_bytes ≡ [])
Reports panicked r = r.status ≡ Status.invalid
Reports out_of_fuel r = Unit

-- What a client knows of the server.
pub record View : Type 0 where
  pub is_open : Bool
  pub running : Bool

abbrev pub is_some : Option GpioMdb → Bool
is_some none = false
is_some (some _) = true

abbrev pub view : Server → View
view server = record { is_open = is_some server.mdb; running = server.running }

-- The answers that a driver in use gives: done, or a failure of the hardware.
abbrev pub Used : View → Status → View → Type 0
Used v status v' =
    (v' ≡ v)
    × ((v.is_open ≡ false) × (status ≡ err_input)
        ⊎ (v.is_open ≡ true) × ((status ≡ ok_status) ⊎ (status ≡ err_hardware)))

-- The protocol: the status of a command and the server after it, given the server before it.
abbrev pub Answers : Command → View → Status → View → Type 0
Answers Command.invalid v status v' = (status ≡ err_input) × (v' ≡ v)
Answers stop v status v' = (status ≡ ok_status) × (v' ≡ record v { running = false })
Answers mdb_open v status v' =
    (v'.running ≡ v.running)
    × ((status ≡ ok_status) × (v'.is_open ≡ true)
        ⊎ ((status ≡ err_input) ⊎ (status ≡ err_hardware)) × (v'.is_open ≡ false))
Answers mdb_reset v status v' = Used v status v'
Answers mdb_tx v status v' = Used v status v'

-- The protocol where `exec` returned; a panic gives no response.
abbrev pub Conforms : Command → View → Outcome (Unit {0}) → Session → Type 0
Conforms c v (ok _) s = Answers c v s.response.status (view s.server)
Conforms c v (err _) s = Answers c v s.response.status (view s.server)
Conforms c v _ s = Unit

module _ (H : Hardware) (E : Env) (fuel : ℕ) where
  open_pins-Reports :
      (bytes : List ℕ) (s : Session)
      → s.response ≡ new_response
      → let (r, s') = open_pins H E fuel bytes s in Reports r s'.response
  unfolding open_pins to_string ◌>>=◌
  open_pins-Reports (rx ∷ tx ∷ []) s fresh = ground arith
  open_pins-Reports _ s fresh = ground arith

  reset-Reports :
      (arg_uint : ℕ) (s : Session)
      → s.response ≡ new_response
      → let (r, s') = reset H E fuel arg_uint s in Reports r s'.response
  unfolding reset to_string ◌>>=◌
  reset-Reports arg_uint s fresh = ground arith

  transmit-Reports :
      (bytes : List ℕ) (s : Session)
      → s.response ≡ new_response
      → let (r, s') = transmit H E fuel bytes s in Reports r s'.response
  unfolding transmit to_string ◌>>=◌
  transmit-Reports bytes s fresh = ground arith

  release-response : (s : Session) → (release H s).1.response ≡ s.response
  unfolding release ◌>>=◌
  release-response s = ground arith

  release-view :
      (s : Session) → view (release H s).1.server ≡ record (view s.server) { is_open = false }
  unfolding release drop_mdb drop_wave ◌>>=◌
  release-view s = ground arith

  pub release-ok : (s : Session) → (release H s).0 ≡ ok tt
  unfolding release drop_mdb drop_wave ◌>>=◌
  release-ok s = ground arith

  open_pins-Conforms :
      (bytes : List ℕ) (s : Session)
      → (view s.server).is_open ≡ false
      → let (r, s') = open_pins H E fuel bytes s in Conforms mdb_open (view s.server) r s'
  unfolding open_pins ◌>>=◌
  open_pins-Conforms (rx ∷ tx ∷ []) s shut = ground arith
  open_pins-Conforms _ s shut = ground arith

  reset-Conforms :
      (arg_uint : ℕ) (s : Session)
      → let (r, s') = reset H E fuel arg_uint s in Conforms mdb_reset (view s.server) r s'
  unfolding reset ◌>>=◌
  reset-Conforms arg_uint s = ground arith

  transmit-Conforms :
      (bytes : List ℕ) (s : Session)
      → let (r, s') = transmit H E fuel bytes s in Conforms mdb_tx (view s.server) r s'
  unfolding transmit ◌>>=◌
  transmit-Conforms bytes s = ground arith

  pub assert_status-if_valid :
      (s : Session) → s.response.status ≢ Status.invalid → assert_status s ≡ (ok tt, s)
  unfolding assert_status
  assert_status-if_valid s h = ground arith

module _ (H : Hardware) (E : Env) (fuel : ℕ) (request : Request) (server : Server)
    (h : History) where
  abbrev start : Session
  start = record { server = server; response = new_response; history = h }

  -- The response that `exec` leaves, from a new one, tells how it ended: its status is OK after
  -- `Ok`; after an `Err` it has the text of that error, no data, and the status ERR_INPUT or
  -- ERR_HARDWARE; and after a panic its status is still the invalid one.
  pub exec-Reports : let (r, s) = exec H E fuel request start in Reports r s.response
  unfolding exec to_string ◌>>=◌
  exec-Reports =
      elim request.command
        as (λ c.
          let (r, s) = exec H E fuel (record request { command = c }) start in
          Reports r s.response) [
            | Command.invalid ↦ ground arith
            | stop ↦ ground arith
            | mdb_open ↦ ground (
              arith,
              release-ok H E fuel start,
              release-response H E fuel start,
              open_pins-Reports H E fuel request.arg_bytes (release H start).1,
            )
            | mdb_reset ↦ ground (arith, reset-Reports H E fuel request.arg_uint start)
            | mdb_tx ↦ ground (arith, transmit-Reports H E fuel request.arg_bytes start)
          ]

  -- Where `exec` returns, with or without an error, it has followed the protocol, whatever the
  -- hardware answers: an invalid command is ERR_INPUT and changes nothing; STOP is OK and ends the
  -- loop, and nothing else does; MDB_OPEN leaves a driver after OK and none after an error;
  -- MDB_RESET and MDB_TX leave the state alone, are ERR_INPUT if there is no driver, and OK or
  -- ERR_HARDWARE if there is one.
  pub exec-Conforms :
      let (r, s) = exec H E fuel request start in Conforms request.command (view server) r s
  unfolding exec ◌>>=◌
  exec-Conforms =
      elim request.command
        as (λ c.
          let (r, s) = exec H E fuel (record request { command = c }) start in
          Conforms c (view server) r s) [
            | Command.invalid ↦ ground arith
            | stop ↦ ground arith
            | mdb_open ↦ ground (
              arith,
              release-ok H E fuel start,
              release-view H E fuel start,
              open_pins-Conforms H E fuel request.arg_bytes (release H start).1,
            )
            | mdb_reset ↦ ground (arith, reset-Conforms H E fuel request.arg_uint start)
            | mdb_tx ↦ ground (arith, transmit-Conforms H E fuel request.arg_bytes start)
          ]
