-- ===== src/Server.antt =====
-- cmd/iodin/src/server.rs: `Server::new` and `Server::exec`, with the messages that
-- protobuf/iodin.proto declares. The loop `Server::run` is in the child `Run`.
pub mod Contract
pub mod Reset
pub mod Serves
pub mod Opens
pub mod Client
pub mod Returns
pub mod Clean
pub mod Data
pub mod Mocked
pub mod Waves
pub mod Run
use vender.Prelude.{
  ℕ, ◌+◌, String, Bool, true, false, ◌⊎◌, inl, inr, Option, none, some, List, [], ◌∷◌, ◌++◌,
  if◌then◌else◌,
}
use vender.Error.{Error, msg, to_string}
use vender.Exec.{Exec, ok, pure, fail, panic, gets, modify, attempt, ◌>>=◌, ◌>>◌}
use vender.Ffi.{History, Hardware, pi_disable_fifo_if, pi_disable_sock_if}
use vender.Pigpio.{init}
use vender.Mdb.{GpioMdb, block_max_length}
use vender.Mdb.Time.{Duration, from_millis}
use vender.Mdb.Driver.{Env, new, drop_mdb, bus_reset}
use vender.Mdb.Receive.{Port}
use vender.Mdb.Transfer.{tx}

abbrev pub mdb_timeout : Duration
mdb_timeout = record { secs = 0; nanos = 300_000_000 }

-- `Request.Command`
pub data Command : Type 0 where
  invalid mdb_open mdb_reset mdb_tx stop : Command

pub record Request : Type 0 where
  pub version : ℕ
  pub command : Command
  pub timeout : ℕ
  pub arg_uint : ℕ
  pub arg_bytes : List ℕ

-- `Response.Status`
pub data Status : Type 0 where
  invalid ok_status err_input err_internal err_checksum err_timeout err_hardware : Status

pub record Response : Type 0 where
  pub version : ℕ
  pub status : Status
  pub error : String
  pub data_bytes : List ℕ

abbrev pub new_request : Request
new_request = record {
  version = 0;
  command = Command.invalid;
  timeout = 0;
  arg_uint = 0;
  arg_bytes = [];
}

abbrev pub new_response : Response
new_response = record { version = 0; status = Status.invalid; error = ""; data_bytes = [] }

pub record Server : Type 0 where
  pub mdb : Option GpioMdb
  pub mock : Bool
  pub running : Bool

unfoldable pub new_server : Hardware → (mock : Bool) → Exec History Server
new_server H mock = do
  if mock then pure tt else init H (pi_disable_fifo_if + pi_disable_sock_if)
  pure (record { mdb = none; mock = mock; running = false })

-- What `exec` works on: the server, the response that it fills in, and the calls so far.
pub record Session : Type 0 where
  pub server : Server
  pub response : Response
  pub history : History

abbrev pub set_mdb : Option GpioMdb → Session → Session
set_mdb m s = record s { server = record (s.server) { mdb = m } }

-- A call that touches neither the server nor the response.
abbrev pub hw : {A : Type 0} → Exec History A → Exec Session A
hw m s = let (r, h) = m s.history in (r, record s { history = h })

-- A method of the open driver.
abbrev pub on_mdb : {A : Type 0} → GpioMdb → Exec Port A → Exec Session A
on_mdb m action s =
    let (r, p) = action (record { mdb = m; history = s.history }) in
    (r, record (set_mdb (some p.mdb) s) { history = p.history })

abbrev pub set_status : Status → Session → Session
set_status status s = record s { response = record (s.response) { status = status } }

abbrev pub set_failure : Status → String → Session → Session
set_failure status text s = record s {
  response = record (s.response) { status = status; error = text };
}

-- `return Err(response.error.clone().into())`
abbrev pub refuse : String → Exec Session (Unit {0})
refuse text = modify (set_failure err_input text) >> fail (msg text)

-- `Err(e) => { ... return Err(e); }`
abbrev pub hardware_failure : Error → Exec Session (Unit {0})
hardware_failure e = modify (set_failure err_hardware (to_string e)) >> fail e

-- `response.data_bytes.append(&mut mdb_response)`
abbrev pub append_data : List ℕ → Session → Session
append_data bytes s = record s {
  response = record (s.response) { data_bytes = s.response.data_bytes ++ bytes };
}

abbrev pub answer : List ℕ → Exec Session (Unit {0})
answer bytes = modify (set_status ok_status) >> modify (append_data bytes)

-- `assert_ne!(response.status, Response_Status::INVALID)`
unfoldable pub assert_status : Exec Session (Unit {0})
assert_status s = elim (s.response.status) [ invalid ↦ panic s | _ ↦ (ok tt, s) ]

-- `match` on the result of a driver's operation
abbrev pub on_result :
    {A : Type 0} → Error ⊎ A → (A → Exec Session (Unit {0})) → Exec Session (Unit {0})
on_result (inl e) go_on = hardware_failure e
on_result (inr a) go_on = go_on a

-- `match &mut self.mdb`
abbrev pub with_driver :
    Option GpioMdb → (GpioMdb → Exec Session (Unit {0})) → Exec Session (Unit {0})
with_driver none use_it = refuse "must mdb_open"
with_driver (some m) use_it = use_it m

-- `self.mdb = None` drops the driver that was there.
module _ (H : Hardware) where
  abbrev pub drop_opened : Option GpioMdb → Exec Session (Unit {0})
  drop_opened none = pure tt
  drop_opened (some m) = hw (drop_mdb H m)

  unfoldable pub release : Exec Session (Unit {0})
  release = do opened ← gets λ s. s.server.mdb; drop_opened opened; modify (set_mdb none)

module _ (H : Hardware) (E : Env) (fuel : ℕ) where
  unfoldable pub open_pins : List ℕ → Exec Session (Unit {0})
  open_pins (rx ∷ tx ∷ []) = do
    r ← attempt (hw (new H E rx tx))
    on_result r λ m. modify (set_mdb (some m)) >> modify (set_status ok_status)
  open_pins _ = refuse "invalid arg_bytes"

  unfoldable pub reset : ℕ → Exec Session (Unit {0})
  reset arg_uint = do
    opened ← gets λ s. s.server.mdb
    with_driver opened λ m. (do
      r ← attempt (hw (bus_reset H m (from_millis arg_uint)))
      on_result r λ _. modify (set_status ok_status))

  unfoldable pub transmit : List ℕ → Exec Session (Unit {0})
  transmit arg_bytes = do
    opened ← gets λ s. s.server.mdb
    with_driver opened λ m. (do
      mock ← gets λ s. s.server.mock
      if mock then answer arg_bytes else (do
        r ← attempt (on_mdb m (tx H fuel E arg_bytes [] block_max_length mdb_timeout))
        on_result r answer))

  unfoldable pub exec : Request → Exec Session (Unit {0})
  unfolding release open_pins reset transmit assert_status
  exec request = elim (request.command) [
    | invalid ↦ refuse "invalid command"
    | stop ↦
        modify
          λ s. set_status ok_status (record s { server = record (s.server) { running = false } })
    | mdb_open ↦ (do release H; open_pins request.arg_bytes; assert_status)
    | mdb_reset ↦ reset request.arg_uint >> assert_status
    | mdb_tx ↦ transmit request.arg_bytes >> assert_status
  ]
