-- ===== src/Server/Mocked.antt =====
-- What the commands answer where the mock stands in for the C library.
use vender.Prelude.{
  ℕ, ◌≡◌, refl, ap, ◌∙◌, Bool, true, false, Option, none, some, List, [], ◌∷◌, arith, if◌then◌else◌,
}
use vender.Exec.{Exec, ok, ◌>>=◌}
use vender.Exec.Keeps.{bind-ok}
use vender.Ffi.{History}
use vender.Ffi.Mock.{mock, mock_code}
use vender.Pigpio.{check, new_serial, drop_wave}
use vender.Mdb.{GpioMdb}
use vender.Mdb.Time.{duration_as_micros32}
use vender.Mdb.Bus.{mdb_wave_create}
use vender.Mdb.Driver.{Env, new, make, bus_reset, drop_mdb}
use vender.Mdb.Driver.Parse.{parse_u32}
use vender.Server.{
  Request, Command, mdb_open, mdb_reset, mdb_tx, stop, Status, ok_status, err_input, err_hardware,
  Server, Session, new_response, release, open_pins, reset, transmit, assert_status, exec,
}
use vender.Server.Contract.{is_some}
use vender.Server.Data.{fresh}

-- The status of a command, whether a driver is open before it: pins can be opened, a request is
-- echoed, and the bus cannot be reset, since `gpioWrite` fails.
abbrev pub mocked : Command → (arg_bytes : List ℕ) → (is_open : Bool) → Status
mocked Command.invalid arg_bytes is_open = err_input
mocked stop arg_bytes is_open = ok_status
mocked mdb_open (rx ∷ tx ∷ []) is_open = ok_status
mocked mdb_open _ is_open = err_input
mocked mdb_reset arg_bytes is_open = if is_open then err_hardware else err_input
mocked mdb_tx arg_bytes is_open = if is_open then ok_status else err_input

module _ (E : Env) (unset : E.variable ≡ none) (fuel : ℕ) (h : History) where
  reset-mocked :
      (m : Option GpioMdb) (server : Server) (arg_uint : ℕ)
      → server.mdb ≡ m
      → (reset mock E fuel arg_uint (fresh server h)).1.response.status
        ≡ (if is_some m then err_hardware else err_input)
  unfolding reset bus_reset duration_as_micros32 check mock mock_code ◌>>=◌
  reset-mocked none server arg_uint e = ground arith
  reset-mocked (some m) server arg_uint e = ground arith

  new-mocked : (rx tx : ℕ) → (g : History) → (m : GpioMdb) × ((new mock E rx tx g).0 ≡ ok m)
  unfolding new make parse_u32 mdb_wave_create new_serial drop_wave check mock mock_code ◌>>=◌
  new-mocked rx tx g = rw unset (_, refl)

  release_opened :
      (m : Option GpioMdb) (server : Server)
      → server.mdb ≡ m
      → let (r, s) = release mock (fresh server h) in (r ≡ ok tt) × (s.response ≡ new_response)
  unfolding release drop_mdb drop_wave ◌>>=◌
  release_opened none server e = ground arith
  release_opened (some m) server e = ground arith

  open_pins-mocked :
      (bytes : List ℕ) (s : Session)
      → s.response ≡ new_response
      → (open_pins mock E fuel bytes s).1.response.status ≡ mocked mdb_open bytes false
  unfolding open_pins ◌>>=◌
  open_pins-mocked (rx ∷ tx ∷ []) s fresh = ground (arith, (new-mocked rx tx s.history).1)
  open_pins-mocked _ s fresh = ground arith

  transmit-mocked :
      (m : Option GpioMdb) (server : Server) (bytes : List ℕ)
      → server.mdb ≡ m
      → server.mock ≡ true
      → (transmit mock E fuel bytes (fresh server h)).1.response.status
        ≡ (if is_some m then ok_status else err_input)
  unfolding transmit ◌>>=◌
  transmit-mocked none server bytes e echo = ground arith
  transmit-mocked (some m) server bytes e echo = ground arith

  after_assert :
      (m : Exec Session (Unit {0})) (s : Session) → ((m >>= λ _. assert_status) s).1 ≡ (m s).1
  unfolding assert_status ◌>>=◌
  after_assert m s = ground arith

  mocked_open :
      (bytes : List ℕ) (is_open : Bool)
      → mocked mdb_open bytes false ≡ mocked mdb_open bytes is_open
  mocked_open [] is_open = refl
  mocked_open (rx ∷ []) is_open = refl
  mocked_open (rx ∷ tx ∷ []) is_open = refl
  mocked_open (a ∷ b ∷ c ∷ rest) is_open = refl

  opened :
      (server : Server) (bytes : List ℕ)
      → let open_it = open_pins mock E fuel bytes >>= λ _. assert_status in
        ((release mock >>= λ _. open_it) (fresh server h)).1.response.status
        ≡ mocked mdb_open bytes (is_some server.mdb)
  opened server bytes =
      let released = (release mock (fresh server h)).1 in
      let open_it = open_pins mock E fuel bytes in
      let (done, new) = release_opened server.mdb server refl in
      rw
        (bind-ok (release mock) (λ _. open_it >>= λ _. assert_status) (fresh server h)
          (ap (λ r. (r, released)) done))
        (ap (λ s. s.response.status) (after_assert open_it released)
          ∙ open_pins-mocked bytes released new
          ∙ mocked_open bytes (is_some server.mdb))

  -- On the mock, with the pause of the bus unset and with requests echoed, each command has one
  -- status, whatever came before: MDB_OPEN is OK for two pins, also where a driver is open, and
  -- ERR_INPUT for any other number of bytes; MDB_RESET fails with ERR_HARDWARE and MDB_TX is OK if
  -- a driver is open, and both are ERR_INPUT if none is; STOP is OK and an invalid command is
  -- ERR_INPUT.
  pub exec-mocked :
      (request : Request) (server : Server)
      → server.mock ≡ true
      → let (r, s) = exec mock E fuel request (fresh server h) in
        s.response.status ≡ mocked request.command request.arg_bytes (is_some server.mdb)
  unfolding exec ◌>>=◌
  exec-mocked request server echo =
      elim request.command
        as (λ c.
          let (r, s) = exec mock E fuel (record request { command = c }) (fresh server h) in
          s.response.status ≡ mocked c request.arg_bytes (is_some server.mdb)) [
            | Command.invalid ↦ refl
            | stop ↦ refl
            | mdb_open ↦ opened server request.arg_bytes
            | mdb_reset ↦
                ap (λ s. s.response.status)
                  (after_assert (reset mock E fuel request.arg_uint) (fresh server h))
                ∙ reset-mocked server.mdb server request.arg_uint refl
            | mdb_tx ↦
                ap (λ s. s.response.status)
                  (after_assert (transmit mock E fuel request.arg_bytes) (fresh server h))
                ∙ transmit-mocked server.mdb server request.arg_bytes refl echo
          ]
