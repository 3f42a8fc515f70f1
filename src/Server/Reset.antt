-- ===== src/Server/Reset.antt =====
-- MDB_RESET: from the milliseconds of a request to the pulse on the output pin.
use vender.Prelude.{ℕ, ◌*◌, ◌-◌, ◌^◌, ◌≤◌, ◌<◌, ◌≡◌, ◌⊎◌, refl, some, ◌∷◌}
use vender.Error.{to_string}
use vender.Exec.{Outcome, ok, err, panicked, out_of_fuel, ◌>>=◌, ◌>>◌}
use vender.Ffi.{write, delay, History, Hardware}
use vender.Mdb.{GpioMdb}
use vender.Mdb.Time.{from_millis, micros-from_millis, overflow}
use vender.Mdb.Driver.{Env, bus_reset}
use vender.Mdb.Driver.Reset.{Pulsed, bus_reset-Pulsed}
use vender.Server.{
  Request, mdb_reset, ok_status, err_hardware, Server, Session, reset, assert_status, exec,
}
use vender.Server.Data.{fresh}

module _ (H : Hardware) (m : GpioMdb) (millis : ℕ) (h : History) where
  -- The pin after it was raised, held for the milliseconds, and lowered.
  abbrev raised : History
  raised = write m.tx_pin 1 ∷ h

  abbrev lowered : History
  lowered = write m.tx_pin 0 ∷ delay (millis * 1000) ∷ raised

  -- What the client is told, and what has become of the pin.
  abbrev pub HasReset : Outcome (Unit {0}) → Session → Type 0
  HasReset (ok _) s =
      (s.response.status ≡ ok_status) × (s.history ≡ lowered) × (millis * 1000 < 2 ^ 32 - 1)
  HasReset (err e) s =
      (s.response.status ≡ err_hardware)
      × (s.response.error ≡ to_string e)
      × (((s.history ≡ h) × (e ≡ overflow) × (2 ^ 32 - 1 ≤ millis * 1000))
          ⊎ ((s.history ≡ raised) ⊎ (s.history ≡ lowered)) × (millis * 1000 < 2 ^ 32 - 1))
  HasReset panicked s = ⊥
  HasReset out_of_fuel s = ⊥

  reset_by :
      (E : Env) (fuel : ℕ) (server : Server) (r : Outcome (Unit {0})) (h' : History)
      → server.mdb ≡ some m
      → bus_reset H m (from_millis millis) h ≡ (r, h')
      → Pulsed H m (from_millis millis) h r h'
      → let (r, s) = (reset H E fuel millis >> assert_status) (fresh server h) in HasReset r s
  unfolding reset assert_status ◌>>=◌
  reset_by E fuel server (ok _) h' is_open e (at, fits) =
      let exact = micros-from_millis millis in
      rw (is_open, e) (refl, rw exact at at, rw exact at fits)
  reset_by E fuel server (err error) h' is_open e pulsed =
      let exact = micros-from_millis millis in rw (is_open, e) (refl, refl, rw exact at pulsed)
  reset_by E fuel server panicked h' is_open e pulsed = absurd pulsed
  reset_by E fuel server out_of_fuel h' is_open e pulsed = absurd pulsed

-- MDB_RESET on an open driver, on any hardware: after OK the output pin was raised, held for
-- exactly a thousand microseconds for each millisecond that the request asks for, and lowered.
-- Otherwise the status is ERR_HARDWARE, with the text of the error: either these microseconds reach
-- the greatest u32, the error is the overflow, and no call was made; or they do not, and the pin
-- was raised, or was raised, held and lowered. It never panics.
pub exec-resets :
    (H : Hardware) (E : Env) (fuel : ℕ) (request : Request) (server : Server) (m : GpioMdb)
    (h : History)
    → request.command ≡ mdb_reset
    → server.mdb ≡ some m
    → let (r, s) = exec H E fuel request (fresh server h) in HasReset H m request.arg_uint h r s
unfolding exec
exec-resets H E fuel request server m h asked is_open =
    let done = bus_reset H m (from_millis request.arg_uint) h in
    rw asked (
      reset_by H m request.arg_uint h E fuel server done.0 done.1 is_open refl
        (bus_reset-Pulsed H m (from_millis request.arg_uint) h))
