-- ===== src/Server/Opens.antt =====
-- MDB_OPEN on hardware where no call fails.
use vender.Prelude.{◌*◌, ◌∙◌, arith, ℕ, ◌≡◌, refl, none, some, [], ◌∷◌}
use vender.Exec.{ok, ◌>>=◌}
use vender.Exec.Gives.{Gives}
use vender.Ffi.{wave_tx_stop, serial_read_close, wave_delete, History, Hardware}
use vender.Ffi.Clock.{Clock}
use vender.Pigpio.{drop_wave}
use vender.Mdb.{GpioMdb}
use vender.Mdb.Driver.{Env, close, drop_mdb}
use vender.Mdb.Driver.Safe.{HasStep}
use vender.Mdb.Driver.Opens.{DriverFor, new-Gives}
use vender.Mdb.Live.{IsSound, checked}
use vender.Mdb.Live.Device.{Passed, Passed-refl, Passed-call}
use vender.Mdb.Transfer.Sized.{Sized}
use vender.Server.{
  Request, mdb_open, ok_status, Server, Session, release, open_pins, assert_status, set_status,
  exec,
}
use vender.Server.Contract.{assert_status-if_valid}
use vender.Server.Data.{fresh}

module _ (H : Hardware) (C : Clock H) (sound : IsSound H) where
  -- A driver is closed and its waves are deleted.
  drop_mdb-Gives :
      (m : GpioMdb) (h : History)
      → (h' : History) × Gives (drop_mdb H m) h tt h' × Passed H C (4 * C.jitter) h h'
  unfolding drop_mdb close drop_wave ◌>>=◌
  drop_mdb-Gives m h =
      let h₁ = wave_tx_stop ∷ h in
      let h₂ = serial_read_close m.rx_pin ∷ h₁ in
      let h₃ = wave_delete m.wave_ack.id ∷ h₂ in
      let (n₁, e₁) = checked (H.code h₁) h₁ (sound h₁) in
      let (same, later, soon) = Passed-call H C (wave_delete m.wave_nak.id) _ h h₃ tt (
        Passed-call H C (wave_delete m.wave_ack.id) _ h h₂ tt (
          Passed-call H C (serial_read_close m.rx_pin) _ h h₁ tt
            (Passed-call H C wave_tx_stop 0 h h tt (Passed-refl H C h)))) in
      let (n₂, e₂) = checked (H.code h₂) h₂ (sound h₂) in
      (wave_delete m.wave_nak.id ∷ h₃, rw (e₁, e₂) refl, (same, later, omega arith))

  -- The driver that was there is gone.
  release-Gives :
      (server : Server) (h : History)
      → (h' : History) × Gives
          (release H)
          (fresh server h)
          tt
          (fresh (record server { mdb = none }) h')
        × Passed H C (4 * C.jitter) h h'
  unfolding release ◌>>=◌
  release-Gives server h =
      elim server.mdb
        as (λ o.
          (h' : History) × Gives (release H) (fresh (record server { mdb = o }) h) tt
            (fresh (record server { mdb = none }) h')
          × Passed H C (4 * C.jitter) h h') [
            | none ↦ (h, refl, (refl, omega arith, omega arith))
            | some m ↦
                let (h', dropped, passed) = drop_mdb-Gives m h in (h', rw dropped refl, passed)
          ]

module _ (H : Hardware) (C : Clock H) (E : Env) (sound : IsSound H) (sized : Sized E)
    (fuel rx tx : ℕ) (server : Server) where
  -- The status is OK, there are no data, and the server has a driver for these pins; the words are
  -- the same, and 14 calls may have taken their time.
  abbrev pub Opened : (step : ℕ) → History → Session → Type 0
  Opened step h s =
      (s.response.status ≡ ok_status)
      × (s.response.data_bytes ≡ [])
      × ((m : GpioMdb) × (s.server ≡ record server { mdb = some m })
          × DriverFor H C E sound sized rx tx step m)
      × Passed H C (14 * C.jitter) h s.history

  -- MDB_OPEN with two pins is answered OK, without data, and leaves the server with a driver for
  -- these pins, whether it had one before or not: the driver's pause is that of the variable, or
  -- 101 if it is unset, and its buffer has its size. It reads no words, and takes at most 14 times
  -- the jitter of the clock. That holds if no call fails, the clock runs as documented, the
  -- variable is unset or a number that fits a u32, and the buffer begins as an array of its size.
  pub exec-opens :
      (set : HasStep E) (request : Request) (h : History)
      → request.command ≡ mdb_open
      → request.arg_bytes ≡ rx ∷ tx ∷ []
      → (s : Session) × Gives (exec H E fuel request) (fresh server h) tt s × Opened set.0 h s
  unfolding exec open_pins ◌>>=◌
  exec-opens set request h asked pins =
      let (h₁, released, (same₁, later₁, soon₁)) = release-Gives H C sound server h in
      let (m, h₂, made, fields, (same₂, later₂, soon₂)) =
        new-Gives H C E sound sized rx tx set h₁ in
      let s = set_status ok_status (fresh (record server { mdb = some m }) h₂) in
      let valid : assert_status s ≡ (ok tt, s) =
        assert_status-if_valid H E fuel s (λ e. absurd cc) in
      (
        s,
        rw (asked, released, pins, made) valid,
        (refl, refl, (m, refl, fields), (same₂ ∙ same₁, omega arith, omega arith)),
      )
