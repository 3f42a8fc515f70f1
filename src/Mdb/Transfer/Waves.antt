-- ===== src/Mdb/Transfer/Waves.antt =====
-- Who owns which waves, over `tx`.
use vender.Prelude.{ℕ, ◌+◌, refl, List}
use vender.Exec.Keeps.{
  Post, Triple-bind, Triple-with_drop, Keeps, Keeps-bind, Keeps-gets, Keeps-assert,
}
use vender.Ffi.{Hardware}
use vender.Ffi.Waves.{one_if}
use vender.Pigpio.{Wave}
use vender.Pigpio.Waves.{Owns, Owns-Quiet, drop_wave-Owns}
use vender.Mdb.{GpioMdb}
use vender.Mdb.Time.{Duration}
use vender.Mdb.Driver.{Env}
use vender.Mdb.Driver.Waves.{Triple-mdb_wave_create}
use vender.Mdb.Receive.{Port}
use vender.Mdb.Receive.Quiet.{Triple-hw}
use vender.Mdb.Receive.Waves.{SameBut, SameBut-Unread, PortOwns, without_buf, Owns-Listening}
use vender.Mdb.Transfer.{tx}
use vender.Mdb.Transfer.Quiet.{Keeps-encoded, Keeps-exchange}

-- A transfer owns its wave until its end.
pub Keeps-tx :
    (fixed : GpioMdb) (H : Hardware) (wave k fuel : ℕ) (E : Env) (request response : List ℕ)
    (capacity : ℕ) (timeout : Duration)
    → Keeps (PortOwns fixed H wave k) (tx H fuel E request response capacity timeout)
unfolding tx
Keeps-tx fixed H wave k fuel E request response capacity timeout =
    Keeps-bind _ _ _ (Keeps-assert _ _) λ _. Keeps-bind _ _ _ (Keeps-assert _ _) λ _.
      Keeps-bind _ _ _ (Keeps-assert _ _) λ _.
        Keeps-bind _ _ _
          (Keeps-encoded (SameBut fixed) (Owns H wave k) (SameBut-Unread fixed) request)
          λ bytes. Keeps-bind _ _ _ (Keeps-gets _ _) λ pin.
            Triple-bind (PortOwns fixed H wave k) (λ w. owned w) (λ _. PortOwns fixed H wave k)
              (PortOwns fixed H wave k) _ _
              (Triple-hw _ _ _ _ _ (Triple-mdb_wave_create H wave k pin bytes))
              λ w.
                Triple-with_drop (owned w) (PortOwns fixed H wave k) _ _
                  (λ p h. (drop_wave-Owns H wave k w p.history h.0, h.1))
                  (Keeps-exchange (SameBut fixed) (Owns H wave (k + one_if wave w.id))
                    (SameBut-Unread fixed) (Owns-Listening H wave _) (Owns-Quiet H wave _) H fuel E
                    w request response timeout)
  where
    owned : Wave → Port → Type 0
    owned w = PortOwns fixed H wave (k + one_if wave w.id)

-- However a transfer ends, by a success, an error or a panic, the program owns the waves that it
-- owned before: the wave of the request has been deleted. Of the driver only what its buffer holds
-- has changed.
pub tx-PortOwns :
    (H : Hardware) (wave k fuel : ℕ) (E : Env) (request response : List ℕ) (capacity : ℕ)
    (timeout : Duration) (p : Port)
    → Owns H wave k p.history
    → let (r, q) = tx H fuel E request response capacity timeout p in
      Post (λ _. PortOwns (without_buf p.mdb) H wave k) (PortOwns (without_buf p.mdb) H wave k) r q
tx-PortOwns H wave k fuel E request response capacity timeout p owned =
    (Keeps-tx (without_buf p.mdb) H wave k fuel E request response capacity timeout).at p
      (owned, refl)
