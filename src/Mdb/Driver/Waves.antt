-- ===== src/Mdb/Driver/Waves.antt =====
-- The waves of a driver, from `GpioMdb::new` to its drop.
use vender.Prelude.{ℕ, ◌+◌, List, Option, none, some, ◌≡◌, refl, arith}
use vender.Exec.{ok, ◌>>=◌}
use vender.Exec.Keeps.{
  Post, Triple, Triple-after, Triple-bind, Triple-or_drop, Keeps, Keeps-pure, Keeps-panic,
  keeps_rules,
}
use vender.Ffi.{History, Hardware}
use vender.Ffi.Waves.{one_if, created, deleted}
use vender.Pigpio.{check, drop_wave}
use vender.Pigpio.Quiet.{Keeps-check, Keeps-invoke, Keeps-invoke_word, quiet}
use vender.Pigpio.Waves.{Owns, Owns-Quiet, Triple-new_serial, drop_wave-Owns}
use vender.Mdb.{GpioMdb}
use vender.Mdb.Time.{Duration, duration_as_micros32}
use vender.Mdb.Bus.{mdb_wave_create}
use vender.Mdb.Driver.{Env, make, new, close, expect, drop_mdb, bus_reset}

-- How often the two waves of a driver have this id.
abbrev pub held_by : ℕ → GpioMdb → ℕ
held_by wave m = one_if wave m.wave_ack.id + one_if wave m.wave_nak.id

module _ (H : Hardware) (wave k : ℕ) where
  pub Triple-mdb_wave_create :
      (pin : ℕ) (s : List ℕ)
      → Triple
          (Owns H wave k)
          (mdb_wave_create H pin s)
          (λ w. Owns H wave (k + one_if wave w.id))
          (Owns H wave k)
  unfolding mdb_wave_create
  Triple-mdb_wave_create pin s = search Triple-new_serial

  pub Keeps-close : (m : GpioMdb) → Keeps (Owns H wave k) (close H m)
  unfolding close
  Keeps-close m = search (keeps_rules, Keeps-invoke, Keeps-check, Owns-Quiet, quiet) depth 8

  pub Keeps-duration : (d : Duration) → Keeps (Owns H wave k) (duration_as_micros32 d)
  unfolding duration_as_micros32 ◌>>=◌
  Keeps-duration d = record { at = λ s p. ground arith }

  pub Keeps-bus_reset : (m : GpioMdb) (d : Duration) → Keeps (Owns H wave k) (bus_reset H m d)
  unfolding bus_reset
  Keeps-bus_reset m d =
      search
        (
          keeps_rules, Keeps-invoke, Keeps-invoke_word, Keeps-check, Keeps-duration, Owns-Quiet,
          quiet,
        )
        depth 8

module _ (H : Hardware) (wave k : ℕ) where
  Keeps-expect : (o : Option ℕ) → Keeps (Owns H wave k) (expect o)
  Keeps-expect none = Keeps-panic _
  Keeps-expect (some n) = Keeps-pure _ n

  -- A driver that was made owns both its waves, and a failure leaves none behind.
  Triple-make :
      (E : Env) (wait_step rx_pin tx_pin : ℕ)
      → Triple
          (Owns H wave k)
          (make H E wait_step rx_pin tx_pin)
          (λ m. Owns H wave (k + held_by wave m))
          (Owns H wave k)
  unfolding make
  Triple-make E wait_step rx_pin tx_pin =
      Triple-bind (Owns H wave k) (λ w. Owns H wave (k + one_if wave w.id))
        (λ m. Owns H wave (k + held_by wave m)) (Owns H wave k) _ _
        (Triple-mdb_wave_create H wave k tx_pin _)
        λ ack.
          let owned = k + one_if wave ack.id in
          Triple-bind (Owns H wave owned) (λ nak. Owns H wave (owned + one_if wave nak.id))
            (λ m. Owns H wave (k + held_by wave m)) (Owns H wave k) _ _
            (Triple-or_drop (Owns H wave owned) (Owns H wave k) _ _ _
              (λ h p. drop_wave-Owns H wave k ack h p)
              (Triple-mdb_wave_create H wave owned tx_pin _))
            λ nak. record { at = λ h p. omega arith }

  -- As `Triple-make`, for the whole of `GpioMdb::new`.
  pub Triple-new :
      (E : Env) (rx_pin tx_pin : ℕ)
      → Triple
          (Owns H wave k)
          (new H E rx_pin tx_pin)
          (λ m. Owns H wave (k + held_by wave m))
          (Owns H wave k)
  unfolding new
  Triple-new E rx_pin tx_pin =
      search (Triple-after, Triple-make, Keeps-expect, Keeps-invoke, Keeps-check, Owns-Quiet, quiet)
        depth 12

-- A driver that `new` returns owns its two waves, on top of those that were owned before. After an
-- error or a panic none is left behind.
pub new-Owns :
    (H : Hardware) (wave k : ℕ) (E : Env) (rx_pin tx_pin : ℕ) (h : History)
    → Owns H wave k h
    → let (r, h') = new H E rx_pin tx_pin h in
      Post (λ m. Owns H wave (k + held_by wave m)) (Owns H wave k) r h'
new-Owns H wave k E rx_pin tx_pin h owned = (Triple-new H wave k E rx_pin tx_pin).at h owned

close-Owns :
    (H : Hardware) (wave k : ℕ) (m : GpioMdb) (h : History)
    → Owns H wave k h
    → Owns H wave k (close H m h).1
unfolding close check created deleted ◌>>=◌
close-Owns H wave k m h p = ground arith

-- If the program owns the two waves of a driver on top of others, then the drop of the driver
-- leaves the others: it deletes both, also where closing the pin fails.
pub drop_mdb-Owns :
    (H : Hardware) (wave k : ℕ) (m : GpioMdb) (h : History)
    → Owns H wave (k + held_by wave m) h
    → Owns H wave k (drop_mdb H m h).1
unfolding drop_mdb drop_wave ◌>>=◌
drop_mdb-Owns H wave k m h p = drop_wave-Owns H wave k m.wave_nak _ (
    drop_wave-Owns H wave (k + one_if wave m.wave_nak.id) m.wave_ack _
      (omega (arith, close-Owns H wave (k + held_by wave m) m h p)))

pub drop_mdb-ok : (H : Hardware) (m : GpioMdb) (h : History) → (drop_mdb H m h).0 ≡ ok tt
unfolding drop_mdb drop_wave ◌>>=◌
drop_mdb-ok H m h = refl
