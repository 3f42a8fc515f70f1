-- ===== src/Mdb/Transfer/Sized.antt =====
-- The buffer of a driver has its size from `GpioMdb::new` on, and `tx` keeps it.
use vender.Prelude.{ℕ, ◌≡◌, List, length}
use vender.Exec.{Outcome, Exec, ok, err, panicked, out_of_fuel}
use vender.Exec.Keeps.{
  Post, Triple, Triple-after, Keeps, Keeps-bind, Keeps-assert, Keeps-gets, Triple-with_drop,
  Anything,
}
use vender.Ffi.{History, Hardware}
use vender.Pigpio.Quiet.{Quiet}
use vender.Mdb.{GpioMdb, buf_size}
use vender.Mdb.Time.{Duration}
use vender.Mdb.Driver.{Env, make, new}
use vender.Mdb.Receive.{Port}
use vender.Mdb.Receive.Stream.{IsFull, IsFull-Unread}
use vender.Mdb.Receive.Quiet.{AtPort, Listening, Unread, Keeps-hw}
use vender.Mdb.Transfer.{tx}
use vender.Mdb.Transfer.Quiet.{Keeps-encoded, Keeps-exchange}

Anything-Quiet : Quiet Anything
Anything-Quiet = record { keeps = λ c h n p. tt }

Anything-Listening : Listening Anything
Anything-Listening = record { keeps = λ c h n p. tt }

Post-Anything : {S A : Type 0} (r : Outcome A) (s : S) → Post (λ _. Anything) Anything r s
Post-Anything (ok a) s = tt
Post-Anything (err e) s = tt
Post-Anything panicked s = tt
Post-Anything out_of_fuel s = tt

pub Keeps-Anything : {S A : Type 0} (m : Exec S A) → Keeps Anything m
Keeps-Anything m = record { at = λ s h. Post-Anything (m s).0 (m s).1 }

abbrev pub FullPort : Port → Type 0
FullPort = AtPort IsFull Anything

-- What holds of the driver whatever its buffer holds, `tx` keeps.
pub Keeps-tx_unread :
    (I : GpioMdb → Type 0) (u : Unread I) (H : Hardware) (fuel : ℕ) (E : Env)
    (request response : List ℕ) (capacity : ℕ) (timeout : Duration)
    → Keeps (AtPort I Anything) (tx H fuel E request response capacity timeout)
unfolding tx
Keeps-tx_unread I u H fuel E request response capacity timeout =
    Keeps-bind _ _ _ (Keeps-assert _ _) λ _. Keeps-bind _ _ _ (Keeps-assert _ _) λ _.
      Keeps-bind _ _ _ (Keeps-assert _ _) λ _.
        Keeps-bind _ _ _ (Keeps-encoded I Anything u request) λ bytes.
          Keeps-bind _ _ _ (Keeps-gets _ _) λ pin.
            Keeps-bind _ _ _ (Keeps-hw I Anything _ (Keeps-Anything _)) λ w.
              Triple-with_drop (AtPort I Anything) (AtPort I Anything) _ _ (λ p h. h)
                (Keeps-exchange I Anything u Anything-Listening Anything-Quiet H fuel E w request
                  response timeout)

pub Keeps-tx_full :
    (H : Hardware) (fuel : ℕ) (E : Env) (request response : List ℕ) (capacity : ℕ)
    (timeout : Duration)
    → Keeps FullPort (tx H fuel E request response capacity timeout)
Keeps-tx_full = Keeps-tx_unread IsFull IsFull-Unread

-- What the stack leaves in the buffer is an array of its size.
abbrev pub Sized : Env → Type 0
Sized E = (h : History) → length (E.uninitialized h) ≡ buf_size

module _ (H : Hardware) (E : Env) (sized : Sized E) where
  abbrev Made : GpioMdb → History → Type 0
  Made m h = IsFull m

  Triple-make_full :
      (wait_step rx_pin tx_pin : ℕ)
      → Triple Anything (make H E wait_step rx_pin tx_pin) Made Anything
  unfolding make
  Triple-make_full wait_step rx_pin tx_pin =
      Triple-after Anything Made _ _ (Keeps-Anything _) λ ack.
        Triple-after Anything Made _ _ (Keeps-Anything _) λ nak. record { at = λ h p. sized h }

  pub Triple-new_full : (rx_pin tx_pin : ℕ) → Triple Anything (new H E rx_pin tx_pin) Made Anything
  unfolding new
  Triple-new_full rx_pin tx_pin = search (Triple-after, Triple-make_full, Keeps-Anything) depth 12
