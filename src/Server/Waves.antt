-- ===== src/Server/Waves.antt =====
-- Who owns which waves, over `exec`.
use vender.Prelude.{arith, ℕ, ◌+◌, ◌≡◌, refl, ◌⊎◌, inl, inr, Option, none, some, List, [], ◌∷◌}
use vender.Error.{Error}
use vender.Exec.{Exec, gets, modify, attempt, ◌>>=◌}
use vender.Exec.Keeps.{
  Post, Triple, Triple-bind, Triple-attempt, Triple-if, EitherPost, Keeps, Keeps-bind,
}
use vender.Ffi.{Hardware}
use vender.Pigpio.Waves.{Owns}
use vender.Mdb.{GpioMdb}
use vender.Mdb.Driver.{Env}
use vender.Mdb.Driver.Waves.{held_by, Triple-new, drop_mdb-Owns, drop_mdb-ok, Keeps-bus_reset}
use vender.Mdb.Receive.Waves.{without_buf}
use vender.Mdb.Transfer.Waves.{Keeps-tx}
use vender.Server.{
  Request, mdb_open, mdb_reset, mdb_tx, stop, Command, ok_status, Session, set_status, with_driver,
  on_result, drop_opened, release, open_pins, reset, transmit, assert_status, exec,
}
use vender.Server.Clean.{
  IsClean, HasDriver, Triple-from, Triple-driver, Keeps-response, Keeps-refuse,
  Keeps-hardware_failure, Keeps-answer, Triple-hw, Triple-weaken, Triple-on_mdb,
}

module _ (H : Hardware) (wave : ℕ) where
  Keeps-on_result :
      {A : Type 0} (Q : A → Session → Type 0) (r : Error ⊎ A) (go_on : A → Exec Session (Unit {0}))
      → ((a : A) → Triple (Q a) (go_on a) (λ _. IsClean H wave) (IsClean H wave))
      → Triple
          (EitherPost Q (IsClean H wave) r)
          (on_result r go_on)
          (λ _. IsClean H wave)
          (IsClean H wave)
  Keeps-on_result Q (inl e) go_on kgo = Keeps-hardware_failure H wave e
  Keeps-on_result Q (inr a) go_on kgo = kgo a

  -- A method of the driver under `attempt`, and what follows it.
  Triple-attempted :
      {A : Type 0} (o : Option GpioMdb) (Q : A → Session → Type 0) (m : Exec Session A)
      (go_on : A → Exec Session (Unit {0}))
      → Triple (HasDriver H wave o) m Q (IsClean H wave)
      → ((a : A) → Triple (Q a) (go_on a) (λ _. IsClean H wave) (IsClean H wave))
      → Triple
          (HasDriver H wave o)
          (attempt m >>= λ r. on_result r go_on)
          (λ _. IsClean H wave)
          (IsClean H wave)
  Triple-attempted o Q m go_on km kgo =
      Triple-bind (HasDriver H wave o) (EitherPost Q (IsClean H wave)) (λ _. IsClean H wave)
        (IsClean H wave) _ _ (Triple-attempt Q (IsClean H wave) (HasDriver H wave o) m km)
        λ r. Keeps-on_result Q r go_on kgo

  Triple-with_driver :
      (o : Option GpioMdb) (use_it : GpioMdb → Exec Session (Unit {0}))
      → ((m : GpioMdb)
          → Triple (HasDriver H wave (some m)) (use_it m) (λ _. IsClean H wave) (IsClean H wave))
      → Triple (HasDriver H wave o) (with_driver o use_it) (λ _. IsClean H wave) (IsClean H wave)
  Triple-with_driver none use_it k = Triple-from H wave none _ (Keeps-refuse H wave _)
  Triple-with_driver (some m) use_it k = k m

  Keeps-opened :
      (f : Option GpioMdb → Exec Session (Unit {0}))
      → ((o : Option GpioMdb)
          → Triple (HasDriver H wave o) (f o) (λ _. IsClean H wave) (IsClean H wave))
      → Keeps (IsClean H wave) (gets (λ s. s.server.mdb) >>= f)
  Keeps-opened f kf =
      Triple-bind (IsClean H wave) (HasDriver H wave) (λ _. IsClean H wave) (IsClean H wave) _ f
        (Triple-driver H wave) kf

  Keeps-ok : Keeps (IsClean H wave) (modify (set_status ok_status))
  Keeps-ok = Keeps-response H wave _ λ s. (refl, refl)

  Keeps-reset : (E : Env) (fuel arg_uint : ℕ) → Keeps (IsClean H wave) (reset H E fuel arg_uint)
  unfolding reset
  Keeps-reset E fuel arg_uint = Keeps-opened _ λ o. Triple-with_driver o _ λ m.
      Triple-attempted (some m) (λ _. HasDriver H wave (some m)) _ _
        (Triple-weaken H wave (some m) _ _
          (Triple-hw H wave (some m) _ _ (Keeps-bus_reset H wave _ m _)))
        λ _. Triple-from H wave (some m) _ Keeps-ok

  Keeps-transmit :
      (E : Env) (fuel : ℕ) (bytes : List ℕ) → Keeps (IsClean H wave) (transmit H E fuel bytes)
  unfolding transmit
  Keeps-transmit E fuel bytes = Keeps-opened _ λ o. Triple-with_driver o _ λ m.
      Triple-bind (HasDriver H wave (some m)) (λ _. HasDriver H wave (some m)) (λ _. IsClean H wave)
        (IsClean H wave) _ _ (record { at = λ s h. h })
        λ mock.
          Triple-if _ _ _ mock _ _ (λ _. Triple-from H wave (some m) _ (Keeps-answer H wave bytes))
            (λ _.
              Triple-attempted (some m) (λ _. IsClean H wave) _ _
                (Triple-on_mdb H wave m _
                  (Keeps-tx (without_buf m) H wave (held_by wave m) fuel E bytes [] _ _))
                (Keeps-answer H wave))

  Keeps-open_pins :
      (E : Env) (fuel : ℕ) (bytes : List ℕ)
      → Triple
          (HasDriver H wave none)
          (open_pins H E fuel bytes)
          (λ _. IsClean H wave)
          (IsClean H wave)
  unfolding open_pins
  Keeps-open_pins E fuel (rx ∷ tx ∷ []) =
      Triple-attempted none made _ _
        (Triple-weaken H wave none _ _ (Triple-hw H wave none _ _ (Triple-new H wave 0 E rx tx)))
        λ m.
          Triple-bind (made m) (λ _. IsClean H wave) (λ _. IsClean H wave) (IsClean H wave) _ _
            (record { at = λ s h. omega (arith, h.0) }) λ _. Keeps-ok
    where
      made : GpioMdb → Session → Type 0
      made m s = Owns H wave (0 + held_by wave m) s.history × (s.server.mdb ≡ none)
  Keeps-open_pins E fuel _ = Triple-from H wave none _ (Keeps-refuse H wave _)

  Triple-drop_opened :
      (o : Option GpioMdb)
      → Triple
          (HasDriver H wave o)
          (drop_opened H o)
          (λ _ s. Owns H wave 0 s.history)
          (IsClean H wave)
  Triple-drop_opened none = record { at = λ s h. h.0 }
  Triple-drop_opened (some m) = record {
    at = λ s h.
        rw (drop_mdb-ok H m s.history) (drop_mdb-Owns H wave 0 m s.history (omega (arith, h.0)));
  }

  Triple-release : Triple (IsClean H wave) (release H) (λ _. HasDriver H wave none) (IsClean H wave)
  unfolding release
  Triple-release =
      Triple-bind (IsClean H wave) (HasDriver H wave) (λ _. HasDriver H wave none) (IsClean H wave)
        _ _ (Triple-driver H wave)
        λ o.
          Triple-bind (HasDriver H wave o) (λ _ s. Owns H wave 0 s.history)
            (λ _. HasDriver H wave none) (IsClean H wave) _ _ (Triple-drop_opened o)
            λ _. record { at = λ s h. (h, refl) }

  Keeps-assert_status : Keeps (IsClean H wave) assert_status
  unfolding assert_status
  Keeps-assert_status = record { at = λ s h. ground arith }

  pub Keeps-exec :
      (E : Env) (fuel : ℕ) (request : Request) → Keeps (IsClean H wave) (exec H E fuel request)
  unfolding exec
  Keeps-exec E fuel request =
      elim request.command
        as (λ c. Keeps (IsClean H wave) (exec H E fuel (record request { command = c }))) [
          | Command.invalid ↦ Keeps-refuse H wave _
          | mdb_open ↦
              Triple-bind (IsClean H wave) (λ _. HasDriver H wave none) (λ _. IsClean H wave)
                (IsClean H wave) _ _ Triple-release
                λ _.
                  Triple-bind (HasDriver H wave none) (λ _. IsClean H wave) (λ _. IsClean H wave)
                    (IsClean H wave) _ _ (Keeps-open_pins E fuel request.arg_bytes)
                    λ _. Keeps-assert_status
          | mdb_reset ↦
              Keeps-bind _ _ _ (Keeps-reset E fuel request.arg_uint) λ _. Keeps-assert_status
          | mdb_tx ↦
              Keeps-bind _ _ _ (Keeps-transmit E fuel request.arg_bytes) λ _. Keeps-assert_status
          | stop ↦ Keeps-response H wave _ λ s. (refl, refl)
        ]

  -- If the server owns the waves of its driver and no others, then so it does after `exec`,
  -- whatever the request is, however the hardware answers it, and whether `exec` returns, fails or
  -- panics.
  pub exec-IsClean :
      (E : Env) (fuel : ℕ) (request : Request) (s : Session)
      → IsClean H wave s
      → let (r, s') = exec H E fuel request s in Post (λ _. IsClean H wave) (IsClean H wave) r s'
  exec-IsClean E fuel request s h = (Keeps-exec E fuel request).at s h
