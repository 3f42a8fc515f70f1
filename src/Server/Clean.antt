-- ===== src/Server/Clean.antt =====
-- Rules for code on a session: who owns the waves of the open driver.
use vender.Prelude.{ℕ, ◌≡◌, refl, ap, String, Option, none, some, List}
use vender.Error.{Error, msg}
use vender.Exec.{Outcome, Exec, ok, err, panicked, out_of_fuel, gets, modify}
use vender.Exec.Keeps.{Post, Triple, Keeps, Keeps-bind, Keeps-fail}
use vender.Ffi.{History, Hardware}
use vender.Pigpio.Waves.{Owns}
use vender.Mdb.{GpioMdb}
use vender.Mdb.Driver.Waves.{held_by}
use vender.Mdb.Receive.{Port}
use vender.Mdb.Receive.Waves.{PortOwns, without_buf}
use vender.Server.{Session, hw, on_mdb, set_mdb, refuse, hardware_failure, answer}

-- How often the waves of the open driver have this id.
abbrev pub held : ℕ → Option GpioMdb → ℕ
held wave none = 0
held wave (some m) = held_by wave m

module _ (H : Hardware) (wave : ℕ) where
  -- The server owns the waves of its driver, and no others.
  abbrev pub IsClean : Session → Type 0
  IsClean s = Owns H wave (held wave s.server.mdb) s.history

  -- As `IsClean`, with the driver named.
  abbrev pub HasDriver : Option GpioMdb → Session → Type 0
  HasDriver o s = Owns H wave (held wave o) s.history × (s.server.mdb ≡ o)

  pub IsClean-of-HasDriver : (o : Option GpioMdb) (s : Session) → HasDriver o s → IsClean s
  IsClean-of-HasDriver o s (owned, same) = rw same owned

  -- A step that keeps the session clean, where the driver has a name.
  pub Triple-from :
      {A : Type 0} (o : Option GpioMdb) (m : Exec Session A)
      → Keeps IsClean m
      → Triple (HasDriver o) m (λ _. IsClean) IsClean
  Triple-from o m km = record { at = λ s h. km.at s (IsClean-of-HasDriver o s h) }

  pub Triple-driver : Triple IsClean (gets λ s. s.server.mdb) (λ o. HasDriver o) IsClean
  Triple-driver = record { at = λ s c. (c, refl) }

  -- A change that leaves the driver and the history alone.
  pub Keeps-response :
      (f : Session → Session)
      → ((s : Session) → ((f s).server.mdb ≡ s.server.mdb) × ((f s).history ≡ s.history))
      → Keeps IsClean (modify f)
  Keeps-response f same = record { at = λ s c. rw ((same s).0, (same s).1) c }

  pub Keeps-refuse : (text : String) → Keeps IsClean (refuse text)
  Keeps-refuse text =
      Keeps-bind _ _ _ (Keeps-response _ λ s. (refl, refl)) λ _. Keeps-fail _ (msg text)

  pub Keeps-hardware_failure : (e : Error) → Keeps IsClean (hardware_failure e)
  Keeps-hardware_failure e =
      Keeps-bind _ _ _ (Keeps-response _ λ s. (refl, refl)) λ _. Keeps-fail _ e

  pub Keeps-answer : (bytes : List ℕ) → Keeps IsClean (answer bytes)
  Keeps-answer bytes =
      Keeps-bind _ _ _ (Keeps-response _ λ s. (refl, refl)) λ _. Keeps-response _ λ s. (refl, refl)

  module _ {A : Type 0} (o : Option GpioMdb) (Q : A → History → Type 0) where
    Post-hw :
        (s : Session) (r : Outcome A) (h : History)
        → s.server.mdb ≡ o
        → Post Q (Owns H wave (held wave o)) r h
        → Post
            (λ a s'. Q a s'.history × (s'.server.mdb ≡ o))
            (HasDriver o)
            r
            (record s { history = h })
    Post-hw s (ok a) h same q = (q, same)
    Post-hw s (err _) h same q = (q, same)
    Post-hw s panicked h same q = (q, same)
    Post-hw s out_of_fuel h same q = tt

    pub Triple-hw :
        (m : Exec History A)
        → Triple (Owns H wave (held wave o)) m Q (Owns H wave (held wave o))
        → Triple (HasDriver o) (hw m) (λ a s. Q a s.history × (s.server.mdb ≡ o)) (HasDriver o)
    Triple-hw m km = record {
      at = λ s h. Post-hw s (m s.history).0 (m s.history).1 h.1 (km.at s.history h.0);
    }

  -- Failures of a step on a named driver leave the server clean.
  module _ {A : Type 0} (o : Option GpioMdb) (Q : A → Session → Type 0) where
    Post-weaken : (r : Outcome A) (s : Session) → Post Q (HasDriver o) r s → Post Q IsClean r s
    Post-weaken (ok a) s h = h
    Post-weaken (err _) s h = IsClean-of-HasDriver o s h
    Post-weaken panicked s h = IsClean-of-HasDriver o s h
    Post-weaken out_of_fuel s h = tt

    pub Triple-weaken :
        (m : Exec Session A)
        → Triple (HasDriver o) m Q (HasDriver o)
        → Triple (HasDriver o) m Q IsClean
    Triple-weaken m km = record { at = λ s h. Post-weaken (m s).0 (m s).1 (km.at s h) }

  held_by-without_buf :
      (m m' : GpioMdb) → without_buf m' ≡ without_buf m → held_by wave m' ≡ held_by wave m
  held_by-without_buf m m' e = ap (held_by wave) e

  -- What the driver `m` owns, while its buffer changes.
  abbrev pub Kept : GpioMdb → Port → Type 0
  Kept m = PortOwns (without_buf m) H wave (held_by wave m)

  module _ {A : Type 0} (m : GpioMdb) where
    Post-on_mdb :
        (s : Session) (r : Outcome A) (p : Port)
        → Post (λ _. Kept m) (Kept m) r p
        → Post (λ _. IsClean) IsClean r (record (set_mdb (some p.mdb) s) { history = p.history })
    Post-on_mdb s (ok a) p (owned, e) = rw (held_by-without_buf m p.mdb e) owned
    Post-on_mdb s (err _) p (owned, e) = rw (held_by-without_buf m p.mdb e) owned
    Post-on_mdb s panicked p (owned, e) = rw (held_by-without_buf m p.mdb e) owned
    Post-on_mdb s out_of_fuel p q = tt

    pub Triple-on_mdb :
        (action : Exec Port A)
        → Keeps (Kept m) action
        → Triple (HasDriver (some m)) (on_mdb m action) (λ _. IsClean) IsClean
    Triple-on_mdb action ka = record {
      at = λ s h.
          let p : Port = record { mdb = m; history = s.history } in
          Post-on_mdb s (action p).0 (action p).1 (ka.at p (h.0, refl));
    }
