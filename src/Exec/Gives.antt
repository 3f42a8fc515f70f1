-- ===== src/Exec/Gives.antt =====
-- Runs that return: from this state, with this value, to that state.
use vender.Prelude.{◌≡◌, refl, ◌∙◌, Bool, true}
use vender.Error.{Error}
use vender.Exec.{Outcome, panicked, out_of_fuel, ok, err, Exec, ◌>>=◌, with_drop, finalize, assert}
use vender.Exec.Keeps.{Post, Keeps, bind-ok}
use vender.Exec.Ends.{EndPost}

module _ {S A : Type 0} where
  abbrev pub Gives : Exec S A → S → A → S → Type 0
  Gives m s a s' = m s ≡ (ok a, s')

  -- The same of any outcome.
  abbrev pub Yields : Exec S A → S → Outcome A → S → Type 0
  Yields m s r s' = m s ≡ (r, s')

  -- What is known of the outcome and the state, where the outcome is known.
  pub Post-at_ok :
      (Q : A → S → Type 0) (R : S → Type 0) (r : Outcome A) (s : S) {a : A}
      → r ≡ ok a
      → Post Q R r s
      → Q a s
  Post-at_ok Q R r s e h = rw e at h

  pub Post-at_err :
      (Q : A → S → Type 0) (R : S → Type 0) (r : Outcome A) (s : S) {e : Error}
      → r ≡ err e
      → Post Q R r s
      → R s
  Post-at_err Q R r s failed h = rw failed at h

  pub EndPost-at_ok :
      (Q : A → S → Type 0) (r : Outcome A) (s : S) {a : A} → r ≡ ok a → EndPost Q r s → Q a s
  EndPost-at_ok Q r s e h = rw e at h

  -- An invariant holds where a run that keeps it has led.
  pub Keeps-Gives :
      (P : S → Type 0) (m : Exec S A) {s s' : S} {a : A} → Keeps P m → Gives m s a s' → P s → P s'
  Keeps-Gives P m {s} km e h = rw e at (km.at s h)

module _ {S A B : Type 0} where
  pub Gives-bind :
      (m : Exec S A) (f : A → Exec S B) {s s' s'' : S} {a : A} {r : Outcome B}
      → Gives m s a s'
      → Yields (f a) s' r s''
      → Yields (m >>= f) s r s''
  Gives-bind m f {s} e e' = bind-ok m f s e ∙ e'

  finalize-Yields :
      (free : Exec S B) (r : Outcome A) (s : S) → (s' : S) × (finalize r free s ≡ (r, s'))
  finalize-Yields free (ok a) s = ((free s).1, refl)
  finalize-Yields free (err e) s = ((free s).1, refl)
  finalize-Yields free panicked s = ((free s).1, refl)
  finalize-Yields free out_of_fuel s = (s, refl)

  pub Yields-with_drop :
      (free : Exec S B) (m : Exec S A) {s s' : S} {r : Outcome A}
      → Yields m s r s'
      → (s'' : S) × Yields (with_drop free m) s r s''
  Yields-with_drop free m {s' = s'} {r} e =
      let (s'', freed) = finalize-Yields free r s' in (s'', rw e freed)

pub Gives-assert : {S : Type 0} (b : Bool) (s : S) → b ≡ true → Gives (assert b) s tt s
Gives-assert b s e = rw e refl
