-- ===== src/Exec.antt =====
-- Rust code that changes a state `S` and may fail. `err` is a returned `Err`; `panicked` is an
-- unwinding panic; `out_of_fuel` says that a loop of the model ran out of its rounds. The state
-- comes back in every case, since what was done stays done.
pub mod Keeps
pub mod Ends
pub mod Gives
pub mod Safe
use vender.Prelude.{Bool, true, false, ◌⊎◌, inl, inr}
use vender.Error.{Error}

pub data Outcome (A : Type 0) : Type 0 where
  ok : A → Outcome A
  err : Error → Outcome A
  panicked : Outcome A
  out_of_fuel : Outcome A

abbrev pub Exec : Type 0 → Type 0 → Type 0
Exec S A = S → Outcome A × S

module _ {S A : Type 0} where
  abbrev pub pure : A → Exec S A
  pure a s = (ok a, s)

  -- `return Err(e)`
  abbrev pub fail : Error → Exec S A
  fail e s = (err e, s)

  abbrev pub panic : Exec S A
  panic s = (panicked, s)

  abbrev pub stuck : Exec S A
  stuck s = (out_of_fuel, s)

  abbrev pub gets : (S → A) → Exec S A
  gets f s = (ok (f s), s)

abbrev pub modify : {S : Type 0} → (S → S) → Exec S (Unit {0})
modify f s = (ok tt, f s)

-- `assert!`, and the bounds check of an index.
abbrev pub assert : {S : Type 0} → Bool → Exec S (Unit {0})
assert true s = (ok tt, s)
assert false s = (panicked, s)

module _ {S A B : Type 0} where
  -- What follows a step that gave this outcome: the `?` operator and unwinding.
  abbrev pub continue : Outcome A → (A → Exec S B) → Exec S B
  continue (ok a) f s = f a s
  continue (err e) f s = (err e, s)
  continue panicked f s = (panicked, s)
  continue out_of_fuel f s = (out_of_fuel, s)

  infixl 5 ◌>>=◌ ◌>>◌
  unfoldable pub ◌>>=◌ : Exec S A → (A → Exec S B) → Exec S B
  ◌>>=◌ m f s = let (r, s') = m s in continue r f s'

  abbrev pub ◌>>◌ : Exec S A → Exec S B → Exec S B
  m >> n = m >>= λ _. n

  -- A value that is dropped when `m` ends, by a return or by a panic. A loop that has not ended
  -- drops nothing.
  abbrev pub finalize : Outcome A → Exec S B → Exec S A
  finalize (ok a) free s = (ok a, (free s).1)
  finalize (err e) free s = (err e, (free s).1)
  finalize panicked free s = (panicked, (free s).1)
  finalize out_of_fuel free s = (out_of_fuel, s)

  abbrev pub with_drop : Exec S B → Exec S A → Exec S A
  with_drop free m s = let (r, s') = m s in finalize r free s'

module _ {S A B : Type 0} where
  -- A value that is dropped if `m` fails, and moved on if it does not.
  abbrev pub abandon : Outcome A → Exec S B → Exec S A
  abandon (ok a) free s = (ok a, s)
  abandon (err e) free s = (err e, (free s).1)
  abandon panicked free s = (panicked, (free s).1)
  abandon out_of_fuel free s = (out_of_fuel, s)

  abbrev pub or_drop : Exec S B → Exec S A → Exec S A
  or_drop free m s = let (r, s') = m s in abandon r free s'

-- `let _ = m;` for a result: what `m` did stays done.
abbrev pub ignore : {S A : Type 0} → Exec S A → Exec S (Unit {0})
ignore m s = (ok tt, (m s).1)

module _ {S A : Type 0} where
  -- `match` on a result: the error comes back as a value.
  abbrev pub caught : Outcome A → Exec S (Error ⊎ A)
  caught (ok a) s = (ok (inr a), s)
  caught (err e) s = (ok (inl e), s)
  caught panicked s = (panicked, s)
  caught out_of_fuel s = (out_of_fuel, s)

  abbrev pub attempt : Exec S A → Exec S (Error ⊎ A)
  attempt m s = let (r, s') = m s in caught r s'
