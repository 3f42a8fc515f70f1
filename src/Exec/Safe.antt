-- ===== src/Exec/Safe.antt =====
-- Code that ends with a value or an error from any state.
use vender.Prelude.{Bool, true, false, if◌then◌else◌}
use vender.Error.{Error}
use vender.Exec.{
  Outcome, ok, err, panicked, out_of_fuel, Exec, ◌>>=◌, pure, fail, gets, or_drop, abandon,
}
use vender.Exec.Ends.{EndPost, Whatever, EndPost-continue}

-- Neither a panic nor a loop that has run out of its rounds, whatever the state.
pub record IsSafe {S A : Type 0} (m : Exec S A) : Type 0 where
  pub at : (s : S) → EndPost Whatever (m s).0 (m s).1

module _ {S A : Type 0} where
  pub IsSafe-pure : (a : A) → IsSafe {S = S} (pure a)
  IsSafe-pure a = record { at = λ s. tt }

  pub IsSafe-fail : (e : Error) → IsSafe {S = S} {A = A} (fail e)
  IsSafe-fail e = record { at = λ s. tt }

  pub IsSafe-gets : (f : S → A) → IsSafe (gets f)
  IsSafe-gets f = record { at = λ s. tt }

  pub IsSafe-if : (b : Bool) (m n : Exec S A) → IsSafe m → IsSafe n → IsSafe (if b then m else n)
  IsSafe-if true m n km kn = km
  IsSafe-if false m n km kn = kn

module _ {S A B : Type 0} where
  pub IsSafe-bind :
      (m : Exec S A) (f : A → Exec S B) → IsSafe m → ((a : A) → IsSafe (f a)) → IsSafe (m >>= f)
  unfolding ◌>>=◌
  IsSafe-bind m f km kf = record {
    at = λ s.
        EndPost-continue (λ s. Unit) Whatever Whatever f (λ a. record { at = λ s h. (kf a).at s })
          (m s).0 (m s).1 (km.at s);
  }

  EndPost-abandon :
      (free : Exec S B) (r : Outcome A) (s : S)
      → EndPost Whatever r s
      → EndPost Whatever (abandon r free s).0 (abandon r free s).1
  EndPost-abandon free (ok a) s h = tt
  EndPost-abandon free (err e) s h = tt
  EndPost-abandon free panicked s h = h
  EndPost-abandon free out_of_fuel s h = h

  pub IsSafe-or_drop : (free : Exec S B) (m : Exec S A) → IsSafe m → IsSafe (or_drop free m)
  IsSafe-or_drop free m km = record { at = λ s. EndPost-abandon free (m s).0 (m s).1 (km.at s) }

pub ruleset safe_rules =
    (IsSafe-pure, IsSafe-fail, IsSafe-gets, IsSafe-if, IsSafe-or_drop, IsSafe-bind)
