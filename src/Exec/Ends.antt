-- ===== src/Exec/Ends.antt =====
-- Total correctness: code that ends with a value or an error, without a panic.
use vender.Prelude.{◌≡◌, refl, Bool, true, false, if◌then◌else◌}
use vender.Error.{Error}
use vender.Exec.{
  Outcome, ok, err, panicked, out_of_fuel, Exec, continue, ◌>>=◌, finalize, with_drop, gets, fail,
}

-- `Q` of the value and the state after a return, nothing of the state after an `Err`, and neither a
-- panic nor a loop that has run out of its rounds.
abbrev pub EndPost : {S A : Type 0} → (A → S → Type 0) → Outcome A → S → Type 0
EndPost Q (ok a) s = Q a s
EndPost Q (err e) s = Unit
EndPost Q panicked s = ⊥
EndPost Q out_of_fuel s = ⊥

pub record Ends {S A : Type 0} (P : S → Type 0) (m : Exec S A) (Q : A → S → Type 0) : Type 0 where
  pub at : (s : S) → P s → EndPost Q (m s).0 (m s).1

module _ {S A B : Type 0} (P : S → Type 0) (Q : A → S → Type 0) (Q' : B → S → Type 0) where
  pub EndPost-continue :
      (f : A → Exec S B)
      → ((a : A) → Ends (Q a) (f a) Q')
      → (r : Outcome A) (s : S) → EndPost Q r s
      → EndPost Q' (continue r f s).0 (continue r f s).1
  EndPost-continue f kf (ok a) s h = (kf a).at s h
  EndPost-continue f kf (err e) s h = tt
  EndPost-continue f kf panicked s h = h
  EndPost-continue f kf out_of_fuel s h = h

  pub Ends-bind :
      (m : Exec S A) (f : A → Exec S B)
      → Ends P m Q
      → ((a : A) → Ends (Q a) (f a) Q')
      → Ends P (m >>= f) Q'
  unfolding ◌>>=◌
  Ends-bind m f km kf = record { at = λ s h. EndPost-continue f kf (m s).0 (m s).1 (km.at s h) }

-- Consequence.
module _ {S A : Type 0} (Q Q' : A → S → Type 0) where
  pub EndPost-weaken :
      ((a : A) (s : S) → Q a s → Q' a s) → (r : Outcome A) (s : S) → EndPost Q r s → EndPost Q' r s
  EndPost-weaken wq (ok a) s h = wq a s h
  EndPost-weaken wq (err e) s h = tt
  EndPost-weaken wq panicked s h = h
  EndPost-weaken wq out_of_fuel s h = h

module _ {S A : Type 0} (P P' : S → Type 0) (Q Q' : A → S → Type 0) where
  pub Ends-weaken :
      (m : Exec S A)
      → ((s : S) → P s → P' s)
      → ((a : A) (s : S) → Q a s → Q' a s)
      → Ends P' m Q
      → Ends P m Q'
  Ends-weaken m wp wq km = record {
    at = λ s h. EndPost-weaken Q Q' wq (m s).0 (m s).1 (km.at s (wp s h));
  }

module _ {S A : Type 0} (P : S → Type 0) (Q : A → S → Type 0) where
  pub Ends-if :
      (b : Bool) (m n : Exec S A)
      → (b ≡ true → Ends P m Q)
      → (b ≡ false → Ends P n Q)
      → Ends P (if b then m else n) Q
  Ends-if true m n km kn = km refl
  Ends-if false m n km kn = kn refl

-- Nothing is asked of the value and the state at the end.
abbrev pub Whatever : {S A : Type 0} → A → S → Type 0
Whatever a s = Unit

module _ {S A : Type 0} (P : S → Type 0) where
  pub Ends-gets : (f : S → A) → Ends P (gets f) (λ _. P)
  Ends-gets f = record { at = λ s h. h }

  pub Ends-fail : (Q : A → S → Type 0) (e : Error) → Ends P (fail {A = A} e) Q
  Ends-fail Q e = record { at = λ s h. tt }

  -- A fact that a precondition holds.
  pub Ends_assuming :
      (F : Type 0) (Q : A → S → Type 0) (m : Exec S A) → (F → Ends P m Q) → Ends (λ s. F × P s) m Q
  Ends_assuming F Q m km = record { at = λ s h. (km h.0).at s h.1 }

-- A value that is dropped at the end.
module _ {S A B : Type 0} (P : S → Type 0) (free : Exec S B) where
  EndPost-finalize :
      (r : Outcome A) (s : S)
      → EndPost Whatever r s
      → EndPost Whatever (finalize r free s).0 (finalize r free s).1
  EndPost-finalize (ok a) s h = tt
  EndPost-finalize (err e) s h = tt
  EndPost-finalize panicked s h = h
  EndPost-finalize out_of_fuel s h = h

  pub Ends-with_drop : (m : Exec S A) → Ends P m Whatever → Ends P (with_drop free m) Whatever
  Ends-with_drop m km = record { at = λ s h. EndPost-finalize (m s).0 (m s).1 (km.at s h) }
