-- ===== src/Exec/Keeps.antt =====
-- Invariants of state-changing code: a rule for each way to build it.
use vender.Prelude.{◌≡◌, refl, ◌⊎◌, inl, inr, Bool, true, false, if◌then◌else◌}
use vender.Error.{Error}
use vender.Exec.{
  Outcome, ok, err, panicked, out_of_fuel, Exec, pure, fail, panic, stuck, gets, assert, continue,
  ◌>>=◌, finalize, with_drop, abandon, or_drop, caught, attempt,
}

-- `Q` of the value and the state after a return, `R` of the state after an `Err` or a panic, and
-- nothing of a loop of the model that has not ended.
abbrev pub Post : {S A : Type 0} → (A → S → Type 0) → (S → Type 0) → Outcome A → S → Type 0
Post Q R (ok a) s = Q a s
Post Q R (err e) s = R s
Post Q R panicked s = R s
Post Q R out_of_fuel s = Unit

pub record Triple {S A : Type 0} (P : S → Type 0) (m : Exec S A) (Q : A → S → Type 0)
    (R : S → Type 0) : Type 0 where
  pub at : (s : S) → P s → Post Q R (m s).0 (m s).1

-- However `m` ends, `P` holds after it if it held before.
abbrev pub Keeps : {S A : Type 0} → (S → Type 0) → Exec S A → Type 0
Keeps P m = Triple P m (λ _. P) P

module _ {S A : Type 0} (P : S → Type 0) where
  pub Keeps-pure : (a : A) → Keeps P (pure a)
  Keeps-pure a = record { at = λ s h. h }

  pub Keeps-fail : (e : Error) → Keeps P (fail {A = A} e)
  Keeps-fail e = record { at = λ s h. h }

  pub Keeps-panic : Keeps P (panic {A = A})
  Keeps-panic = record { at = λ s h. h }

  pub Keeps-stuck : Keeps P (stuck {A = A})
  Keeps-stuck = record { at = λ s h. tt }

  pub Keeps-gets : (f : S → A) → Keeps P (gets f)
  Keeps-gets f = record { at = λ s h. h }

  pub Keeps-if : (b : Bool) (m n : Exec S A) → Keeps P m → Keeps P n → Keeps P (if b then m else n)
  Keeps-if true m n km kn = km
  Keeps-if false m n km kn = kn

module _ {S : Type 0} (P : S → Type 0) where
  pub Keeps-assert : (b : Bool) → Keeps P (assert b)
  Keeps-assert true = record { at = λ s h. h }
  Keeps-assert false = record { at = λ s h. h }

module _ {S A B : Type 0} (P : S → Type 0) (Q : A → S → Type 0) (Q' : B → S → Type 0)
    (R : S → Type 0) where
  Post-continue :
      (f : A → Exec S B)
      → ((a : A) → Triple (Q a) (f a) Q' R)
      → (r : Outcome A) (s : S) → Post Q R r s
      → Post Q' R (continue r f s).0 (continue r f s).1
  Post-continue f kf (ok a) s h = (kf a).at s h
  Post-continue f kf (err e) s h = h
  Post-continue f kf panicked s h = h
  Post-continue f kf out_of_fuel s h = tt

  pub Triple-bind :
      (m : Exec S A) (f : A → Exec S B)
      → Triple P m Q R
      → ((a : A) → Triple (Q a) (f a) Q' R)
      → Triple P (m >>= f) Q' R
  unfolding ◌>>=◌
  Triple-bind m f km kf = record { at = λ s h. Post-continue f kf (m s).0 (m s).1 (km.at s h) }

module _ {S A B : Type 0} (P : S → Type 0) where
  pub Keeps-bind :
      (m : Exec S A) (f : A → Exec S B) → Keeps P m → ((a : A) → Keeps P (f a)) → Keeps P (m >>= f)
  Keeps-bind m f km kf = Triple-bind P (λ _. P) (λ _. P) P m f km kf

-- A first step that keeps `P`, before one that does more.
module _ {S A B : Type 0} (P : S → Type 0) (Q : B → S → Type 0) where
  pub Triple-after :
      (m : Exec S A) (f : A → Exec S B)
      → Keeps P m
      → ((a : A) → Triple P (f a) Q P)
      → Triple P (m >>= f) Q P
  Triple-after m f km kf = Triple-bind P (λ _. P) Q P m f km kf

module _ {S A : Type 0} (P : S → Type 0) (Q : A → S → Type 0) (R : S → Type 0) where
  pub Triple-if :
      (b : Bool) (m n : Exec S A)
      → (b ≡ true → Triple P m Q R)
      → (b ≡ false → Triple P n Q R)
      → Triple P (if b then m else n) Q R
  Triple-if true m n km kn = km refl
  Triple-if false m n km kn = kn refl

-- A first step whose result is known.
pub bind-ok :
    {S A B : Type 0} (m : Exec S A) (f : A → Exec S B) (s : S) {a : A} {s' : S}
    → m s ≡ (ok a, s')
    → (m >>= f) s ≡ f a s'
unfolding ◌>>=◌
bind-ok m f s e = rw e

-- Consequence.
module _ {S A : Type 0} (P P' : S → Type 0) (Q Q' : A → S → Type 0) (R R' : S → Type 0) where
  pub Post-weaken :
      ((a : A) (s : S) → Q a s → Q' a s)
      → ((s : S) → R s → R' s)
      → (r : Outcome A) (s : S) → Post Q R r s
      → Post Q' R' r s
  Post-weaken wq wr (ok a) s h = wq a s h
  Post-weaken wq wr (err _) s h = wr s h
  Post-weaken wq wr panicked s h = wr s h
  Post-weaken wq wr out_of_fuel s h = tt

  pub Triple-weaken :
      (m : Exec S A)
      → ((s : S) → P s → P' s)
      → ((a : A) (s : S) → Q a s → Q' a s)
      → ((s : S) → R s → R' s)
      → Triple P' m Q R
      → Triple P m Q' R'
  Triple-weaken m wp wq wr km = record {
    at = λ s h. Post-weaken wq wr (m s).0 (m s).1 (km.at s (wp s h));
  }

-- Nothing is claimed of a failure.
abbrev pub Anything : {S : Type 0} → S → Type 0
Anything s = Unit

module _ {S A : Type 0} (P : S → Type 0) where
  pub Triple-kept : (m : Exec S A) → Keeps P m → Triple P m (λ _. P) Anything
  Triple-kept m km =
      Triple-weaken P P (λ _. P) (λ _. P) P Anything m (λ s h. h) (λ a s h. h) (λ s h. tt) km

-- A value that is dropped at the end: `I` holds while it lives, and `P` once it is dropped.
module _ {S A B : Type 0} (I P : S → Type 0) (free : Exec S B) where
  Post-finalize :
      ((s : S) → I s → P (free s).1)
      → (r : Outcome A) (s : S) → Post (λ _. I) I r s
      → Post (λ _. P) P (finalize r free s).0 (finalize r free s).1
  Post-finalize drops (ok a) s h = drops s h
  Post-finalize drops (err e) s h = drops s h
  Post-finalize drops panicked s h = drops s h
  Post-finalize drops out_of_fuel s h = tt

  pub Triple-with_drop :
      (m : Exec S A)
      → ((s : S) → I s → P (free s).1)
      → Keeps I m
      → Triple I (with_drop free m) (λ _. P) P
  Triple-with_drop m drops km = record {
    at = λ s h. Post-finalize drops (m s).0 (m s).1 (km.at s h);
  }

-- As `Triple-with_drop`, for promises that the drop keeps.
module _ {S A B : Type 0} (I : S → Type 0) (Q : A → S → Type 0) (R : S → Type 0)
    (free : Exec S B) where
  Post-finalize_both :
      ((a : A) (s : S) → Q a s → Q a (free s).1)
      → ((s : S) → R s → R (free s).1)
      → (r : Outcome A) (s : S) → Post Q R r s
      → Post Q R (finalize r free s).0 (finalize r free s).1
  Post-finalize_both drops fails (ok a) s h = drops a s h
  Post-finalize_both drops fails (err e) s h = fails s h
  Post-finalize_both drops fails panicked s h = fails s h
  Post-finalize_both drops fails out_of_fuel s h = tt

  pub Triple-with_drop_both :
      (m : Exec S A)
      → ((a : A) (s : S) → Q a s → Q a (free s).1)
      → ((s : S) → R s → R (free s).1)
      → Triple I m Q R
      → Triple I (with_drop free m) Q R
  Triple-with_drop_both m drops fails km = record {
    at = λ s h. Post-finalize_both drops fails (m s).0 (m s).1 (km.at s h);
  }

module _ {S A B : Type 0} (I : S → Type 0) (Q : A → S → Type 0) (free : Exec S B) where
  pub Triple-with_drop_ok :
      (m : Exec S A)
      → ((a : A) (s : S) → Q a s → Q a (free s).1)
      → Triple I m Q Anything
      → Triple I (with_drop free m) Q Anything
  Triple-with_drop_ok m drops km = Triple-with_drop_both I Q Anything free m drops (λ s h. tt) km

-- Two promises of one step.
module _ {S A : Type 0} (P P' : S → Type 0) (Q Q' : A → S → Type 0) where
  Post-and :
      (r : Outcome A) (s : S)
      → Post Q Anything r s
      → Post Q' Anything r s
      → Post (λ a s. Q a s × Q' a s) Anything r s
  Post-and (ok a) s h h' = (h, h')
  Post-and (err e) s h h' = tt
  Post-and panicked s h h' = tt
  Post-and out_of_fuel s h h' = tt

  pub Triple-and :
      (m : Exec S A)
      → Triple P m Q Anything
      → Triple P' m Q' Anything
      → Triple (λ s. P s × P' s) m (λ a s. Q a s × Q' a s) Anything
  Triple-and m km km' = record { at = λ s h. Post-and (m s).0 (m s).1 (km.at s h.0) (km'.at s h.1) }

module _ {S A B : Type 0} (I P : S → Type 0) (Q : A → S → Type 0) (free : Exec S B) where
  Post-abandon :
      ((s : S) → I s → P (free s).1)
      → (r : Outcome A) (s : S) → Post Q I r s
      → Post Q P (abandon r free s).0 (abandon r free s).1
  Post-abandon drops (ok a) s h = h
  Post-abandon drops (err e) s h = drops s h
  Post-abandon drops panicked s h = drops s h
  Post-abandon drops out_of_fuel s h = tt

  pub Triple-or_drop :
      (m : Exec S A)
      → ((s : S) → I s → P (free s).1)
      → Triple I m Q I
      → Triple I (or_drop free m) Q P
  Triple-or_drop m drops km = record { at = λ s h. Post-abandon drops (m s).0 (m s).1 (km.at s h) }

-- What holds after a step whose error is caught.
module _ {S A : Type 0} (Q : A → S → Type 0) (R : S → Type 0) where
  abbrev pub EitherPost : Error ⊎ A → S → Type 0
  EitherPost (inl e) s = R s
  EitherPost (inr a) s = Q a s

  Post-caught :
      (r : Outcome A) (s : S) → Post Q R r s → Post EitherPost R (caught r s).0 (caught r s).1
  Post-caught (ok a) s h = h
  Post-caught (err e) s h = h
  Post-caught panicked s h = h
  Post-caught out_of_fuel s h = tt

  pub Triple-attempt :
      (P : S → Type 0) (m : Exec S A) → Triple P m Q R → Triple P (attempt m) EitherPost R
  Triple-attempt P m km = record { at = λ s h. Post-caught (m s).0 (m s).1 (km.at s h) }

pub ruleset keeps_rules = (
  Keeps-pure, Keeps-fail, Keeps-panic, Keeps-stuck, Keeps-gets, Keeps-if, Keeps-assert, Keeps-bind,
)
