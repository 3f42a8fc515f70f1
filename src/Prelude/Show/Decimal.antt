-- ===== src/Prelude/Show/Decimal.antt =====
-- Decimal texts, read back.
use Prim.Native.Char.{code}
use Prim.Native.String.{String, [] as empty, ◌∷◌ as ◌‥◌, ◌++◌ as ◌<>◌}
use Prim.Native.String.append
use Prim.Native.Nat.{ℕ, zero, suc, ◌+◌, ◌-◌, ◌*◌, ◌/◌, ◌%◌, ◌^◌, ◌<◌}
use mathlib.Core.Path.{◌≡◌, refl, ap, ◌∙◌}
use mathlib.Core.List.{List, [], ◌∷◌, ◌++◌}
use mathlib.Core.Logic.{inl, inr}
use native.Mathlib.Omega.{arith}
use vender.Prelude.Tests.{ltb, ltb→lt, if◌then◌else◌, Bool-cases}
use vender.Prelude.Show.{pick, digit, decimal_digits, show_ℕ}

-- The characters' numbers, which are the bytes of an ASCII text.
unfoldable pub bytes : String → List ℕ
bytes empty = []
bytes (c ‥ s) = code c ∷ bytes s

pub bytes-append : (s t : String) → bytes (s <> t) ≡ bytes s ++ bytes t
unfolding bytes
bytes-append empty t = ap bytes (append.nil t)
bytes-append (c ‥ s) t =
    ap bytes (append.cons c s t) ∙ ap (λ (bs : List ℕ). code c ∷ bs) (bytes-append s t)

bytes-digit : (n : ℕ) → n < 10 → bytes (digit n) ≡ (b'0' + n) ∷ []
unfolding bytes digit pick
bytes-digit zero h = refl
bytes-digit (suc zero) h = refl
bytes-digit (suc (suc zero)) h = refl
bytes-digit (suc (suc (suc zero))) h = refl
bytes-digit (suc (suc (suc (suc zero)))) h = refl
bytes-digit (suc (suc (suc (suc (suc zero))))) h = refl
bytes-digit (suc (suc (suc (suc (suc (suc zero)))))) h = refl
bytes-digit (suc (suc (suc (suc (suc (suc (suc zero))))))) h = refl
bytes-digit (suc (suc (suc (suc (suc (suc (suc (suc zero)))))))) h = refl
bytes-digit (suc (suc (suc (suc (suc (suc (suc (suc (suc zero))))))))) h = refl
bytes-digit (suc (suc (suc (suc (suc (suc (suc (suc (suc (suc n)))))))))) h = absurd (omega arith)

digit_first : (n : ℕ) (acc : String) → n < 10 → bytes (digit n <> acc) ≡ (b'0' + n) ∷ bytes acc
digit_first n acc h = bytes-append (digit n) acc ∙ rw (bytes-digit n h) refl

-- The digits of `n`, as bytes, in front of `acc`.
unfoldable pub decimal : (k n : ℕ) → (acc : List ℕ) → List ℕ
decimal zero n acc = acc
decimal (suc k) n acc =
    let more = decimal k (n / 10) ((b'0' + n % 10) ∷ acc) in
    if ltb n 10 then (b'0' + n) ∷ acc else more

bytes-decimal_digits :
    (k n : ℕ) (acc : String) → bytes (decimal_digits k n acc) ≡ decimal k n (bytes acc)
unfolding decimal_digits decimal
bytes-decimal_digits zero n acc = refl
bytes-decimal_digits (suc k) n acc = elim (Bool-cases (ltb n 10)) [
  | inl small ↦ rw small (digit_first n acc (ltb→lt n 10 small))
  | inr large ↦ rw large (
      bytes-decimal_digits k (n / 10) (digit (n % 10) <> acc)
      ∙ ap (decimal k (n / 10)) (digit_first (n % 10) acc (omega arith)))
]

-- The text of a number has its decimal digits.
pub bytes-show_ℕ : (n : ℕ) → bytes (show_ℕ n) ≡ decimal 20 n []
unfolding show_ℕ bytes
bytes-show_ℕ n = bytes-decimal_digits 20 n ""

-- The number that decimal digits stand for, after those that made `acc`.
unfoldable pub read_decimal : (acc : ℕ) → List ℕ → ℕ
read_decimal acc [] = acc
read_decimal acc (b ∷ bs) = read_decimal (acc * 10 + (b - b'0')) bs

read_decimal-decimal :
    (k n : ℕ) (acc : List ℕ) → n < 10 ^ k → read_decimal 0 (decimal k n acc) ≡ read_decimal n acc
unfolding decimal read_decimal
read_decimal-decimal zero n acc h = ap (λ (m : ℕ). read_decimal m acc) (omega arith)
read_decimal-decimal (suc k) n acc h = elim (Bool-cases (ltb n 10)) [
  | inl small ↦
      let whole : 0 * 10 + (b'0' + n - b'0') ≡ n = omega arith in
      rw small (ap (λ (m : ℕ). read_decimal m acc) whole)
  | inr large ↦
      let whole : n / 10 * 10 + (b'0' + n % 10 - b'0') ≡ n = omega arith in
      rw large (
        read_decimal-decimal k (n / 10) ((b'0' + n % 10) ∷ acc) (omega arith)
        ∙ ap (λ (m : ℕ). read_decimal m acc) whole)
]

-- A number of at most twenty digits is what its text says.
pub read_decimal-show_ℕ : (n : ℕ) → n < 10 ^ 20 → read_decimal 0 (bytes (show_ℕ n)) ≡ n
unfolding read_decimal
read_decimal-show_ℕ n h = rw (bytes-show_ℕ n) (read_decimal-decimal 20 n [] h)
