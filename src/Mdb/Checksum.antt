-- ===== src/Mdb/Checksum.antt =====
-- `checksum` and the sum of the bytes.
use vender.Prelude.{ℕ, ◌+◌, ◌%◌, ◌<◌, ◌≡◌, ◌≢◌, ◌∙◌, List, [], ◌∷◌, ◌++◌, foldl, arith}
use vender.Mdb.{checksum}

-- The sum of the bytes, with no wrapping.
unfoldable pub sum : List ℕ → ℕ
sum [] = 0
sum (b ∷ bs) = b + sum bs

sum-append : (xs ys : List ℕ) → sum (xs ++ ys) ≡ sum xs + sum ys
unfolding sum
sum-append [] ys = omega arith
sum-append (x ∷ xs) ys = omega (arith, sum-append xs ys)

foldl-eq-sum :
    (acc : ℕ) (bs : List ℕ)
    → acc < 256
    → foldl (λ sum x. (sum + x) % 256) acc bs ≡ (acc + sum bs) % 256
unfolding sum
foldl-eq-sum acc [] h = omega arith
foldl-eq-sum acc (b ∷ bs) h = omega (arith, foldl-eq-sum ((acc + b) % 256) bs)

-- Wrapping byte by byte gives the whole sum of the bytes modulo 256.
pub checksum-eq-sum : (bs : List ℕ) → checksum bs ≡ sum bs % 256
unfolding checksum
checksum-eq-sum bs = foldl-eq-sum 0 bs (omega arith) ∙ omega arith

-- The checksum of a concatenation is the wrapping sum of the checksums, so it does not depend on
-- how a block was cut into chunks.
pub checksum-append : (xs ys : List ℕ) → checksum (xs ++ ys) ≡ (checksum xs + checksum ys) % 256
checksum-append xs ys =
    omega
      (arith, checksum-eq-sum (xs ++ ys), checksum-eq-sum xs, checksum-eq-sum ys, sum-append xs ys)

pub checksum-lt : (bs : List ℕ) → checksum bs < 256
checksum-lt bs = omega (arith, checksum-eq-sum bs)

-- A byte that is altered to another byte, anywhere in a block, changes the checksum.
pub checksum_detects :
    (xs ys : List ℕ) (a b : ℕ)
    → a < 256
    → b < 256
    → a ≢ b
    → checksum (xs ++ a ∷ ys) ≢ checksum (xs ++ b ∷ ys)
unfolding sum
checksum_detects xs ys a b ha hb differ e = differ (
    omega (
      arith,
      checksum-eq-sum (xs ++ a ∷ ys),
      checksum-eq-sum (xs ++ b ∷ ys),
      sum-append xs (a ∷ ys),
      sum-append xs (b ∷ ys),
    ))
