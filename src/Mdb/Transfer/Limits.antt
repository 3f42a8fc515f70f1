-- ===== src/Mdb/Transfer/Limits.antt =====
-- The assertions at the start of `tx`.
use vender.Prelude.{ℕ, ◌≡◌, ◌≤◌, ◌<◌, ◌⊎◌, refl, List, [], ◌∷◌, arith, length, not, true}
use vender.Exec.{panicked, ◌>>=◌}
use vender.Ffi.{Hardware}
use vender.Mdb.{block_max_length}
use vender.Mdb.Time.{Duration}
use vender.Mdb.Driver.{Env}
use vender.Mdb.Receive.{Port}
use vender.Mdb.Transfer.{is_empty, tx}

-- A request that is empty or too long, or a vector with too little room for the response.
abbrev pub IsRefused : List ℕ → (capacity : ℕ) → Type 0
IsRefused request capacity =
    (length request ≡ 0) ⊎ (block_max_length ≤ length request) ⊎ (capacity < block_max_length)

-- The first of them, for a request that is not empty.
pub not-is_empty : (request : List ℕ) → 0 < length request → not (is_empty request) ≡ true
not-is_empty [] h = elim h [ ]
not-is_empty (b ∷ bs) h = refl

-- `tx` panics on an empty request, on one of 40 bytes or more, and on a vector with room for fewer
-- than 40, before it has made a call to the hardware or changed the driver.
pub tx_refuses :
    (H : Hardware) (fuel : ℕ) (E : Env) (request response : List ℕ) (capacity : ℕ)
    (timeout : Duration) (p : Port)
    → IsRefused request capacity
    → tx H fuel E request response capacity timeout p ≡ (panicked, p)
unfolding tx ◌>>=◌
tx_refuses H fuel E [] response capacity timeout p h = refl
tx_refuses H fuel E (b ∷ bs) response capacity timeout p h = ground (arith, h)
