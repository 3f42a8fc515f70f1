-- ===== src/Mdb/Transfer/Judged.antt =====
-- What `tx` is to return for the block that a device sends.
use vender.Prelude.{ℕ, ◌≡◌, List, [], ◌∷◌, arith, ◌==◌, if◌then◌else◌}
use vender.Error.{mdb_nak, mdb_invalid_response, mdb_checksum}
use vender.Exec.{Outcome, ok, err, panicked, out_of_fuel}
use vender.Exec.Ends.{EndPost, Whatever}
use vender.Mdb.{response_ack, response_nak, checksum}
use vender.Mdb.Transfer.Correct.{Closes}

-- What the answer to a block is to be: done, or an error.
unfoldable pub settled : (end_byte : ℕ) → List ℕ → Outcome (Unit {0})
settled end_byte [] =
    if end_byte == response_ack
    then ok tt
    else if end_byte == response_nak
    then err mdb_nak
    else err (mdb_invalid_response end_byte)
settled end_byte (b ∷ bs) =
    if end_byte == checksum (b ∷ bs)
    then ok tt
    else err (mdb_checksum (checksum (b ∷ bs)) end_byte (b ∷ bs))

-- The bytes, unless there is an error.
abbrev pub with_bytes : List ℕ → Outcome (Unit {0}) → Outcome (List ℕ)
with_bytes bytes (ok _) = ok bytes
with_bytes bytes (err e) = err e
with_bytes bytes panicked = panicked
with_bytes bytes out_of_fuel = out_of_fuel

-- The response that `tx` is to return for a block.
abbrev pub judged : (end_byte : ℕ) → List ℕ → Outcome (List ℕ)
judged end_byte bytes = with_bytes bytes (settled end_byte bytes)

pub judged-Closes :
    (end_byte : ℕ) (bytes : List ℕ) → Closes end_byte bytes → judged end_byte bytes ≡ ok bytes
unfolding settled
judged-Closes end_byte [] closes = ground (arith, closes)
judged-Closes end_byte (b ∷ bs) closes = ground (arith, closes)

-- It is a response or an error.
pub judged-Ends :
    {S : Type 0} (end_byte : ℕ) (bytes : List ℕ) (s : S)
    → EndPost Whatever (judged end_byte bytes) s
unfolding settled
judged-Ends end_byte [] s = ground arith
judged-Ends end_byte (b ∷ bs) s = ground arith
