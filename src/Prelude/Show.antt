-- ===== src/Prelude/Show.antt =====
-- The texts that Rust's formatting gives: `{}` of an integer and `{:02x?}` of bytes.
pub mod Decimal
use Prim.Native.Nat.{ℕ, zero, suc, ◌+◌, ◌/◌, ◌%◌}
use Prim.Native.String.{String, ◌++◌ as ◌<>◌}
use mathlib.Core.List.{List, [], ◌∷◌}
use vender.Prelude.Tests.{ltb, if◌then◌else◌}
use vender.Prelude.Int.{ℤ, pos, negsuc}

pick : ℕ → List String → String
pick i [] = ""
pick zero (d ∷ ds) = d
pick (suc i) (d ∷ ds) = pick i ds

-- One digit, in any base up to sixteen.
digit : ℕ → String
unfolding pick
digit n = pick n (
    "0" ∷ "1" ∷ "2" ∷ "3" ∷ "4" ∷ "5" ∷ "6" ∷ "7" ∷ "8" ∷ "9" ∷ "a" ∷ "b" ∷ "c" ∷ "d" ∷ "e" ∷ "f"
    ∷ [])

-- The digits of `n` in front of `acc`, at most as many as the first argument says.
decimal_digits : ℕ → ℕ → String → String
decimal_digits zero n acc = acc
decimal_digits (suc k) n acc =
    let more = decimal_digits k (n / 10) (digit (n % 10) <> acc) in
    if ltb n 10 then digit n <> acc else more

-- Twenty digits hold every `u64`.
unfoldable pub show_ℕ : ℕ → String
unfolding decimal_digits digit
show_ℕ n = decimal_digits 20 n ""

unfoldable pub show_ℤ : ℤ → String
unfolding show_ℕ
show_ℤ (pos n) = show_ℕ n
show_ℤ (negsuc n) = "-" <> show_ℕ (n + 1)

-- A byte under `{:02x?}`.
unfoldable pub show_hex : ℕ → String
unfolding digit
show_hex b = digit (b / 16) <> digit (b % 16)

show_hex_items : List ℕ → String
unfolding show_hex
show_hex_items [] = "]"
show_hex_items (b ∷ []) = show_hex b <> "]"
show_hex_items (b ∷ c ∷ bs) = show_hex b <> ", " <> show_hex_items (c ∷ bs)

-- A slice of bytes under `{:02x?}`.
unfoldable pub show_hex_list : List ℕ → String
unfolding show_hex_items
show_hex_list bs = "[" <> show_hex_items bs
