-- ===== src/Mdb/Driver/Parse.antt =====
-- `str::parse::<u32>` of Rust's standard library, on the bytes of the text.
use vender.Prelude.{
  ℕ, ◌+◌, ◌-◌, ◌*◌, Bool, ◌&&◌, Option, none, some, List, [], ◌∷◌, ltb, leb, ◌==◌, if◌then◌else◌,
}

abbrev is_digit : ℕ → Bool
is_digit c = leb b'0' c && leb c b'9'

-- The digits from the left; `none` for another character or a value past 2 ^ 32 - 1.
parse_digits : ℕ → List ℕ → Option ℕ
parse_digits acc [] = some acc
parse_digits acc (c ∷ cs) =
    let acc' = acc * 10 + (c - b'0') in
    let rest = parse_digits acc' cs in if is_digit c && ltb acc' 4294967296 then rest else none

-- An empty text is refused, and so is a sign alone.
parse_some : List ℕ → Option ℕ
unfolding parse_digits
parse_some [] = none
parse_some (c ∷ cs) = parse_digits 0 (c ∷ cs)

unfoldable pub parse_u32 : List ℕ → Option ℕ
unfolding parse_some
parse_u32 [] = none
parse_u32 (c ∷ cs) = if c == b'+' then parse_some cs else parse_some (c ∷ cs)
