-- ===== src/Std/Decimal.antt =====
-- `std::format("{}", n)` and `std::from_chars` for a `std::size_t` of 64 bits.
pub mod RoundTrip
use s3cpp.Prelude.{
  ℕ, zero, suc, ◌+◌, ◌-◌, ◌*◌, ◌/◌, ◌%◌, ◌^◌, Bool, ◌&&◌, List, [], ◌∷◌, ◌++◌, Text, ltb, leb,
  if◌then◌else◌,
}

-- The number of values of a `std::size_t`.
abbrev pub size_max : ℕ
size_max = 2 ^ 64

unfoldable pub digits_of : ℕ → ℕ → Text
digits_of zero n = []
digits_of (suc fuel) n =
    let rest = digits_of fuel (n / 10) in
    if ltb n 10 then (n + b'0') ∷ [] else rest ++ (n % 10 + b'0') ∷ []

-- Twenty digits are enough: `size_max` has that many.
unfoldable pub to_decimal : ℕ → Text
to_decimal n = digits_of 20 n

pub data FromChars : Type 0 where
  parsed : ℕ → FromChars
  invalid_argument result_out_of_range : FromChars

abbrev pub is_digit : ℕ → Bool
is_digit c = leb b'0' c && leb c b'9'

-- The longest prefix of digits, as their values.
unfoldable pub digit_prefix : Text → List ℕ
digit_prefix [] = []
digit_prefix (c ∷ s) = let rest = digit_prefix s in if is_digit c then (c - b'0') ∷ rest else []

unfoldable pub value_from : ℕ → List ℕ → ℕ
value_from acc [] = acc
value_from acc (d ∷ ds) = value_from (acc * 10 + d) ds

abbrev pub in_range : ℕ → FromChars
in_range n = if ltb n size_max then parsed n else result_out_of_range

unfoldable pub from_digits : List ℕ → FromChars
from_digits [] = invalid_argument
from_digits (d ∷ ds) = in_range (value_from d ds)

-- What follows the digits is not looked at; the caller would compare the returned pointer.
unfoldable pub from_chars : Text → FromChars
from_chars s = from_digits (digit_prefix s)
