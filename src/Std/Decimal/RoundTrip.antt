-- ===== src/Std/Decimal/RoundTrip.antt =====
-- Printing a number gives digits, and reading them gives the number back.
use native.Mathlib.Nat.{pow-suc}
use s3cpp.Prelude.{
  ℕ, zero, suc, ◌+◌, ◌*◌, ◌/◌, ◌%◌, ◌^◌, ◌<◌, ◌≡◌, refl, ap, ◌≢◌, inl, inr, true, List, [], ◌∷◌,
  ◌++◌, arith, Text, All, All-append, ltb, Bool-cases, ltb→lt, lt→ltb,
}
use s3cpp.Std.Decimal.{
  digits_of, to_decimal, parsed, is_digit, digit_prefix, value_from, in_range, from_digits,
  from_chars, size_max,
}

abbrev pub IsDigit : ℕ → Type 0
IsDigit c = is_digit c ≡ true

digits_of-IsDigit : (f n : ℕ) → All IsDigit (digits_of f n)
unfolding digits_of
digits_of-IsDigit zero n = tt
digits_of-IsDigit (suc f) n = elim (Bool-cases (ltb n 10)) [
  | inl small ↦ rw small (ground arith, tt)
  | inr big ↦ rw big (All-append IsDigit _ _ (digits_of-IsDigit f (n / 10)) (ground arith, tt))
]

pub to_decimal-IsDigit : (n : ℕ) → All IsDigit (to_decimal n)
unfolding to_decimal
to_decimal-IsDigit n = digits_of-IsDigit 20 n

value_from-append :
    (acc : ℕ) (ds es : List ℕ) → value_from acc (ds ++ es) ≡ value_from (value_from acc ds) es
unfolding value_from
value_from-append acc [] es = refl
value_from-append acc (d ∷ ds) es = value_from-append (acc * 10 + d) ds es

digit_prefix-append :
    (s : Text) (t : Text) → All IsDigit s → digit_prefix (s ++ t) ≡ digit_prefix s ++ digit_prefix t
unfolding digit_prefix
digit_prefix-append [] t h = refl
digit_prefix-append (c ∷ s) t (d, h) = rw (d, digit_prefix-append s t h)

digit_prefix-one : (d : ℕ) → d < 10 → digit_prefix ((d + b'0') ∷ []) ≡ d ∷ []
unfolding digit_prefix
digit_prefix-one d h = ground arith

div-lt-pow : (f n : ℕ) → n < 10 ^ suc f → n / 10 < 10 ^ f
div-lt-pow f n h = omega (arith, pow-suc 10 f)

value-digits_of : (f n : ℕ) → n < 10 ^ f → value_from 0 (digit_prefix (digits_of f n)) ≡ n
unfolding digits_of value_from digit_prefix
value-digits_of zero n h = omega arith
value-digits_of (suc f) n h = elim (Bool-cases (ltb n 10)) [
  | inl small ↦ rw (small, digit_prefix-one n (ltb→lt n 10 small)) (omega arith)
  | inr big ↦
      rw
        (
          big,
          digit_prefix-append (digits_of f (n / 10)) ((n % 10 + b'0') ∷ [])
              (digits_of-IsDigit f (n / 10)),
          digit_prefix-one (n % 10) (omega arith),
          value_from-append 0 (digit_prefix (digits_of f (n / 10))) (n % 10 ∷ []),
          value-digits_of f (n / 10) (div-lt-pow f n h),
        )
        (omega arith)
]

snoc-ne-nil : (ds : List ℕ) (d : ℕ) → ds ++ d ∷ [] ≢ []
snoc-ne-nil [] d e = cc
snoc-ne-nil (x ∷ ds) d e = cc

digits-ne-nil : (f n : ℕ) → digit_prefix (digits_of (suc f) n) ≢ []
unfolding digits_of
digits-ne-nil f n = elim (Bool-cases (ltb n 10)) [
  | inl small ↦ rw (small, digit_prefix-one n (ltb→lt n 10 small)) (λ e. cc)
  | inr big ↦
      rw
        (
          big,
          digit_prefix-append (digits_of f (n / 10)) ((n % 10 + b'0') ∷ [])
              (digits_of-IsDigit f (n / 10)),
          digit_prefix-one (n % 10) (omega arith),
        )
        (snoc-ne-nil _ _)
]

from_digits_lem : (ds : List ℕ) → ds ≢ [] → from_digits ds ≡ in_range (value_from 0 ds)
unfolding from_digits value_from
from_digits_lem [] h = absurd (h refl)
from_digits_lem (d ∷ ds) h = ap (λ n. in_range (value_from n ds)) (omega arith)

-- Every number that a `std::size_t` holds is read back from its decimal digits.
pub from_chars-to_decimal : (n : ℕ) → n < size_max → from_chars (to_decimal n) ≡ parsed n
unfolding from_chars to_decimal
from_chars-to_decimal n h = rw (
  from_digits_lem (digit_prefix (digits_of 20 n)) (digits-ne-nil 19 n),
  value-digits_of 20 n (omega arith),
  lt→ltb n size_max h,
)
