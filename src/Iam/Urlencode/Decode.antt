-- ===== src/Iam/Urlencode/Decode.antt =====
-- What a server does with an encoded text: `pct_decode` replaces "%XX" by the byte XX.
use mathlib.Core.Option
use s3cpp.Prelude.{
  ℕ, ◌+◌, ◌-◌, ◌*◌, ◌/◌, ◌%◌, ◌<◌, ◌≡◌, ◌≢◌, inl, inr, true, false, ◌&&◌, [], ◌∷◌, Option, none,
  some, arith, Text, leb, ◌==◌, if◌then◌else◌, ==_iff, Bool-cases,
}
use s3cpp.Iam.BoostUrl.{hex_digit}

pub hex_value : ℕ → Option ℕ
hex_value c =
    if leb b'0' c && leb c b'9'
    then some (c - b'0')
    else if leb b'A' c && leb c b'F'
    then some (c - 55)
    else none

hex_value-hex_digit : (n : ℕ) → n < 16 → hex_value (hex_digit n) ≡ some n
unfolding hex_value hex_digit
hex_value-hex_digit n h = ground arith

-- How much of an escape has been read.
pub data Mode : Type 0 where
  plain : Mode
  escape : Mode
  high : ℕ → Mode

unfoldable pub decode_from : Mode → Text → Option Text
decode_from plain [] = some []
decode_from escape [] = none
decode_from (high v) [] = none
decode_from plain (c ∷ s) = elim (c == b'%') [
  | true ↦ decode_from escape s
  | false ↦ Option.map (◌∷◌ c) (decode_from plain s)
]
decode_from escape (c ∷ s) = elim (hex_value c) [ none ↦ none | some v ↦ decode_from (high v) s ]
decode_from (high v) (c ∷ s) = elim (hex_value c) [
  | none ↦ none
  | some w ↦ Option.map (◌∷◌ (v * 16 + w)) (decode_from plain s)
]

unfoldable pub pct_decode : Text → Option Text
pct_decode = decode_from plain

pub decode-plain :
    (c : ℕ) (s t : Text)
    → c ≢ b'%'
    → decode_from plain s ≡ some t
    → decode_from plain (c ∷ s) ≡ some (c ∷ t)
unfolding decode_from
decode-plain c s t h e = elim (Bool-cases (c == b'%')) [
  | inl y ↦ absurd (h ((==_iff c b'%').0 y))
  | inr n ↦ rw (n, decode_from) (rw e)
]

pub decode-escape :
    (c : ℕ) (s t : Text)
    → c < 256
    → decode_from plain s ≡ some t
    → decode_from plain (b'%' ∷ hex_digit (c / 16) ∷ hex_digit (c % 16) ∷ s) ≡ some (c ∷ t)
unfolding decode_from
decode-escape c s t h e = ground (arith, hex_value-hex_digit (c / 16), hex_value-hex_digit (c % 16))
