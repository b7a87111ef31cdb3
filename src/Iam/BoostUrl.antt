-- ===== src/Iam/BoostUrl.antt =====
-- The parts of Boost.URL that lib/aws/iam/urlencode.cpp calls, as an interface: a character set
-- (`grammar::lut_chars`) is the text of its members.
use s3cpp.Prelude.{
  ℕ, ◌+◌, ◌/◌, ◌%◌, ◌<◌, ◌≡◌, suc, true, false, [], ◌∷◌, Text, contains, ltb, if◌then◌else◌,
}

-- The operations: `urls::encode(input, charset)`, and `grammar::find_if(begin, end, charset)` as
-- the distance from `begin`.
pub record BoostUrl : Type 0 where
  pub encode : Text → Text → Text
  pub find_if : Text → Text → ℕ

-- The upper-case hexadecimal digit of a value below 16.
unfoldable pub hex_digit : ℕ → ℕ
hex_digit n = if ltb n 10 then n + b'0' else n + 55

-- The documented behaviour: `encode` keeps the members of the set and escapes every other byte as
-- "%XX"; `find_if` finds the first byte that is in the set, or the end.
pub record IsBoostUrl (u : BoostUrl) : Type 0 where
  pub encode-nil : (cs : Text) → u.encode [] cs ≡ []
  pub encode-member :
      (c : ℕ) (s cs : Text) → contains cs c ≡ true → u.encode (c ∷ s) cs ≡ c ∷ u.encode s cs
  pub encode-other :
      (c : ℕ) (s cs : Text)
      → c < 256
      → contains cs c ≡ false
      → u.encode (c ∷ s) cs ≡ b'%' ∷ hex_digit (c / 16) ∷ hex_digit (c % 16) ∷ u.encode s cs
  pub find_if-nil : (cs : Text) → u.find_if [] cs ≡ 0
  pub find_if-member : (c : ℕ) (s cs : Text) → contains cs c ≡ true → u.find_if (c ∷ s) cs ≡ 0
  pub find_if-other :
      (c : ℕ) (s cs : Text) → contains cs c ≡ false → u.find_if (c ∷ s) cs ≡ suc (u.find_if s cs)
