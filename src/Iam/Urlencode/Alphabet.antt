-- ===== src/Iam/Urlencode/Alphabet.antt =====
-- Which bytes an encoder can emit.
use s3cpp.Prelude.{
  ℕ, zero, suc, ◌/◌, ◌%◌, ◌<◌, ◌≡◌, refl, ◌⊎◌, inl, inr, Bool, true, ◌&&◌, not, [], ◌∷◌, arith,
  Text, IsBytes, Lacks, All, All-map, contains, all, ◌==◌, Bool-cases, ==_iff,
}
use s3cpp.Iam.BoostUrl.{BoostUrl, IsBoostUrl, hex_digit}
use s3cpp.Iam.Urlencode.{charset, path_charset, query_charset, urlencode_path, urlencode_query}

-- Members of a set and the bytes of an escape.
abbrev pub IsEmitted : Text → ℕ → Type 0
IsEmitted cs c = (contains cs c ≡ true) ⊎ (c ≡ b'%')

-- A test of each of the first numbers.
table : (ℕ → Bool) → ℕ → Bool
table test zero = true
table test (suc top) = table test top && test top

table_sound : (test : ℕ → Bool) (top i : ℕ) → i < top → table test top ≡ true → test i ≡ true
unfolding table
table_sound test zero i below passed = absurd (omega arith)
table_sound test (suc top) i below passed = elim (Bool-cases (i == top)) [
  | inl same ↦ rw ((==_iff i top).0 same) (ground arith)
  | inr other ↦ table_sound test top i (ground arith) (ground arith)
]

-- A property of every member of a set, by evaluation.
pub all-contains :
    (p : ℕ → Bool) (cs : Text) (c : ℕ) → all p cs ≡ true → contains cs c ≡ true → p c ≡ true
all-contains p [] c h m = cc
all-contains p (d ∷ cs) c h m = elim (Bool-cases (d == c)) [
  | inl e ↦ rw (← (==_iff d c).0 e) (ground arith)
  | inr e ↦ all-contains p cs c (ground arith) (ground arith)
]

hex_table : table (λ n. contains charset (hex_digit n)) 16 ≡ true
unfolding table charset hex_digit
hex_table = refl

hex_path_table : table (λ n. contains path_charset (hex_digit n)) 16 ≡ true
unfolding table path_charset hex_digit
hex_path_table = refl

-- The digits of an escape are in every set that the program uses.
hex_digit-charset : (n : ℕ) → n < 16 → contains charset (hex_digit n) ≡ true
hex_digit-charset n h = table_sound (λ n. contains charset (hex_digit n)) 16 n h hex_table

hex_digit-path_charset : (n : ℕ) → n < 16 → contains path_charset (hex_digit n) ≡ true
hex_digit-path_charset n h =
    table_sound (λ n. contains path_charset (hex_digit n)) 16 n h hex_path_table

module _ (u : BoostUrl) (b : IsBoostUrl u) (cs : Text) where
  encode-IsEmitted :
      ((n : ℕ) → n < 16 → contains cs (hex_digit n) ≡ true)
      → (s : Text) → IsBytes s
      → All (IsEmitted cs) (u.encode s cs)
  encode-IsEmitted hex [] h = rw (b.encode-nil cs) tt
  encode-IsEmitted hex (c ∷ s) (lt, h) = elim (Bool-cases (contains cs c)) [
    | inl y ↦ rw (b.encode-member c s cs y) (inl y, encode-IsEmitted hex s h)
    | inr n ↦ rw (b.encode-other c s cs lt n) (
      inr refl,
      (
        inl (hex (c / 16) (omega arith)),
        (inl (hex (c % 16) (omega arith)), encode-IsEmitted hex s h),
      ),
    )
  ]

safe_table : all (λ c. not (c == b'&') && not (c == b'=')) charset ≡ true
unfolding charset
safe_table = refl

emitted-safe : (c : ℕ) → IsEmitted charset c → not (c == b'&') && not (c == b'=') ≡ true
emitted-safe c (inl m) = all-contains _ charset c safe_table m
emitted-safe c (inr e) = rw e

module _ (u : BoostUrl) (b : IsBoostUrl u) where
  -- An encoded query value holds bytes of `query_charset` and '%' only.
  pub urlencode_query-IsEmitted :
      (s : Text) → IsBytes s → All (IsEmitted query_charset) (urlencode_query u s)
  unfolding query_charset urlencode_query
  urlencode_query-IsEmitted s h = encode-IsEmitted u b charset hex_digit-charset s h

  -- An encoded path holds bytes of `path_charset` and '%' only.
  pub urlencode_path-IsEmitted :
      (s : Text) → IsBytes s → All (IsEmitted path_charset) (urlencode_path u s)
  unfolding urlencode_path
  urlencode_path-IsEmitted s h = encode-IsEmitted u b path_charset hex_digit-path_charset s h

  -- So it holds no separator of a query.
  pub urlencode_query-Lacks_and : (s : Text) → IsBytes s → Lacks b'&' (urlencode_query u s)
  unfolding query_charset
  urlencode_query-Lacks_and s h =
      All-map (λ c m. ground (arith, emitted-safe c m)) _ (urlencode_query-IsEmitted s h)

  urlencode_query-Lacks_eq : (s : Text) → IsBytes s → Lacks b'=' (urlencode_query u s)
  unfolding query_charset
  urlencode_query-Lacks_eq s h =
      All-map (λ c m. ground (arith, emitted-safe c m)) _ (urlencode_query-IsEmitted s h)
