-- ===== src/S3/Query/Reader.antt =====
-- How a server reads a query: parameters between '&', a name before the first '=', and both
-- percent-decoded.
use s3cpp.Prelude.{
  ℕ, ◌≡◌, refl, ap, subst, inl, inr, List, [], ◌∷◌, ◌++◌, Option, none, some, arith, Text, Lacks,
  ◌==◌, if◌then◌else◌, Bool-cases, Option-cases, some-inj, ==_iff,
}
use s3cpp.Iam.Urlencode.Decode.{pct_decode}

infixl 5 ◌>>=◌
abbrev pub ◌>>=◌ {ℓ κ} : {A : Type ℓ} {B : Type κ} → Option A → (A → Option B) → Option B
none >>= f = none
some a >>= f = f a

-- To put a byte before the first part.
abbrev extend_first : ℕ → List Text → List Text
extend_first c [] = (c ∷ []) ∷ []
extend_first c (s ∷ parts) = (c ∷ s) ∷ parts

unfoldable pub split : ℕ → Text → List Text
split sep [] = [] ∷ []
split sep (c ∷ s) = let rest = split sep s in if c == sep then [] ∷ rest else extend_first c rest

-- What stands before the first separator and what stands behind it.
unfoldable pub break_at : ℕ → Text → Text × Text
break_at sep [] = ([], [])
break_at sep (c ∷ s) =
    let rest = break_at sep s in if c == sep then ([], s) else (c ∷ rest.0, rest.1)

unfoldable pub read_param : Text → Option (Text × Text)
read_param param = do
  name ← pct_decode (break_at b'=' param).0
  value ← pct_decode (break_at b'=' param).1
  some (name, value)

unfoldable pub read_params : List Text → Option (List (Text × Text))
read_params [] = some []
read_params (p ∷ ps) = do first ← read_param p; rest ← read_params ps; some (first ∷ rest)

unfoldable pub read_query : Text → Option (List (Text × Text))
read_query query = read_params (split b'&' query)

split-cons : (sep : ℕ) (s : Text) → (t : Text) × (ts : List Text) × (split sep s ≡ t ∷ ts)
unfolding split
split-cons sep [] = ([], [], refl)
split-cons sep (c ∷ s) =
    let (t, ts, e) = split-cons sep s in
    elim (Bool-cases (c == sep)) [
      | inl y ↦ ([], split sep s, rw y)
      | inr n ↦ (c ∷ t, ts, rw (n, e))
    ]

-- Splitting takes texts joined by the separator apart.
pub split-append : (sep : ℕ) (s t : Text) → split sep (s ++ sep ∷ t) ≡ split sep s ++ split sep t
unfolding split
split-append sep [] t = ground arith
split-append sep (c ∷ s) t = elim (Bool-cases (c == sep)) [
  | inl y ↦ rw (y, split-append sep s t)
  | inr n ↦ let (x, xs, e) = split-cons sep s in rw (n, split-append sep s t, e)
]

pub split-Lacks : (sep : ℕ) (s : Text) → Lacks sep s → split sep s ≡ s ∷ []
unfolding split
split-Lacks sep [] h = refl
split-Lacks sep (c ∷ s) (ne, h) = elim (Bool-cases (c == sep)) [
  | inl y ↦ absurd (ne ((==_iff c sep).0 y))
  | inr n ↦ rw (n, split-Lacks sep s h)
]

pub read_params-append :
    (ps qs : List Text) {xs ys : List (Text × Text)}
    → read_params ps ≡ some xs
    → read_params qs ≡ some ys
    → read_params (ps ++ qs) ≡ some (xs ++ ys)
unfolding read_params
read_params-append [] qs {xs} {ys} e f =
    subst (λ zs. read_params qs ≡ some (zs ++ ys)) (some-inj e) f
read_params-append (p ∷ ps) qs {xs} {ys} e f = elim (Option-cases (read_param p)) [
  | inl n ↦ cc (rw n at e)
  | inr (x, n) ↦ elim (Option-cases (read_params ps)) [
    | inl m ↦ cc (rw (n, m) at e)
    | inr (zs, m) ↦
        rw (n, read_params-append ps qs m f)
          (ap (λ ws. some (ws ++ ys)) (some-inj (rw (n, m) at e)))
  ]
]
