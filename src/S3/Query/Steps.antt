-- ===== src/S3/Query/Steps.antt =====
-- What each step of a query builder, by the kind of its parameter, adds to what the query shows.
use s3cpp.Prelude.{
  ◌⊎◌, ℕ, ◌≡◌, refl, ap, subst, ◌≢◌, inl, inr, Bool, true, false, List, [], ◌∷◌, ◌++◌, append-nil,
  Option, none, some, arith, Text, codes, Lacks, IsBytes, All, All-map, is_empty, all, text_eq,
  text_eq_sound, value_or, Bool-cases,
}
use s3cpp.Std.Decimal.{to_decimal}
use s3cpp.Std.Decimal.RoundTrip.{to_decimal-IsDigit}
use s3cpp.Iam.BoostUrl.{BoostUrl, IsBoostUrl}
use s3cpp.Iam.Urlencode.Decode.{decode_from, pct_decode, decode-plain}
use s3cpp.S3.Query.{urlencode_query, add_param, add_some, add_if, encoded, plainly, prefix_param}
use s3cpp.S3.Query.Shows.{
  all-IsName, is_name_byte, Shows, Writes, IsName, optional, Shows-first, Shows-add_param,
  Shows-add_some, Writes-plainly, Writes-encoded,
}

-- Texts that mean themselves in a query: no '&' to end the parameter and no '%' to be decoded.
abbrev pub IsPlain : Text → Type 0
IsPlain = All (λ c. (c ≢ b'&') × (c ≢ b'%'))

-- What an optional field holds, if anything.
abbrev pub AllSome : (Text → Type 0) → Option Text → Type 0
AllSome P none = Unit
AllSome P (some v) = P v

AllSome-some : (P : Text → Type 0) (o : Option Text) (v : Text) → AllSome P o → o ≡ some v → P v
AllSome-some P none v h e = cc
AllSome-some P (some w) v h e = subst P (cc) h

pct_decode-IsPlain : (s : Text) → IsPlain s → pct_decode s ≡ some s
unfolding pct_decode decode_from
pct_decode-IsPlain [] h = refl
pct_decode-IsPlain (c ∷ s) ((_, ne), h) = decode-plain c s s ne (pct_decode-IsPlain s h)

IsPlain-Lacks : (s : Text) → IsPlain s → Lacks b'&' s
IsPlain-Lacks s h = All-map (λ c p. p.0) s h

to_decimal-IsPlain : (n : ℕ) → IsPlain (to_decimal n)
to_decimal-IsPlain n = All-map (λ c d. ground arith) (to_decimal n) (to_decimal-IsDigit n)

Writes-IsPlain :
    (written name v : Text) → IsName written name → IsPlain v → Writes (written ++ v) name v
Writes-IsPlain written name v n h =
    Writes-plainly written name v v n (IsPlain-Lacks v h) (pct_decode-IsPlain v h)

-- A number, and a raw or an encoded option, in a query.
pub Writes-literal :
    (name v : Text)
    → all is_name_byte name ≡ true
    → IsPlain v
    → Writes ((name ++ b'=' ∷ []) ++ v) name v
Writes-literal name v n h = Writes-IsPlain _ name v (all-IsName name n) h

pub Writes-decimal :
    (name : Text) (n : ℕ)
    → all is_name_byte name ≡ true
    → Writes ((name ++ b'=' ∷ []) ++ to_decimal n) name (to_decimal n)
Writes-decimal name n h = Writes-literal name (to_decimal n) h (to_decimal-IsPlain n)

pub Shows-plainly :
    (name : Text) (o : Option Text) (query : Text) {ps : List (Text × Text)}
    → all is_name_byte name ≡ true
    → AllSome IsPlain o
    → Shows query ps
    → Shows (add_some (plainly (name ++ b'=' ∷ [])) o query) (ps ++ optional name o)
Shows-plainly name o query n h s =
    Shows-add_some (plainly (name ++ b'=' ∷ [])) name o query s
      λ v e. Writes-IsPlain _ name v (all-IsName name n) (AllSome-some IsPlain o v h e)

pub not_url :
    (o : Option Text) → o ≢ some (codes "url") → text_eq (value_or o []) (codes "url") ≡ false
not_url none h = refl
not_url (some v) h = elim (Bool-cases (text_eq v (codes "url"))) [
  | inl y ↦ absurd (h (ap some (text_eq_sound v (codes "url") y)))
  | inr n ↦ n
]

abbrev pub flag : Text → Bool → List (Text × Text)
flag name true = (name, codes "true") ∷ []
flag name false = []

pub Shows-flag :
    (name : Text) (b : Bool) (query : Text) {ps : List (Text × Text)}
    → all is_name_byte name ≡ true
    → Shows query ps
    → Shows (add_if b ((name ++ b'=' ∷ []) ++ codes "true") query) (ps ++ flag name b)
unfolding add_if
Shows-flag name true query n s =
    Shows-add_param query _ name (codes "true") s
      (Writes-literal name (codes "true") n (omega arith))
Shows-flag name false query {ps} n s = rw (append-nil ps) s

-- A query that may still be empty.
abbrev pub Begun : Text → List (Text × Text) → Type 0
Begun query ps = ((query ≡ []) × (ps ≡ [])) ⊎ Shows query ps

pub Begun-add_param :
    (query : Text) {ps : List (Text × Text)} (param name value : Text)
    → Begun query ps
    → is_empty param ≡ false
    → Writes param name value
    → Shows (add_param query param) (ps ++ (name, value) ∷ [])
Begun-add_param query param name value (inl (e, f)) ne w =
    rw (e, f) (Shows-first param name value ne w)
Begun-add_param query param name value (inr s) ne w = Shows-add_param query param name value s w

name_start : (name v : Text) → is_empty ((name ++ b'=' ∷ []) ++ v) ≡ false
name_start [] v = refl
name_start (c ∷ name) v = refl

module _ (u : BoostUrl) (b : IsBoostUrl u) where
  pub Shows-encoded :
      (name : Text) (o : Option Text) (query : Text) {ps : List (Text × Text)}
      → all is_name_byte name ≡ true
      → AllSome IsBytes o
      → Shows query ps
      → Shows (add_some (encoded u (name ++ b'=' ∷ [])) o query) (ps ++ optional name o)
  Shows-encoded name o query n h s =
      Shows-add_some (encoded u (name ++ b'=' ∷ [])) name o query s
        λ v e. Writes-encoded u b _ name v (all-IsName name n) (AllSome-some IsBytes o v h e)

  pub Begun-encoded :
      (name : Text) (o : Option Text) (query : Text) {ps : List (Text × Text)}
      → all is_name_byte name ≡ true
      → AllSome IsBytes o
      → Begun query ps
      → Begun (add_some (encoded u (name ++ b'=' ∷ [])) o query) (ps ++ optional name o)
  unfolding add_some
  Begun-encoded name none query {ps} n h s = rw (append-nil ps) s
  Begun-encoded name (some v) query n h s = inr (
      Begun-add_param query _ name v s (name_start name (urlencode_query u v))
        (Writes-encoded u b _ name v (all-IsName name n) h))

  pub Shows-prefix :
      (encoding_type o : Option Text) (query : Text) {ps : List (Text × Text)}
      → encoding_type ≢ some (codes "url")
      → AllSome IsBytes o
      → Shows query ps
      → Shows (add_some (prefix_param u encoding_type) o query) (ps ++ optional (codes "prefix") o)
  unfolding prefix_param
  Shows-prefix encoding_type o query ne h s =
      Shows-add_some (prefix_param u encoding_type) (codes "prefix") o query s λ v e.
        rw (not_url encoding_type ne) (
          Writes-encoded u b _ (codes "prefix") v (all-IsName (codes "prefix") refl)
            (AllSome-some IsBytes o v h e))
