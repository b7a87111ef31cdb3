-- ===== src/Iam/Urlencode/RoundTrip.antt =====
-- Decoding an encoded text gives the text back, so no two texts share an encoding.
use s3cpp.Prelude.{
  ℕ, ◌≡◌, refl, ap, ◌≢◌, inl, inr, true, false, [], ◌∷◌, some, Text, IsBytes, contains, Bool-cases,
}
use s3cpp.Iam.BoostUrl.{BoostUrl, IsBoostUrl}
use s3cpp.Iam.Urlencode.{charset, path_charset, query_charset, urlencode_path, urlencode_query}
use s3cpp.Iam.Urlencode.Decode.{plain, decode_from, pct_decode, decode-plain, decode-escape}

module _ (u : BoostUrl) (b : IsBoostUrl u) (cs : Text) (no_pct : contains cs b'%' ≡ false) where
  member-ne : (c : ℕ) → contains cs c ≡ true → c ≢ b'%'
  member-ne c m e = cc (ap (contains cs) e)

  decode-encode : (s : Text) → IsBytes s → decode_from plain (u.encode s cs) ≡ some s
  unfolding decode_from
  decode-encode [] h = rw (b.encode-nil cs)
  decode-encode (c ∷ s) (lt, h) = elim (Bool-cases (contains cs c)) [
    | inl y ↦
        rw (b.encode-member c s cs y)
          (decode-plain c (u.encode s cs) s (member-ne c y) (decode-encode s h))
    | inr n ↦
        rw (b.encode-other c s cs lt n) (decode-escape c (u.encode s cs) s lt (decode-encode s h))
  ]

charset_pct : contains charset b'%' ≡ false
unfolding charset
charset_pct = refl

path_charset_pct : contains path_charset b'%' ≡ false
unfolding path_charset
path_charset_pct = refl

module _ (u : BoostUrl) (b : IsBoostUrl u) where
  -- Percent-decoding the encoding of a query value gives the value back, for every text of bytes.
  pub pct_decode-urlencode_query :
      (s : Text) → IsBytes s → pct_decode (urlencode_query u s) ≡ some s
  unfolding pct_decode query_charset urlencode_query
  pct_decode-urlencode_query s h = decode-encode u b charset charset_pct s h

  -- Percent-decoding the encoding of a path gives the path back, for every text of bytes.
  pub pct_decode-urlencode_path : (s : Text) → IsBytes s → pct_decode (urlencode_path u s) ≡ some s
  unfolding pct_decode urlencode_path
  pct_decode-urlencode_path s h = decode-encode u b path_charset path_charset_pct s h

  -- Two paths with one encoding are the same.
  urlencode_path-injective :
      (s t : Text) → IsBytes s → IsBytes t → urlencode_path u s ≡ urlencode_path u t → s ≡ t
  urlencode_path-injective s t hs ht e =
      cc (pct_decode-urlencode_path s hs, pct_decode-urlencode_path t ht, ap pct_decode e)
