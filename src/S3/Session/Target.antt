-- ===== src/S3/Session/Target.antt =====
-- What a server reads in the target of a request.
use s3cpp.Prelude.{
  ℕ, ◌≡◌, refl, ap, ◌≢◌, inl, inr, true, false, not, Option, none, some, [], ◌∷◌, ◌++◌, arith, ◌==◌,
  All-map, all, Text, contains, IsBytes, Lacks,
}
use s3cpp.Iam.BoostUrl.{BoostUrl, IsBoostUrl}
use s3cpp.Iam.Urlencode.{path_charset, urlencode_path}
use s3cpp.Iam.Urlencode.Decode.{pct_decode}
use s3cpp.Iam.Urlencode.RoundTrip.{pct_decode-urlencode_path}
use s3cpp.Iam.Urlencode.Alphabet.{IsEmitted, urlencode_path-IsEmitted, all-contains}
use s3cpp.Iam.Urlencode.Required.{urlencode_path_required_lem}
use s3cpp.S3.Query.Reader.{break_at}
use s3cpp.S3.Session.{encoded_path, encoded_target}

-- The path of a target, decoded, and its query.
pub read_target : Text → Option (Text × Text)
read_target target = elim (pct_decode (break_at b'?' target).0) [
  | none ↦ none
  | some path ↦ some (path, (break_at b'?' target).1)
]

no_question : all (λ c. not (c == b'?')) path_charset ≡ true
unfolding path_charset
no_question = refl

slash_member : contains path_charset b'/' ≡ true
unfolding path_charset
slash_member = refl

emitted_ne : (c : ℕ) → IsEmitted path_charset c → c ≢ b'?'
emitted_ne c (inl m) =
    ground (arith, all-contains (λ c. not (c == b'?')) path_charset c no_question m)
emitted_ne c (inr e) = rw e (omega arith)

break_at-Lacks : (s t : Text) → Lacks b'?' s → break_at b'?' (s ++ b'?' ∷ t) ≡ (s, t)
unfolding break_at
break_at-Lacks [] t h = refl
break_at-Lacks (c ∷ s) t (n, h) = ground (arith, break_at-Lacks s t h)

break_at-Lacks_end : (s : Text) → Lacks b'?' s → break_at b'?' s ≡ (s, [])
unfolding break_at
break_at-Lacks_end [] h = refl
break_at-Lacks_end (c ∷ s) (n, h) = ground (arith, break_at-Lacks_end s h)

module _ (u : BoostUrl) (b : IsBoostUrl u) where
  -- A path that begins with a slash is encoded, since its slash is taken for a byte to escape.
  encoded_path-slash :
      (path : Text) → encoded_path u (b'/' ∷ path) false ≡ urlencode_path u (b'/' ∷ path)
  unfolding encoded_path
  encoded_path-slash path = rw (urlencode_path_required_lem u b (b'/' ∷ path), slash_member)

  urlencode_path-Lacks : (path : Text) → IsBytes path → Lacks b'?' (urlencode_path u path)
  urlencode_path-Lacks path h =
      All-map emitted_ne (urlencode_path u path) (urlencode_path-IsEmitted u b path h)

  break_at-encoded_target :
      (path query : Text)
      → IsBytes path
      → break_at b'?' (encoded_target u (b'/' ∷ path) false query)
        ≡ (urlencode_path u (b'/' ∷ path), query)
  unfolding encoded_target
  break_at-encoded_target path [] h =
      rw (encoded_path-slash path)
        (break_at-Lacks_end _ (urlencode_path-Lacks (b'/' ∷ path) (omega arith, h)))
  break_at-encoded_target path (c ∷ query) h =
      rw (encoded_path-slash path)
        (break_at-Lacks _ (c ∷ query) (urlencode_path-Lacks (b'/' ∷ path) (omega arith, h)))

  -- A server that splits the target of a request at the first '?' and decodes the path reads the
  -- path and the query that the call was given, for every path of bytes that begins with a slash
  -- and is not encoded yet, and every query.
  pub read_target-encoded_target :
      (path query : Text)
      → IsBytes path
      → read_target (encoded_target u (b'/' ∷ path) false query) ≡ some (b'/' ∷ path, query)
  unfolding read_target
  read_target-encoded_target path query h =
      rw
        (
          read_target,
          break_at-encoded_target path query h,
          pct_decode-urlencode_path u b (b'/' ∷ path) (omega arith, h),
        )
        (ap (λ x. some (b'/' ∷ path, x.1)) (break_at-encoded_target path query h))
