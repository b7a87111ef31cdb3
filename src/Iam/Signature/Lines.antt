-- ===== src/Iam/Signature/Lines.antt =====
-- string_to_sign.cpp: the text that is signed, line by line.
use s3cpp.Prelude.{◌≡◌, ◌≢◌, [], ◌∷◌, ◌++◌, arith, All-append, Text, codes, Lacks}
use s3cpp.Iam.Botan.{Botan, IsHex}
use s3cpp.Iam.Signature.{Scope, footer, format_scope, string_to_sign}
use s3cpp.S3.Query.Reader.{split, split-append, split-Lacks}

-- A scope whose parts hold no line break.
abbrev pub IsOneLine : Scope → Type 0
IsOneLine s = Lacks b'\n' s.timestamp × Lacks b'\n' s.region × Lacks b'\n' s.service

Lacks-footer : Lacks b'\n' footer
Lacks-footer = ground arith

-- Texts that lack a byte, joined by another byte.
Lacks-join : (s t : Text) → Lacks b'\n' s → Lacks b'\n' t → Lacks b'\n' (s ++ b'/' ∷ t)
Lacks-join s t hs ht = All-append (λ d. d ≢ b'\n') s (b'/' ∷ t) hs (omega arith, ht)

Lacks-format_scope : (s : Scope) → IsOneLine s → Lacks b'\n' (format_scope s)
unfolding format_scope
Lacks-format_scope s (t, r, v) =
    Lacks-join s.timestamp _ t
      (Lacks-join s.region _ r (Lacks-join s.service footer v Lacks-footer))

module _ (b : Botan) (hex : IsHex b) where
  -- The text to sign has four lines, whatever the request: the algorithm, the time stamp, the scope
  -- and the digest of the canonical request. So no part of it can pass for another.
  pub string_to_sign-lines :
      (canonical_request : Text) (scope : Scope) (timestamp : Text)
      → Lacks b'\n' timestamp
      → IsOneLine scope
      → split b'\n' (string_to_sign b canonical_request scope timestamp)
        ≡ codes "AWS4-HMAC-SHA256"
          ∷ timestamp
          ∷ format_scope scope
          ∷ b.hex_encode (b.sha256 canonical_request)
          ∷ []
  unfolding string_to_sign split format_scope
  string_to_sign-lines canonical_request scope timestamp t o = rw (
    split-append b'\n' (codes "AWS4-HMAC-SHA256") (
        timestamp
        ++ b'\n' ∷ (format_scope scope ++ b'\n' ∷ b.hex_encode (b.sha256 canonical_request))),
    split-append b'\n' timestamp
        (format_scope scope ++ b'\n' ∷ b.hex_encode (b.sha256 canonical_request)),
    split-append b'\n' (format_scope scope) (b.hex_encode (b.sha256 canonical_request)),
    split-Lacks b'\n' timestamp t,
    split-Lacks b'\n' (format_scope scope) (Lacks-format_scope scope o),
    split-Lacks b'\n' (b.hex_encode (b.sha256 canonical_request))
        (hex.one_line (b.sha256 canonical_request)),
  )
