-- ===== src/Iam/Signature/Chain.antt =====
-- sign_request.cpp: the signing key as the documentation of AWS states it.
use s3cpp.Prelude.{◌≡◌, ◌++◌, Text, codes}
use s3cpp.Iam.Botan.{Botan, IsBotan}
use s3cpp.Iam.Signature.{Scope, footer, get_signing_key}

module _ (b : Botan) (hmac : Text → Text → Text) (laws : IsBotan b hmac) where
  -- The signing key is the chain of codes over the date, the region, the service and the footer,
  -- from the key "AWS4" and the secret: no state of the one object is left over between rounds.
  pub get_signing_key-chain :
      (secret : Text) (scope : Scope)
      → get_signing_key b secret scope
        ≡ hmac
            (hmac (hmac (hmac (codes "AWS4" ++ secret) scope.timestamp) scope.region) scope.service)
            footer
  unfolding get_signing_key
  get_signing_key-chain secret scope = simp (laws.final-create, laws.final-clear)
