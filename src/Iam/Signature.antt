-- ===== src/Iam/Signature.antt =====
-- scope.hpp, string_to_sign.cpp and sign_request.cpp: the AWS signature, version 4.
pub mod Chain
pub mod Lines
use s3cpp.Prelude.{◌∷◌, ◌++◌, Text, codes}
use s3cpp.Iam.Botan.{Botan}

pub record Scope : Type 0 where
  pub timestamp : Text
  pub region : Text
  pub service : Text

abbrev pub footer : Text
footer = codes "aws4_request"

-- `std::formatter<Scope>`.
pub format_scope : Scope → Text
format_scope s = s.timestamp ++ b'/' ∷ (s.region ++ b'/' ∷ (s.service ++ b'/' ∷ footer))

module _ (b : Botan) where
  open b use {sha256, hex_encode, create, set_key, update, final, clear}

  pub string_to_sign : Text → Scope → Text → Text
  string_to_sign canonical_request scope timestamp =
      codes "AWS4-HMAC-SHA256"
      ++ b'\n'
        ∷ (timestamp
            ++ b'\n' ∷ (format_scope scope ++ b'\n' ∷ hex_encode (sha256 canonical_request)))

  -- One object serves the four rounds; each result is the key of the next.
  pub get_signing_key : Text → Scope → Text
  get_signing_key secret_access_key scope =
      let date =
        final (update (set_key create (codes "AWS4" ++ secret_access_key)) scope.timestamp) in
      let region = final (update (set_key (clear date.1) date.0) scope.region) in
      let service = final (update (set_key (clear region.1) region.0) scope.service) in
      (final (update (set_key (clear service.1) service.0) footer)).0

  pub sign_request : Text → Text → Text → Text → Text → Scope → Text
  sign_request access_key secret_access_key canonical_request signed_headers timestamp scope =
      let key = get_signing_key secret_access_key scope in
      let text = string_to_sign canonical_request scope timestamp in
      let signature = hex_encode (final (update (set_key create key) text)).0 in
      codes "AWS4-HMAC-SHA256 Credential="
      ++ (access_key
          ++ b'/'
            ∷ (format_scope scope
                ++ (codes ",SignedHeaders="
                    ++ (signed_headers ++ (codes ",Signature=" ++ signature)))))
