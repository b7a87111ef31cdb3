-- ===== src/S3/Session.antt =====
-- lib/aws/s3/session.cpp and session_extra.cpp: the target that a request is sent to and the fields
-- that are put into it.
pub mod Target
pub mod Carried
pub mod Prepared
use s3cpp.Prelude.{
  ℕ, zero, suc, Bool, not, ◌&&◌, [], ◌∷◌, ◌++◌, if◌then◌else◌, length, is_empty, Text, codes,
  Outcome, ok, ◌>>=◌,
}
use s3cpp.Iam.BoostUrl.{BoostUrl}
use s3cpp.Iam.Urlencode.{urlencode_path, urlencode_path_required}
use s3cpp.Iam.Http.{Http}
use s3cpp.Iam.Botan.{Botan}
use s3cpp.Iam.Signature.{Scope, sign_request}
use s3cpp.Iam.Canonicalize.{Fault, canonicalize_request}

-- `iam::Session`; the endpoint is the texts that its accessors give.
pub record Session : Type 0 where
  pub access_key : Text
  pub secret_access_key : Text
  pub region : Text
  pub scheme : Text
  pub host_name : Text
  pub encoded_host_and_port : Text

-- `substr(0, 8)`.
first_eight : ℕ → Text → Text
first_eight zero s = []
first_eight (suc n) [] = []
first_eight (suc n) (c ∷ s) = c ∷ first_eight n s

pub signing_scope : Session → Text → Scope
unfolding first_eight
signing_scope session timestamp = record {
  timestamp = first_eight 8 timestamp;
  region = session.region;
  service = codes "s3";
}

module _ (u : BoostUrl) where
  pub encoded_path : Text → Bool → Text
  encoded_path path is_path_encoded =
      if not is_path_encoded && urlencode_path_required u path then urlencode_path u path else path

  -- The target of `method_impl`.
  pub encoded_target : Text → Bool → Text → Text
  encoded_target path is_path_encoded [] = encoded_path path is_path_encoded
  encoded_target path is_path_encoded (c ∷ query) =
      encoded_path path is_path_encoded ++ b'?' ∷ (c ∷ query)

module _ (h : Http) (b : Botan) where
  open h use {Fields, get, set, content_length}

  -- The digest that the request is given, if its caller gave none.
  pub with_digest : Text → Fields → Fields
  with_digest body fields =
      if is_empty (get fields (codes "x-amz-content-sha256"))
      then set fields (codes "x-amz-content-sha256") (b.hex_encode (b.sha256 body))
      else fields

  -- `prepare_request` at a time whose text is `timestamp`: the fields that are sent.
  pub prepare_request : Session → Text → Text → Text → Text → Fields → Outcome Fault Fields
  prepare_request session timestamp method target body fields =
      let hosted = set fields (codes "Host") session.encoded_host_and_port in
      let sized = content_length (with_digest body hosted) (length body) in
      let dated = set sized (codes "x-amz-date") timestamp in
      let accepting = set dated (codes "Accept-Encoding") (codes "identity") in
      do
        canonical ← canonicalize_request h b method target body accepting
        ok (
            set canonical.1 (codes "Authorization") (
              sign_request b session.access_key session.secret_access_key canonical.0.0
                canonical.0.1 timestamp (signing_scope session timestamp)))
