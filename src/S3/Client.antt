-- ===== src/S3/Client.antt =====
-- `aws::s3::Client` (include/s3cpp/aws/s3/client.hpp, lib/aws/s3/client): each call is one GET over
-- a session, whose answer is parsed.
pub mod Pages
use s3cpp.Prelude.{
  Bool, true, false, ◌∷◌, Text, codes, Outcome, ok, unexpected, threw, transform_error,
}
use s3cpp.Iam.BoostUrl.{BoostUrl}
use s3cpp.S3.Parameters.{ListObjectsParameters, ListObjectsV2Parameters, ListBucketsParameters}
use s3cpp.S3.Types.{ListObjectsResult, ListObjectsV2Result, ListAllMyBucketsResult}
use s3cpp.S3.Xml.{Pugi, Describe, ParseStatus}
use s3cpp.S3.Query.{list_objects_prepare_query, list_objects_v2_prepare_query, list_buckets_query}
use s3cpp.S3.Parse.{parse_list_objects, parse_list_objects_v2, parse_list_buckets}

-- What a client needs of a session: `get(path, query, headers, is_path_encoded)` gives a response's
-- body or an error code, and leaves the network in another state.
pub record SessionApi : Type 1 where
  pub Net : Type 0
  pub Fields : Type 0
  pub ErrorCode : Type 0
  pub get : Text → Text → Fields → Bool → Net → Outcome ErrorCode Text × Net

-- `std::variant<boost::beast::error_code, pugi::xml_parse_status>`.
pub data ClientError (ErrorCode : Type 0) : Type 0 where
  beast_error : ErrorCode → ClientError ErrorCode
  parse_error : ParseStatus → ClientError ErrorCode

-- What a call does with the session's answer.
unfoldable pub answered {ℓ} :
    {Ec : Type 0} {A : Type ℓ}
    → (Text → Outcome ParseStatus A)
    → Outcome Ec Text
    → Outcome (ClientError Ec) A
answered parse (ok body) = transform_error parse_error (parse body)
answered parse (unexpected e) = unexpected (beast_error e)
answered parse (threw t) = threw t

module _ (s : SessionApi) (u : BoostUrl) (x : Pugi) (d : Describe) where
  open s use {Net, Fields, ErrorCode, get}

  unfoldable pub list_objects :
      ListObjectsParameters → Fields → Net → Outcome (ClientError ErrorCode) ListObjectsResult × Net
  list_objects p headers net =
      let (res, net') = get (b'/' ∷ p.bucket) (list_objects_prepare_query u p) headers false net in
      (answered (parse_list_objects x d) res, net')

  unfoldable pub list_objects_v2 :
      ListObjectsV2Parameters
      → Fields
      → Net
      → Outcome (ClientError ErrorCode) ListObjectsV2Result × Net
  list_objects_v2 p headers net =
      let (res, net') =
        get (b'/' ∷ p.bucket) (list_objects_v2_prepare_query u p) headers false net in
      (answered (parse_list_objects_v2 x d) res, net')

  unfoldable pub list_buckets :
      ListBucketsParameters
      → Fields
      → Net
      → Outcome (ClientError ErrorCode) ListAllMyBucketsResult × Net
  list_buckets p headers net =
      let (res, net') = get (codes "/") (list_buckets_query u p) headers true net in
      (answered (parse_list_buckets x) res, net')
