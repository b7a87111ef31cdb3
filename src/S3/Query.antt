-- ===== src/S3/Query.antt =====
-- How lib/aws/s3/client/list_objects.cpp and list_buckets.cpp build the query of a request.
pub mod Reader
pub mod Shows
pub mod Steps
pub mod RoundTrip
pub mod StartAfter
use s3cpp.Prelude.{
  Bool, true, false, [], ◌∷◌, ◌++◌, Option, none, some, Text, codes, text_eq, value_or,
  if◌then◌else◌,
}
use s3cpp.Std.Decimal.{to_decimal}
use s3cpp.Iam.BoostUrl.{BoostUrl}
use s3cpp.Iam.Urlencode.{urlencode_query}
use s3cpp.S3.Parameters.{ListObjectsParameters, ListObjectsV2Parameters, ListBucketsParameters}

-- The local lambda `add_param`, over the query that it captures.
pub add_param : Text → Text → Text
add_param [] param = param
add_param (c ∷ query) param = (c ∷ query) ++ b'&' ∷ param

-- `if (value.has_value()) add_param(f(*value))`.
pub add_some : (Text → Text) → Option Text → Text → Text
add_some f none query = query
add_some f (some v) query = add_param query (f v)

pub add_if : Bool → Text → Text → Text
add_if true param query = add_param query param
add_if false param query = query

-- `std::format("name={}", value)`.
abbrev pub plainly : Text → Text → Text
plainly name v = name ++ v

module _ (u : BoostUrl) where
  -- `std::format("name={}", iam::urlencode_query(value))`.
  abbrev pub encoded : Text → Text → Text
  encoded name v = name ++ urlencode_query u v

  pub prefix_param : Option Text → Text → Text
  prefix_param encoding_type v =
      if text_eq (value_or encoding_type []) (codes "url")
      then plainly (codes "prefix=") v
      else encoded (codes "prefix=") v

  -- `list_objects_prepare_query<ListObjectsVersion::V1>`.
  pub list_objects_prepare_query : ListObjectsParameters → Text
  list_objects_prepare_query p =
      let q0 = add_param [] (codes "max-keys=" ++ to_decimal p.max_keys) in
      let q1 = add_some (encoded (codes "marker=")) p.marker q0 in
      let q2 = add_some (encoded (codes "delimiter=")) p.delimiter q1 in
      let q3 = add_some (plainly (codes "encoding-type=")) p.encoding_type q2 in
      add_some (prefix_param p.encoding_type) p.prefix q3

  -- `list_objects_prepare_query<ListObjectsVersion::V2>`.
  pub list_objects_v2_prepare_query : ListObjectsV2Parameters → Text
  list_objects_v2_prepare_query p =
      let q0 = add_param [] (codes "list-type=2") in
      let q1 = add_param q0 (codes "max-keys=" ++ to_decimal p.max_keys) in
      let q2 = add_some (encoded (codes "continuation-token=")) p.continuation_token q1 in
      let q3 = add_if p.fetch_owner (codes "fetch-owner=true") q2 in
      let q4 = add_some (plainly (codes "start-after=")) p.start_after q3 in
      let q5 = add_some (encoded (codes "delimiter=")) p.delimiter q4 in
      let q6 = add_some (plainly (codes "encoding-type=")) p.encoding_type q5 in
      add_some (prefix_param p.encoding_type) p.prefix q6

  -- The query of `Client::list_buckets`.
  pub list_buckets_query : ListBucketsParameters → Text
  list_buckets_query p =
      let q0 = add_some (encoded (codes "bucket-region=")) p.bucket_region [] in
      let q1 = add_some (encoded (codes "continuation-token=")) p.continuation_token q0 in
      let q2 = add_param q1 (codes "max-buckets=" ++ to_decimal p.max_buckets) in
      add_some (encoded (codes "prefix=")) p.prefix q2
