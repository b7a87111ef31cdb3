-- ===== src/S3/Parse.antt =====
-- The readers of XML answers: `Object::Object(const pugi::xml_node &)` (lib/aws/s3/types.cpp),
-- `parse_list_objects` and `parse_list_buckets` (lib/aws/s3/client). A null-pointer test of
-- `child_value` always passes and is left out.
pub mod Objects
pub mod Pages
use s3cpp.Prelude.{
  ◌>>=◌, ℕ, Bool, true, false, Option, none, some, List, [], ◌∷◌, ◌++◌, map, if◌then◌else◌,
  value_or, Text, codes, text_eq, Outcome, ok, unexpected, threw, traverse,
}
use s3cpp.Std.Decimal.{FromChars, parsed, invalid_argument, result_out_of_range, from_chars}
use s3cpp.S3.Types.{
  ChecksumAlgorithm, ChecksumType, Object, CommonPrefix, ListObjectsResult, ListObjectsV2Result,
  Bucket, ListAllMyBucketsResult, checksum_algorithms, checksum_types, empty_result,
  empty_v2_result, empty_buckets_result,
}
use s3cpp.S3.Xml.{Pugi, Describe, ParseStatus, status_ok, status_file_not_found, failed}

-- `if (std::strlen(v) != 0) { field = v; }` over an empty field.
abbrev pub unless_empty : Text → Option Text
unless_empty [] = none
unless_empty (c ∷ s) = some (c ∷ s)

-- The guard of `ChecksumAlgorithm` and `ChecksumType`.
unfoldable pub parse_enum :
    {E : Type 0} → (Text → Option E) → Text → Text → Outcome ParseStatus (Option E)
parse_enum from_string message [] = ok none
parse_enum from_string message (c ∷ s) = elim (from_string (c ∷ s)) [
  | none ↦ threw (message ++ c ∷ s)
  | some e ↦ ok (some e)
]

parse_size_of : FromChars → Outcome ParseStatus ℕ
parse_size_of (parsed n) = ok n
parse_size_of invalid_argument = threw (codes "failed to parse object size")
parse_size_of result_out_of_range = threw (codes "failed to parse object size")

unfoldable pub parse_size : Text → Outcome ParseStatus ℕ
unfolding parse_size_of
parse_size s = parse_size_of (from_chars s)

module _ (x : Pugi) where
  open x use {Node, load_buffer, is_null, child, children, child_value}

  -- The status of `document.load_buffer_inplace`, and the lookup of the root element.
  loaded : ParseStatus → Node → Outcome ParseStatus Node
  loaded status_ok document = ok document
  loaded status_file_not_found document = unexpected status_file_not_found
  loaded (failed code) document = unexpected (failed code)

  unfoldable pub root : Text → Text → Outcome ParseStatus Node
  unfolding loaded
  root name body = do
    document ← loaded (load_buffer body).0 (load_buffer body).1
    if is_null (child document name)
        then unexpected status_file_not_found
        else ok (child document name)

  common_prefix : Node → CommonPrefix
  common_prefix node = record { prefix = some (child_value node (codes "Prefix")) }

  unfoldable pub parse_common_prefixes : Node → Option (List CommonPrefix)
  unfolding common_prefix
  parse_common_prefixes node =
      if is_null (child node (codes "CommonPrefixes"))
      then none
      else some (map common_prefix (children node (codes "CommonPrefixes")))

  -- `IsTruncated` and the token of the next page, which stands in the element `next`.
  unfoldable pub parse_truncation : Node → Text → Outcome ParseStatus (Bool × Option Text)
  parse_truncation node next =
      let flag = child_value node (codes "IsTruncated") in
      if text_eq flag (codes "true")
      then (elim (child_value node next) [
        | [] ↦ threw (codes "missing " ++ next)
        | c ∷ s ↦ ok (true, some (c ∷ s))
      ])
      else (if text_eq flag (codes "false")
          then ok (false, none)
          else threw (codes "unknown IsTruncated value " ++ flag))

  unfoldable pub parse_bucket : Node → Bucket
  parse_bucket node = record {
    bucket_arn = unless_empty (child_value node (codes "BucketArn"));
    bucket_region = unless_empty (child_value node (codes "BucketRegion"));
    creation_date = none;
    name = some (child_value node (codes "Name"));
  }

  -- The loop runs over the children named "Buckets" and reads the first "Bucket" of each.
  unfoldable pub parse_buckets : Node → List Bucket
  parse_buckets node =
      if is_null (child node (codes "Buckets"))
      then []
      else map (λ entry. parse_bucket (child entry (codes "Bucket")))
          (children node (codes "Buckets"))

  unfoldable pub parse_list_buckets : Text → Outcome ParseStatus ListAllMyBucketsResult
  parse_list_buckets body = do
    node ← root (codes "ListAllMyBucketsResult") body
    ok (record empty_buckets_result {
      buckets = parse_buckets node;
      continuation_token = unless_empty (child_value node (codes "ContinuationToken"));
      prefix = unless_empty (child_value node (codes "Prefix"));
    })

module _ (x : Pugi) (d : Describe) where
  open x use {Node, is_null, child, children, child_value}

  unfoldable pub parse_algorithm : Node → Outcome ParseStatus (Option ChecksumAlgorithm)
  parse_algorithm xml =
      parse_enum (d.enum_from_string checksum_algorithms) (codes "unknown checksum algorithm ")
        (child_value xml (codes "ChecksumAlgorithm"))

  unfoldable pub parse_type : Node → Outcome ParseStatus (Option ChecksumType)
  parse_type xml =
      parse_enum (d.enum_from_string checksum_types) (codes "unknown checksum type ")
        (child_value xml (codes "ChecksumType"))

  unfoldable pub parse_object : Node → Outcome ParseStatus Object
  parse_object xml = do
    algorithm ← parse_algorithm xml
    type ← parse_type xml
    parsed_size ← parse_size (child_value xml (codes "Size"))
    ok (record {
      checksum_algorithm = algorithm;
      checksum_type = type;
      etag = some (child_value xml (codes "ETag"));
      key = some (child_value xml (codes "Key"));
      last_modified = none;
      owner = none;
      restore_status = none;
      size = some parsed_size;
      storage_class = none;
    })

  unfoldable pub parse_contents : Node → Outcome ParseStatus (Option (List Object))
  parse_contents node = if is_null (child node (codes "Contents")) then ok none else (do
    objects ← traverse parse_object (children node (codes "Contents"))
    ok (some objects))

  -- `parse_list_objects<ListObjectsVersion::V1>`.
  unfoldable pub parse_list_objects : Text → Outcome ParseStatus ListObjectsResult
  parse_list_objects body = do
    node ← root x (codes "ListBucketResult") body
    contents ← parse_contents node
    truncation ← parse_truncation x node (codes "NextMarker")
    ok (record empty_result {
      common_prefixes = parse_common_prefixes x node;
      contents = contents;
      delimiter = unless_empty (child_value node (codes "Delimiter"));
      marker = unless_empty (child_value node (codes "Marker"));
      is_truncated = truncation.0;
      next_marker = truncation.1;
      prefix = value_or (unless_empty (child_value node (codes "Prefix"))) [];
    })

  -- `parse_list_objects<ListObjectsVersion::V2>`.
  unfoldable pub parse_list_objects_v2 : Text → Outcome ParseStatus ListObjectsV2Result
  parse_list_objects_v2 body = do
    node ← root x (codes "ListBucketResult") body
    contents ← parse_contents node
    truncation ← parse_truncation x node (codes "NextContinuationToken")
    ok (record empty_v2_result {
      common_prefixes = parse_common_prefixes x node;
      contents = contents;
      delimiter = unless_empty (child_value node (codes "Delimiter"));
      continuation_token = unless_empty (child_value node (codes "ContinuationToken"));
      is_truncated = truncation.0;
      next_continuation_token = truncation.1;
      prefix = value_or (unless_empty (child_value node (codes "Prefix"))) [];
    })
