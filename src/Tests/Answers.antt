-- ===== src/Tests/Answers.antt =====
-- The theorems on the readers of answers at concrete inputs.
use s3cpp.Std.Decimal.{value_from, from_digits, digit_prefix, digits_of, to_decimal, from_chars}
use s3cpp.S3.Client.Pages.{list_objects_v2-HasToken}
use s3cpp.S3.Parse.Objects.{plain_object}
use s3cpp.S3.Parse.{
  parse_common_prefixes, parse_truncation, parse_size, parse_enum, parse_type, parse_algorithm,
  parse_contents, parse_list_objects_v2, parse_list_objects, parse_buckets, parse_list_buckets,
  root, parse_bucket, parse_object,
}
use s3cpp.S3.Parse.Pages.{HasToken}
use s3cpp.Prelude.{◌≡◌, refl, true, some, [], ◌∷◌, Text, codes, ok}
use s3cpp.Tests.Fixtures.{boost}
use s3cpp.Tests.Markup.{Markup, over, element, pugi, describe}
use s3cpp.Tests.Requests.{call, call_v2}
use s3cpp.S3.Types.{
  empty_result, ListObjectsResult, empty_v2_result, empty_buckets_result, ListObjectsV2Result,
  ListAllMyBucketsResult,
}
use s3cpp.S3.Client.{answered, list_objects_v2, list_objects, SessionApi}

-- A session whose every answer is the body `body`.
abbrev pub session : SessionApi
session = record {
  Net = Unit;
  Fields = Unit;
  ErrorCode = Unit;
  get = λ path query headers encoded net. (ok (codes "body"), net);
}

abbrev object : Markup
object =
    element (codes "Contents") []
      (element (codes "Key") (codes "k") over
        (element (codes "Size") (codes "42") over (element (codes "ETag") (codes "e") over over)))
      over

abbrev sizeless : Markup
sizeless = element (codes "Contents") [] (element (codes "Key") (codes "k") over over) over

-- A page that names a next one.
abbrev pub document : Markup
document =
    element [] []
      (element (codes "ListBucketResult") []
        (element (codes "IsTruncated") (codes "true") over (
          element (codes "NextMarker") (codes "m") over
            (element (codes "NextContinuationToken") (codes "t") over object)))
        over)
      over

-- Two buckets in the one element that holds them.
abbrev buckets : Markup
buckets =
    element (codes "ListAllMyBucketsResult") []
      (element (codes "Buckets") []
        (element (codes "Bucket") [] (element (codes "Name") (codes "one") over over)
          (element (codes "Bucket") [] (element (codes "Name") (codes "two") over over) over))
        over)
      over

abbrev buckets_document : Markup
buckets_document = element [] [] buckets over

abbrev object_node : (pugi over).Node
unfolding pugi
object_node = object

abbrev sizeless_node : (pugi over).Node
unfolding pugi
sizeless_node = sizeless

abbrev buckets_node : (pugi buckets_document).Node
unfolding pugi
buckets_node = buckets

abbrev listing_v1 : ListObjectsResult
listing_v1 = record empty_result {
  contents = some (plain_object (codes "e") (codes "k") 42 ∷ []);
  is_truncated = true;
  next_marker = some (codes "m");
}

abbrev pub listing_v2 : ListObjectsV2Result
listing_v2 = record empty_v2_result {
  contents = some (plain_object (codes "e") (codes "k") 42 ∷ []);
  is_truncated = true;
  next_continuation_token = some (codes "t");
}

listing_read : (list_objects session boost (pugi document) describe call tt tt).0 ≡ ok listing_v1
unfolding list_objects answered parse_list_objects root parse_contents parse_object parse_algorithm
    parse_type parse_enum parse_size from_chars digit_prefix from_digits value_from parse_truncation
    parse_common_prefixes pugi describe
listing_read = refl

listing_v2_read :
    (list_objects_v2 session boost (pugi document) describe call_v2 tt tt).0 ≡ ok listing_v2
unfolding list_objects_v2 answered parse_list_objects_v2 root parse_contents parse_object
    parse_algorithm parse_type parse_enum parse_size from_chars digit_prefix from_digits value_from
    parse_truncation parse_common_prefixes pugi describe
listing_v2_read = refl

pub listing_v2_parsed :
    (body : Text) → parse_list_objects_v2 (pugi document) describe body ≡ ok listing_v2
unfolding parse_list_objects_v2 root parse_contents parse_object parse_algorithm parse_type
    parse_enum parse_size from_chars digit_prefix from_digits value_from parse_truncation
    parse_common_prefixes pugi describe
listing_v2_parsed body = refl

abbrev two_buckets : ListAllMyBucketsResult
two_buckets = record empty_buckets_result {
  buckets =
      parse_bucket (pugi buckets_document) (
        (pugi buckets_document).child ((pugi buckets_document).child buckets_node (codes "Buckets"))
          (codes "Bucket"))
      ∷ [];
}

-- An answer with two buckets is read as one.
buckets_read : parse_list_buckets (pugi buckets_document) [] ≡ ok two_buckets
unfolding parse_list_buckets root parse_buckets parse_bucket pugi
buckets_read = refl

object_size : (pugi over).child_value object_node (codes "Size") ≡ to_decimal 42
unfolding pugi to_decimal digits_of
object_size = refl

object_bare :
    ((pugi over).child_value object_node (codes "ChecksumAlgorithm") ≡ [])
    × ((pugi over).child_value object_node (codes "ChecksumType") ≡ [])
unfolding pugi
object_bare = (refl, refl)

sizeless_size : (pugi over).child_value sizeless_node (codes "Size") ≡ []
unfolding pugi
sizeless_size = refl

list_objects_v2-HasToken_example : HasToken true (some (codes "t"))
list_objects_v2-HasToken_example =
    list_objects_v2-HasToken session boost (pugi document) describe call_v2 tt tt listing_v2
      listing_v2_read
