-- ===== src/Tests/Requests.antt =====
-- The theorems on queries at concrete inputs.
use s3cpp.Std.Decimal.{to_decimal}
use s3cpp.S3.Query.RoundTrip.{
  read_query-list_objects_v2_prepare_query, read_query-list_buckets_query,
  read_query-list_objects_prepare_query, list_objects_v2_params, list_objects_params,
  list_buckets_params,
}
use s3cpp.S3.Query.StartAfter.{start_after-injects, starting}
use s3cpp.S3.Query.{list_objects_prepare_query, list_objects_v2_prepare_query, list_buckets_query}
use s3cpp.S3.Query.Reader.{read_query}
use s3cpp.Prelude.{◌≡◌, refl, true, Option, none, some, [], ◌∷◌, ◌++◌, arith, Text, codes}
use s3cpp.Tests.Fixtures.{boost, boost-IsBoostUrl}
use s3cpp.S3.Parameters.{ListObjectsParameters, ListObjectsV2Parameters, ListBucketsParameters}

abbrev pub call : ListObjectsParameters
call = record {
  bucket = codes "b";
  marker = some (codes "k&1");
  delimiter = some (codes "/");
  encoding_type = none;
  max_keys = 1000;
  prefix = some (codes "a b");
}

abbrev pub call_v2 : ListObjectsV2Parameters
call_v2 = record {
  bucket = codes "b";
  continuation_token = some (codes "t=1");
  delimiter = some (codes "/");
  encoding_type = none;
  fetch_owner = true;
  max_keys = 7;
  prefix = some (codes "a b");
  start_after = some (codes "k");
}

abbrev call_buckets : ListBucketsParameters
call_buckets = record {
  bucket_region = some (codes "eu");
  continuation_token = none;
  max_buckets = 10;
  prefix = some (codes "a&b");
}

none_not_url : ◌≡◌ {A = Option Text} none (some (codes "url")) → ⊥
none_not_url e = cc

read_query-list_objects_prepare_query_example :
    read_query (list_objects_prepare_query boost call) ≡ some (list_objects_params call)
read_query-list_objects_prepare_query_example =
    read_query-list_objects_prepare_query boost boost-IsBoostUrl call (record {
      marker = omega arith;
      delimiter = omega arith;
      encoding_type = tt;
      not_url = none_not_url;
      prefix = omega arith;
    })

read_query-list_objects_v2_prepare_query_example :
    read_query (list_objects_v2_prepare_query boost call_v2) ≡ some (list_objects_v2_params call_v2)
read_query-list_objects_v2_prepare_query_example =
    read_query-list_objects_v2_prepare_query boost boost-IsBoostUrl call_v2 (record {
      continuation_token = omega arith;
      start_after = omega arith;
      delimiter = omega arith;
      encoding_type = tt;
      not_url = none_not_url;
      prefix = omega arith;
    })

read_query-list_buckets_query_example :
    read_query (list_buckets_query boost call_buckets) ≡ some (list_buckets_params call_buckets)
read_query-list_buckets_query_example =
    read_query-list_buckets_query boost boost-IsBoostUrl call_buckets
      (record { bucket_region = omega arith; continuation_token = tt; prefix = omega arith })

start_after-injects_example :
    read_query (
      list_objects_v2_prepare_query boost (
        starting
          (codes "b")
          5
          (codes "x" ++ b'&' ∷ (codes "prefix" ++ b'=' ∷ []) ++ codes "secret")))
    ≡ some (
        (codes "list-type", codes "2")
        ∷ (codes "max-keys", to_decimal 5)
        ∷ (codes "start-after", codes "x")
        ∷ (codes "prefix", codes "secret")
        ∷ [])
start_after-injects_example =
    start_after-injects boost (codes "b") 5 (codes "x") (codes "prefix") (codes "secret")
      (omega arith) refl (omega arith)
