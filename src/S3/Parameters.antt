-- ===== src/S3/Parameters.antt =====
-- The parameters of the client's calls (include/s3cpp/aws/s3/client.hpp).
use s3cpp.Prelude.{ℕ, Bool, Option, Text}

-- `MaxKeys` is 1000 where the caller does not say otherwise, `MaxBuckets` 10000.
pub record ListObjectsParameters : Type 0 where
  pub bucket : Text
  pub marker : Option Text
  pub delimiter : Option Text
  pub encoding_type : Option Text
  pub max_keys : ℕ
  pub prefix : Option Text

pub record ListObjectsV2Parameters : Type 0 where
  pub bucket : Text
  pub continuation_token : Option Text
  pub delimiter : Option Text
  pub encoding_type : Option Text
  pub fetch_owner : Bool
  pub max_keys : ℕ
  pub prefix : Option Text
  pub start_after : Option Text

pub record ListBucketsParameters : Type 0 where
  pub bucket_region : Option Text
  pub continuation_token : Option Text
  pub max_buckets : ℕ
  pub prefix : Option Text

abbrev pub default_max_keys : ℕ
default_max_keys = 1000

abbrev pub default_max_buckets : ℕ
default_max_buckets = 10000
