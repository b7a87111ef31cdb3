-- ===== src/S3/Types.antt =====
-- The results of the client's calls (include/s3cpp/aws/s3/types.hpp). A time is a number of ticks
-- of the system clock; the parser sets none.
use s3cpp.Prelude.{ℕ, Bool, false, Option, none, List, [], ◌∷◌, Text, codes}

abbrev pub TimePoint : Type 0
TimePoint = ℕ

pub record Owner : Type 0 where
  pub display_name : Option Text
  pub id : Option Text

pub record RestoreStatus : Type 0 where
  pub is_restore_in_progress : Option Bool
  pub restore_expiry_date : Option TimePoint

pub data ChecksumAlgorithm : Type 0 where
  crc32 crc32c sha1 sha256 crc64nvme : ChecksumAlgorithm

pub data ChecksumType : Type 0 where
  composite full_object : ChecksumType

pub data StorageClass : Type 0 where
  standard reduced_redundancy glacier standard_ia onezone_ia intelligent_tiering : StorageClass
  deep_archive outposts glacier_ir snow express_onezone fsx_openzfs : StorageClass

-- The names that `BOOST_DESCRIBE_NESTED_ENUM` gives the enumerators.
abbrev pub checksum_algorithms : List (Text × ChecksumAlgorithm)
checksum_algorithms =
    (codes "CRC32", crc32)
    ∷ (codes "CRC32C", crc32c)
    ∷ (codes "SHA1", sha1)
    ∷ (codes "SHA256", sha256)
    ∷ (codes "CRC64NVME", crc64nvme)
    ∷ []

abbrev pub checksum_types : List (Text × ChecksumType)
checksum_types = (codes "COMPOSITE", composite) ∷ (codes "FULL_OBJECT", full_object) ∷ []

pub record Object : Type 0 where
  pub checksum_algorithm : Option ChecksumAlgorithm
  pub checksum_type : Option ChecksumType
  pub etag : Option Text
  pub key : Option Text
  pub last_modified : Option TimePoint
  pub owner : Option Owner
  pub restore_status : Option RestoreStatus
  pub size : Option ℕ
  pub storage_class : Option StorageClass

pub record CommonPrefix : Type 0 where
  pub prefix : Option Text

pub record ListObjectsResult : Type 0 where
  pub common_prefixes : Option (List CommonPrefix)
  pub contents : Option (List Object)
  pub delimiter : Option Text
  pub encoding_type : Option Text
  pub is_truncated : Bool
  pub marker : Option Text
  pub max_keys : ℕ
  pub name : Text
  pub next_marker : Option Text
  pub prefix : Text

pub record ListObjectsV2Result : Type 0 where
  pub common_prefixes : Option (List CommonPrefix)
  pub contents : Option (List Object)
  pub continuation_token : Option Text
  pub delimiter : Option Text
  pub encoding_type : Option Text
  pub is_truncated : Bool
  pub key_count : ℕ
  pub max_keys : ℕ
  pub name : Text
  pub next_continuation_token : Option Text
  pub prefix : Text
  pub start_after : Option Text

pub record Bucket : Type 0 where
  pub bucket_arn : Option Text
  pub bucket_region : Option Text
  pub creation_date : Option TimePoint
  pub name : Option Text

pub record ListAllMyBucketsResult : Type 0 where
  pub buckets : List Bucket
  pub owner : Owner
  pub continuation_token : Option Text
  pub prefix : Option Text

-- The values of a result that has just been made: `ListObjectsResult{}` and the others.
abbrev pub empty_result : ListObjectsResult
empty_result = record {
  common_prefixes = none;
  contents = none;
  delimiter = none;
  encoding_type = none;
  is_truncated = false;
  marker = none;
  max_keys = 0;
  name = [];
  next_marker = none;
  prefix = [];
}

abbrev pub empty_v2_result : ListObjectsV2Result
empty_v2_result = record {
  common_prefixes = none;
  contents = none;
  continuation_token = none;
  delimiter = none;
  encoding_type = none;
  is_truncated = false;
  key_count = 0;
  max_keys = 0;
  name = [];
  next_continuation_token = none;
  prefix = [];
  start_after = none;
}

abbrev pub empty_buckets_result : ListAllMyBucketsResult
empty_buckets_result = record {
  buckets = [];
  owner = record { display_name = none; id = none };
  continuation_token = none;
  prefix = none;
}
