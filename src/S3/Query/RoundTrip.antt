-- ===== src/S3/Query/RoundTrip.antt =====
-- A server that reads a query gets the parameters of the call back.
use s3cpp.Prelude.{◌≡◌, refl, ◌≢◌, inl, List, [], ◌∷◌, ◌++◌, some, arith, Text, codes, IsBytes}
use s3cpp.Std.Decimal.{to_decimal}
use s3cpp.Iam.BoostUrl.{BoostUrl, IsBoostUrl}
use s3cpp.S3.Parameters.{ListObjectsParameters, ListObjectsV2Parameters, ListBucketsParameters}
use s3cpp.S3.Query.{list_objects_prepare_query, list_objects_v2_prepare_query, list_buckets_query}
use s3cpp.S3.Query.Reader.{read_query}
use s3cpp.S3.Query.Shows.{Shows, optional, Shows-first, Shows-add_param}
use s3cpp.S3.Query.Steps.{
  IsPlain, AllSome, Writes-literal, Writes-decimal, Shows-plainly, flag, Shows-flag,
  Begun-add_param, Shows-encoded, Begun-encoded, Shows-prefix,
}

-- The calls whose parameters survive: texts of bytes, an encoding type that means itself in a
-- query and is not "url" (which switches the encoding of the prefix off).
pub record IsSendable (p : ListObjectsParameters) : Type 0 where
  pub marker : AllSome IsBytes p.marker
  pub delimiter : AllSome IsBytes p.delimiter
  pub encoding_type : AllSome IsPlain p.encoding_type
  pub not_url : p.encoding_type ≢ some (codes "url")
  pub prefix : AllSome IsBytes p.prefix

-- The same for the second version, whose `StartAfter` is sent as it is.
pub record IsSendableV2 (p : ListObjectsV2Parameters) : Type 0 where
  pub continuation_token : AllSome IsBytes p.continuation_token
  pub start_after : AllSome IsPlain p.start_after
  pub delimiter : AllSome IsBytes p.delimiter
  pub encoding_type : AllSome IsPlain p.encoding_type
  pub not_url : p.encoding_type ≢ some (codes "url")
  pub prefix : AllSome IsBytes p.prefix

pub record IsSendableBuckets (p : ListBucketsParameters) : Type 0 where
  pub bucket_region : AllSome IsBytes p.bucket_region
  pub continuation_token : AllSome IsBytes p.continuation_token
  pub prefix : AllSome IsBytes p.prefix

-- What a call asks for, in the order of the query.
abbrev pub list_objects_params : ListObjectsParameters → List (Text × Text)
list_objects_params p =
    (codes "max-keys", to_decimal p.max_keys) ∷ []
    ++ optional (codes "marker") p.marker
    ++ optional (codes "delimiter") p.delimiter
    ++ optional (codes "encoding-type") p.encoding_type
    ++ optional (codes "prefix") p.prefix

abbrev pub list_objects_v2_params : ListObjectsV2Parameters → List (Text × Text)
list_objects_v2_params p =
    (codes "list-type", codes "2") ∷ []
    ++ (codes "max-keys", to_decimal p.max_keys) ∷ []
    ++ optional (codes "continuation-token") p.continuation_token
    ++ flag (codes "fetch-owner") p.fetch_owner
    ++ optional (codes "start-after") p.start_after
    ++ optional (codes "delimiter") p.delimiter
    ++ optional (codes "encoding-type") p.encoding_type
    ++ optional (codes "prefix") p.prefix

abbrev pub list_buckets_params : ListBucketsParameters → List (Text × Text)
list_buckets_params p =
    optional (codes "bucket-region") p.bucket_region
    ++ optional (codes "continuation-token") p.continuation_token
    ++ (codes "max-buckets", to_decimal p.max_buckets) ∷ []
    ++ optional (codes "prefix") p.prefix

module _ (u : BoostUrl) (b : IsBoostUrl u) where
  Shows-prepare_query :
      (p : ListObjectsParameters)
      → IsSendable p
      → Shows (list_objects_prepare_query u p) (list_objects_params p)
  unfolding list_objects_prepare_query
  Shows-prepare_query p h = Shows-prefix u b p.encoding_type p.prefix _ h.not_url h.prefix (
      Shows-plainly (codes "encoding-type") p.encoding_type _ refl h.encoding_type (
        Shows-encoded u b (codes "delimiter") p.delimiter _ refl h.delimiter (
          Shows-encoded u b (codes "marker") p.marker _ refl h.marker (
            Shows-first (codes "max-keys=" ++ to_decimal p.max_keys) (codes "max-keys")
              (to_decimal p.max_keys) refl (Writes-decimal (codes "max-keys") p.max_keys refl)))))

  Shows-v2_prepare_query :
      (p : ListObjectsV2Parameters)
      → IsSendableV2 p
      → Shows (list_objects_v2_prepare_query u p) (list_objects_v2_params p)
  unfolding list_objects_v2_prepare_query
  Shows-v2_prepare_query p h = Shows-prefix u b p.encoding_type p.prefix _ h.not_url h.prefix (
      Shows-plainly (codes "encoding-type") p.encoding_type _ refl h.encoding_type (
        Shows-encoded u b (codes "delimiter") p.delimiter _ refl h.delimiter (
          Shows-plainly (codes "start-after") p.start_after _ refl h.start_after (
            Shows-flag (codes "fetch-owner") p.fetch_owner _ refl (
              Shows-encoded u b (codes "continuation-token") p.continuation_token _ refl
                h.continuation_token
                (Shows-add_param _ (codes "max-keys=" ++ to_decimal p.max_keys) (codes "max-keys")
                  (to_decimal p.max_keys)
                  (Shows-first (codes "list-type=2") (codes "list-type") (codes "2") refl
                    (Writes-literal (codes "list-type") (codes "2") refl (omega arith)))
                  (Writes-decimal (codes "max-keys") p.max_keys refl)))))))

  Shows-list_buckets_query :
      (p : ListBucketsParameters)
      → IsSendableBuckets p
      → Shows (list_buckets_query u p) (list_buckets_params p)
  unfolding list_buckets_query
  Shows-list_buckets_query p h = Shows-encoded u b (codes "prefix") p.prefix _ refl h.prefix (
      Begun-add_param _ (codes "max-buckets=" ++ to_decimal p.max_buckets) (codes "max-buckets")
        (to_decimal p.max_buckets)
        (Begun-encoded u b (codes "continuation-token") p.continuation_token _ refl
          h.continuation_token
          (Begun-encoded u b (codes "bucket-region") p.bucket_region _ refl h.bucket_region
            (inl (refl, refl))))
        refl (Writes-decimal (codes "max-buckets") p.max_buckets refl))

  -- A server that reads the query of a sendable `ListObjects` call gets the call's parameters back:
  -- the names, the decoded values and their order.
  pub read_query-list_objects_prepare_query :
      (p : ListObjectsParameters)
      → IsSendable p
      → read_query (list_objects_prepare_query u p) ≡ some (list_objects_params p)
  read_query-list_objects_prepare_query p h = (Shows-prepare_query p h).read

  -- A server that reads the query of a sendable `ListObjectsV2` call gets the call's parameters
  -- back: the names, the decoded values and their order.
  pub read_query-list_objects_v2_prepare_query :
      (p : ListObjectsV2Parameters)
      → IsSendableV2 p
      → read_query (list_objects_v2_prepare_query u p) ≡ some (list_objects_v2_params p)
  read_query-list_objects_v2_prepare_query p h = (Shows-v2_prepare_query p h).read

  -- A server that reads the query of a `ListBuckets` call whose texts are bytes gets the call's
  -- parameters back: the names, the decoded values and their order.
  pub read_query-list_buckets_query :
      (p : ListBucketsParameters)
      → IsSendableBuckets p
      → read_query (list_buckets_query u p) ≡ some (list_buckets_params p)
  read_query-list_buckets_query p h = (Shows-list_buckets_query p h).read
