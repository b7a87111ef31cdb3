-- ===== src/S3/Query/StartAfter.antt =====
-- `StartAfter` is the one free text of a `ListObjectsV2` query that is sent as it is.
use s3cpp.Prelude.{
  ℕ, ◌≡◌, refl, true, false, none, some, [], ◌∷◌, ◌++◌, append_assoc, arith, is_empty, all, Text,
  codes,
}
use s3cpp.Iam.BoostUrl.{BoostUrl}
use s3cpp.Std.Decimal.{to_decimal}
use s3cpp.S3.Query.{add_param, add_some, add_if, list_objects_v2_prepare_query}
use s3cpp.S3.Query.Reader.{read_query}
use s3cpp.S3.Query.Shows.{Shows, Shows-first, Shows-add_param, is_name_byte}
use s3cpp.S3.Query.Steps.{IsPlain, Writes-literal, Writes-decimal}
use s3cpp.S3.Parameters.{ListObjectsV2Parameters}

-- A call that sets the start alone.
abbrev pub starting : Text → ℕ → Text → ListObjectsV2Parameters
starting bucket max_keys start = record {
  bucket = bucket;
  continuation_token = none;
  delimiter = none;
  encoding_type = none;
  fetch_owner = false;
  max_keys = max_keys;
  prefix = none;
  start_after = some start;
}

add_param-split :
    (query x y : Text)
    → is_empty query ≡ false
    → add_param query (x ++ b'&' ∷ y) ≡ add_param (add_param query x) y
unfolding add_param
add_param-split [] x y h = cc
add_param-split (c ∷ query) x y h = simp append_assoc

module _ (u : BoostUrl) where
  Shows-injected :
      (bucket : Text) (max_keys : ℕ) (x name value : Text)
      → IsPlain x
      → all is_name_byte name ≡ true
      → IsPlain value
      → Shows
          (list_objects_v2_prepare_query u
            (starting bucket max_keys (x ++ b'&' ∷ (name ++ b'=' ∷ []) ++ value)))
          ((codes "list-type", codes "2")
            ∷ (codes "max-keys", to_decimal max_keys)
            ∷ (codes "start-after", x)
            ∷ (name, value)
            ∷ [])
  unfolding list_objects_v2_prepare_query add_some add_if
  Shows-injected bucket max_keys x name value hx n hv =
      rw
        (
          append_assoc x (b'&' ∷ name ++ b'=' ∷ []) value,
          add_param-split two (codes "start-after=" ++ x) ((name ++ b'=' ∷ []) ++ value)
              two_shows.started,
        )
        (Shows-add_param _ _ name value
          (Shows-add_param two _ (codes "start-after") x two_shows
            (Writes-literal (codes "start-after") x refl hx))
          (Writes-literal name value n hv))
    where
      two : Text
      two =
          add_param (add_param [] (codes "list-type=2")) (codes "max-keys=" ++ to_decimal max_keys)

      two_shows :
          Shows two ((codes "list-type", codes "2") ∷ (codes "max-keys", to_decimal max_keys) ∷ [])
      two_shows =
          Shows-add_param _ (codes "max-keys=" ++ to_decimal max_keys) (codes "max-keys")
            (to_decimal max_keys)
            (Shows-first (codes "list-type=2") (codes "list-type") (codes "2") refl
              (Writes-literal (codes "list-type") (codes "2") refl (omega arith)))
            (Writes-decimal (codes "max-keys") max_keys refl)

  -- A start of the form "x&name=value", whose x and value hold no '&' and no '%' and whose name is
  -- made of name bytes, is read as the start x and one more parameter of that name and value.
  pub start_after-injects :
      (bucket : Text) (max_keys : ℕ) (x name value : Text)
      → IsPlain x
      → all is_name_byte name ≡ true
      → IsPlain value
      → read_query (
          list_objects_v2_prepare_query u
            (starting bucket max_keys (x ++ b'&' ∷ (name ++ b'=' ∷ []) ++ value)))
        ≡ some (
            (codes "list-type", codes "2")
            ∷ (codes "max-keys", to_decimal max_keys)
            ∷ (codes "start-after", x)
            ∷ (name, value)
            ∷ [])
  start_after-injects bucket max_keys x name value hx n hv =
      (Shows-injected bucket max_keys x name value hx n hv).read
