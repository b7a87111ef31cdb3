-- ===== src/S3/Client/Pages.antt =====
-- What a client's answer promises to a loop over the pages of a listing.
use s3cpp.Prelude.{◌≡◌, refl, Text, Outcome, ok, unexpected, threw, transform_error}
use s3cpp.Iam.BoostUrl.{BoostUrl}
use s3cpp.S3.Parameters.{ListObjectsParameters, ListObjectsV2Parameters}
use s3cpp.S3.Types.{ListObjectsResult, ListObjectsV2Result}
use s3cpp.S3.Xml.{Pugi, Describe, ParseStatus}
use s3cpp.S3.Parse.{parse_list_objects, parse_list_objects_v2}
use s3cpp.S3.Parse.Pages.{HasToken, parse_list_objects-HasToken, parse_list_objects_v2-HasToken}
use s3cpp.S3.Client.{SessionApi, answered, list_objects, list_objects_v2}

transform_error-ok :
    {E F : Type 0} {A : Type 0} (f : E → F) (m : Outcome E A) {a : A}
    → transform_error f m ≡ ok a
    → m ≡ ok a
transform_error-ok f (ok b) e = cc
transform_error-ok f (unexpected c) e = cc
transform_error-ok f (threw t) e = cc

-- An answer is a value only if the session's body parses to it.
pub answered-ok :
    {Ec : Type 0} {A : Type 0} (parse : Text → Outcome ParseStatus A) (res : Outcome Ec Text)
    {a : A}
    → answered parse res ≡ ok a
    → (body : Text) × (res ≡ ok body) × (parse body ≡ ok a)
unfolding answered
answered-ok parse (ok body) e = (body, refl, transform_error-ok _ (parse body) e)
answered-ok parse (unexpected c) e = cc
answered-ok parse (threw t) e = cc

module _ (s : SessionApi) (u : BoostUrl) (x : Pugi) (d : Describe) where
  -- Whatever the network does, an answer of `list_objects` names a next page, by a marker that is
  -- not empty, exactly when it is truncated.
  pub list_objects-HasToken :
      (p : ListObjectsParameters) (headers : s.Fields) (net : s.Net) (r : ListObjectsResult)
      → (list_objects s u x d p headers net).0 ≡ ok r
      → HasToken r.is_truncated r.next_marker
  unfolding list_objects
  list_objects-HasToken p headers net r e =
      let (body, _, read) = answered-ok (parse_list_objects x d) _ e in
      parse_list_objects-HasToken x d body r read

  -- Whatever the network does, an answer of `list_objects_v2` names a next page, by a token that is
  -- not empty, exactly when it is truncated.
  pub list_objects_v2-HasToken :
      (p : ListObjectsV2Parameters) (headers : s.Fields) (net : s.Net) (r : ListObjectsV2Result)
      → (list_objects_v2 s u x d p headers net).0 ≡ ok r
      → HasToken r.is_truncated r.next_continuation_token
  unfolding list_objects_v2
  list_objects_v2-HasToken p headers net r e =
      let (body, _, read) = answered-ok (parse_list_objects_v2 x d) _ e in
      parse_list_objects_v2-HasToken x d body r read
