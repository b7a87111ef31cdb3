-- ===== src/S3/Parse/Pages.antt =====
-- What a page of a listing promises to the loop that asks for the next one.
use s3cpp.Prelude.{
  ℕ, ◌≡◌, ◌⊎◌, Bool, true, false, Option, none, some, ◌∷◌, arith, Text, codes, ok, Ensures,
  Ensures-ok, Ensures->>=,
}
use s3cpp.S3.Types.{ListObjectsResult, ListObjectsV2Result}
use s3cpp.S3.Xml.{Pugi, Describe}
use s3cpp.S3.Parse.{
  root, parse_contents, parse_truncation, parse_list_objects, parse_list_objects_v2,
}

-- A page names a next page, by a token that is not empty, exactly when it says that it is
-- truncated.
abbrev pub HasToken : Bool → Option Text → Type 0
HasToken is_truncated token =
    ((c : ℕ) × (s : Text) × (is_truncated ≡ true) × (token ≡ some (c ∷ s)))
    ⊎ ((is_truncated ≡ false) × (token ≡ none))

module _ (x : Pugi) (d : Describe) where
  parse_truncation-HasToken :
      (node : x.Node) (next : Text) → Ensures (λ t. HasToken t.0 t.1) (parse_truncation x node next)
  unfolding parse_truncation
  parse_truncation-HasToken node next = ground arith

  parse_list_objects-Ensures :
      (body : Text)
      → Ensures (λ r. HasToken r.is_truncated r.next_marker) (parse_list_objects x d body)
  unfolding parse_list_objects
  parse_list_objects-Ensures body =
      Ensures->>= (λ r. HasToken r.is_truncated r.next_marker)
        (root x (codes "ListBucketResult") body) _
        λ node _.
          Ensures->>= (λ r. HasToken r.is_truncated r.next_marker) (parse_contents x d node) _
            λ c _.
              Ensures->>= (λ r. HasToken r.is_truncated r.next_marker)
                (parse_truncation x node (codes "NextMarker")) _
                λ t.
                  Ensures-ok (λ t. HasToken t.0 t.1) (parse_truncation x node (codes "NextMarker"))
                    (parse_truncation-HasToken node (codes "NextMarker"))

  -- Every first-version page that is read names a next page, by a token that is not empty, exactly
  -- when it is truncated.
  pub parse_list_objects-HasToken :
      (body : Text) (r : ListObjectsResult)
      → parse_list_objects x d body ≡ ok r
      → HasToken r.is_truncated r.next_marker
  parse_list_objects-HasToken body r =
      Ensures-ok (λ r. HasToken r.is_truncated r.next_marker) (parse_list_objects x d body)
        (parse_list_objects-Ensures body)

  parse_list_objects_v2-Ensures :
      (body : Text)
      → Ensures
          (λ r. HasToken r.is_truncated r.next_continuation_token)
          (parse_list_objects_v2 x d body)
  unfolding parse_list_objects_v2
  parse_list_objects_v2-Ensures body =
      Ensures->>= (λ r. HasToken r.is_truncated r.next_continuation_token)
        (root x (codes "ListBucketResult") body) _
        λ node _.
          Ensures->>= (λ r. HasToken r.is_truncated r.next_continuation_token)
            (parse_contents x d node) _
            λ c _.
              Ensures->>= (λ r. HasToken r.is_truncated r.next_continuation_token)
                (parse_truncation x node (codes "NextContinuationToken")) _
                λ t.
                  Ensures-ok (λ t. HasToken t.0 t.1)
                    (parse_truncation x node (codes "NextContinuationToken"))
                    (parse_truncation-HasToken node (codes "NextContinuationToken"))

  -- Every second-version page that is read names a next page, by a token that is not empty, exactly
  -- when it is truncated.
  pub parse_list_objects_v2-HasToken :
      (body : Text) (r : ListObjectsV2Result)
      → parse_list_objects_v2 x d body ≡ ok r
      → HasToken r.is_truncated r.next_continuation_token
  parse_list_objects_v2-HasToken body r =
      Ensures-ok (λ r. HasToken r.is_truncated r.next_continuation_token)
        (parse_list_objects_v2 x d body) (parse_list_objects_v2-Ensures body)
