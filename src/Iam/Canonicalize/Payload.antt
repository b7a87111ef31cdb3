-- ===== src/Iam/Canonicalize/Payload.antt =====
-- canonicalize.cpp: the digest that is signed is the one that is sent.
use s3cpp.Prelude.{
  ℕ, ◌≡◌, refl, ◌⊎◌, inl, inr, true, false, [], ◌∷◌, ◌++◌, append_assoc, Bool-cases, Option-cases,
  is_empty, Text, codes, Ensures, Ensures->>=,
}
use s3cpp.Iam.Http.{Http, IsHttp}
use s3cpp.Iam.Botan.{Botan}
use s3cpp.Iam.Canonicalize.{
  canonicalize_request, payload_hash, header_map, format_headers, canonical_query, signed_headers,
}

-- A text ends with another.
abbrev pub EndsWith : Text → Text → Type 0
EndsWith t s = (front : Text) × (s ≡ front ++ t)

EndsWith-append : (t r s : Text) → EndsWith t s → EndsWith t (r ++ s)
EndsWith-append t r s (front, e) = (r ++ front, rw (e, append_assoc r front t) refl)

EndsWith-line : (t : Text) (c : ℕ) (s : Text) → EndsWith t s → EndsWith t (c ∷ s)
EndsWith-line t c s = EndsWith-append t (c ∷ []) s

module _ (h : Http) (b : Botan) (laws : IsHttp h) where
  -- The digest in the canonical request is the one in the fields `out.1`: that of the body, where
  -- the caller's fields had none, and else the fields are the caller's.
  abbrev pub IsSent : Text → h.Fields → (Text × Text) × h.Fields → Type 0
  IsSent body fields out =
      EndsWith (h.get out.1 (codes "x-amz-content-sha256")) out.0.0
      × (((is_empty (h.get fields (codes "x-amz-content-sha256")) ≡ true)
            × (h.get out.1 (codes "x-amz-content-sha256") ≡ b.hex_encode (b.sha256 body)))
          ⊎ ((is_empty (h.get fields (codes "x-amz-content-sha256")) ≡ false) × (out.1 ≡ fields)))

  payload_hash-get :
      (body : Text) (fields : h.Fields)
      → (payload_hash h b body fields).0
        ≡ h.get (payload_hash h b body fields).1 (codes "x-amz-content-sha256")
  unfolding payload_hash
  payload_hash-get body fields =
      elim (Bool-cases (is_empty (h.get fields (codes "x-amz-content-sha256")))) [
        | inl y ↦ rw y refl
        | inr n ↦ rw n refl
      ]

  payload_hash-digest :
      (body : Text) (fields : h.Fields)
      → ((is_empty (h.get fields (codes "x-amz-content-sha256")) ≡ true)
          × (h.get (payload_hash h b body fields).1 (codes "x-amz-content-sha256")
              ≡ b.hex_encode (b.sha256 body)))
        ⊎ ((is_empty (h.get fields (codes "x-amz-content-sha256")) ≡ false)
            × ((payload_hash h b body fields).1 ≡ fields))
  unfolding payload_hash
  payload_hash-digest body fields =
      elim (Bool-cases (is_empty (h.get fields (codes "x-amz-content-sha256")))) [
        | inl y ↦ inl (
          y,
          rw y (laws.get-set fields (codes "x-amz-content-sha256") (b.hex_encode (b.sha256 body))),
        )
        | inr n ↦ inr (n, rw n refl)
      ]

  -- The canonical request ends with the digest that stands in the fields behind the call; where
  -- the caller gave none, that is the digest of the body, and else the fields are the caller's.
  pub canonicalize_request-IsSent :
      (method target body : Text) (fields : h.Fields)
      → Ensures (IsSent body fields) (canonicalize_request h b method target body fields)
  unfolding canonicalize_request
  canonicalize_request-IsSent method target body fields =
      elim (Option-cases (h.parse_origin_form target)) [
        | inl n ↦ rw (canonicalize_request, n) tt
        | inr (parts, e) ↦
            rw (canonicalize_request, e)
              (Ensures->>= (IsSent body fields) (format_headers (header_map h b fields)) _
                (λ headers _. (
                  EndsWith-append _ method _ (
                      EndsWith-line _ _ _ (
                        EndsWith-append _ parts.encoded_path _ (
                          EndsWith-line _ _ _ (
                            EndsWith-append _ (canonical_query parts.encoded_params) _ (
                              EndsWith-line _ _ _ (
                                EndsWith-append _ headers _ (
                                  EndsWith-line _ _ _ (
                                    EndsWith-append _ (signed_headers (header_map h b fields)) _ (
                                      EndsWith-line _ _ _
                                        ([], payload_hash-get body fields)))))))))),
                  payload_hash-digest body fields,
                )))
      ]
