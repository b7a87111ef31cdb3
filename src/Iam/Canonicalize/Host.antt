-- ===== src/Iam/Canonicalize/Host.antt =====
-- canonicalize.cpp: a request with a host can be brought into its canonical form.
use s3cpp.Prelude.{
  ◌≡◌, refl, inl, inr, true, Option, none, some, List, [], ◌∷◌, ◌++◌, arith, Bool-cases, has_value,
  All, Text, ok,
}
use s3cpp.Std.Map.{emplace}
use s3cpp.Iam.Http.{Http, Target}
use s3cpp.Iam.Botan.{Botan}
use s3cpp.Iam.Canonicalize.{
  canonical_query, payload_hash, trim, signed_headers, is_signed, format_headers, add_headers,
  header_map, canonicalize_request,
}

-- Every header has a value.
abbrev HasValues : List (Text × Option Text) → Type 0
HasValues = All (λ e. has_value e.1 ≡ true)

HasValues-emplace :
    (k v : Text) (m : List (Text × Option Text)) → HasValues m → HasValues (emplace k (some v) m)
unfolding emplace
HasValues-emplace k v [] h = (refl, tt)
HasValues-emplace k v ((j, w) ∷ m) (n, h) = ground (arith, HasValues-emplace k v m h)

format_headers-HasValues :
    (m : List (Text × Option Text)) → HasValues m → (t : Text) × (format_headers m ≡ ok t)
unfolding format_headers
format_headers-HasValues [] h = ([], refl)
format_headers-HasValues ((name, none) ∷ m) (n, h) = cc
format_headers-HasValues ((name, some v) ∷ m) (n, h) =
    let (t, e) = format_headers-HasValues m h in (name ++ b':' ∷ (trim v ++ b'\n' ∷ t), rw e refl)

module _ (h : Http) (b : Botan) where
  open h use {Fields, entries, find_host, to_lower}

  add_headers-HasValues :
      (es : List (Text × Text)) (m : List (Text × Option Text))
      → HasValues m
      → HasValues (add_headers h b es m)
  unfolding add_headers
  add_headers-HasValues [] m v = v
  add_headers-HasValues ((name, w) ∷ es) m v = elim (Bool-cases (is_signed (to_lower name))) [
    | inl y ↦ rw y (add_headers-HasValues es _ (HasValues-emplace (to_lower name) w m v))
    | inr n ↦ rw n (add_headers-HasValues es m v)
  ]

  pub canonicalize_request-find_host :
      (method target body host : Text) (fields : Fields) (parts : Target)
      → h.parse_origin_form target ≡ some parts
      → find_host fields ≡ some host
      → (out : (Text × Text) × Fields) × (canonicalize_request h b method target body fields
          ≡ ok out)
        × (out.1 ≡ (payload_hash h b body fields).1)
  unfolding canonicalize_request header_map emplace
  canonicalize_request-find_host method target body host fields parts p f =
      let (t, e) =
        format_headers-HasValues (header_map h b fields)
          (add_headers-HasValues (entries fields) _ (rw f (refl, tt))) in
      let signed = signed_headers (header_map h b fields) in
      let hashed = payload_hash h b body fields in
      (
        (
          (
            method
                ++ b'\n'
                  ∷ (parts.encoded_path
                      ++ b'\n'
                        ∷ (canonical_query parts.encoded_params
                            ++ b'\n' ∷ (t ++ b'\n' ∷ (signed ++ b'\n' ∷ hashed.0)))),
            signed,
          ),
          hashed.1,
        ),
        rw (canonicalize_request, p, e) refl,
        refl,
      )
