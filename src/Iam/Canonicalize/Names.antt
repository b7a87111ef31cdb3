-- ===== src/Iam/Canonicalize/Names.antt =====
-- canonicalize.cpp: which headers of a request are signed.
use s3cpp.Prelude.{
  ◌≡◌, inl, inr, Bool, false, ◌&&◌, ◌||◌, Option, some, List, [], ◌∷◌, arith, Bool-cases, Text,
  codes, text_eq,
}
use s3cpp.Std.Map.{emplace, holds, IsMap, emplace-IsMap, holds-emplace}
use s3cpp.Iam.Http.{Http}
use s3cpp.Iam.Botan.{Botan}
use s3cpp.Iam.Canonicalize.{is_signed, add_headers, header_map}

module _ (h : Http) (b : Botan) where
  -- Whether one of the fields has the name and is of those that are signed.
  abbrev pub signed_field : Text → List (Text × Text) → Bool
  signed_field i [] = false
  signed_field i ((name, v) ∷ es) =
      (text_eq (h.to_lower name) i && is_signed (h.to_lower name)) || signed_field i es

  add_headers-IsMap :
      (es : List (Text × Text)) (m : List (Text × Option Text))
      → IsMap m
      → IsMap (add_headers h b es m)
  unfolding add_headers
  add_headers-IsMap [] m valid = valid
  add_headers-IsMap ((name, v) ∷ es) m valid = elim (Bool-cases (is_signed (h.to_lower name))) [
    | inl y ↦ rw y (add_headers-IsMap es _ (emplace-IsMap (h.to_lower name) (some v) m valid))
    | inr n ↦ rw n (add_headers-IsMap es m valid)
  ]

  or-turn : (a b c : Bool) → (a || (b || c)) ≡ ((b || a) || c)
  or-turn a b c = ground arith

  holds-add_headers :
      (i : Text) (es : List (Text × Text)) (m : List (Text × Option Text))
      → holds i (add_headers h b es m) ≡ (holds i m || signed_field i es)
  unfolding add_headers
  holds-add_headers i [] m = ground arith
  holds-add_headers i ((name, v) ∷ es) m = elim (Bool-cases (is_signed (h.to_lower name))) [
    | inl y ↦
        rw
          (
            y,
            holds-add_headers i es (emplace (h.to_lower name) (some v) m),
            holds-emplace (h.to_lower name) i (some v) m,
          )
          (ground arith)
    | inr n ↦ rw (n, holds-add_headers i es m) (ground arith)
  ]

  -- The signed headers are in strictly rising order of their lower-case names, so none stands
  -- twice, and they are the host and, of the request's fields, those whose lower-case name begins
  -- with "x-amz-" or is "content-md5".
  pub header_map-IsSigned :
      (fields : h.Fields) (i : Text)
      → IsMap (header_map h b fields)
        × (holds i (header_map h b fields)
            ≡ (text_eq (codes "host") i || signed_field i (h.entries fields)))
  unfolding header_map
  header_map-IsSigned fields i = (
    add_headers-IsMap (h.entries fields) _
        (emplace-IsMap (codes "host") (h.find_host fields) [] tt),
    rw
        (
          holds-add_headers i (h.entries fields) (emplace (codes "host") (h.find_host fields) []),
          holds-emplace (codes "host") i (h.find_host fields) [],
        )
        (ground arith),
  )
