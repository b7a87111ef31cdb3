-- ===== src/Iam/Canonicalize.antt =====
-- lib/aws/iam/canonicalize.cpp: the canonical form of a request.
pub mod Names
pub mod Query
pub mod Payload
pub mod Host
use s3cpp.Prelude.{
  ◌>>=◌, Bool, true, false, ◌&&◌, ◌||◌, Option, none, some, List, [], ◌∷◌, ◌++◌, ◌==◌,
  if◌then◌else◌, value_or, is_empty, Text, codes, text_eq, Outcome, ok, unexpected, threw,
}
use s3cpp.Std.Map.{emplace}
use s3cpp.Iam.Http.{Http, Param}
use s3cpp.Iam.Botan.{Botan}

-- The iterator behind the host field is dereferenced also where there is none: undefined behaviour.
pub data Fault : Type 0 where
  no_host : Fault

-- `ret.pop_back()`.
pub drop_last : Text → Text
drop_last [] = []
drop_last (c ∷ []) = []
drop_last (c ∷ d ∷ s) = c ∷ drop_last (d ∷ s)

-- The map of the parameters by key; of several with one key it keeps the first.
pub param_map : List Param → List (Text × Param) → List (Text × Param)
param_map [] m = m
param_map (p ∷ ps) m = param_map ps (emplace p.key p m)

pub format_params : List (Text × Param) → Text
format_params [] = []
format_params ((key, p) ∷ m) = p.key ++ b'=' ∷ (value_or p.given [] ++ b'&' ∷ format_params m)

pub canonical_query : List Param → Text
canonical_query params = drop_last (format_params (param_map params []))

-- `substr(find_first_not_of(' '))` and `substr(0, find_last_not_of(' ') + 1)`, each left out where
-- nothing but spaces is there.
drop_spaces : Text → Text
drop_spaces [] = []
drop_spaces (c ∷ s) = let rest = drop_spaces s in if c == b' ' then rest else c ∷ s

keep_to_last : Text → Text
keep_to_last [] = []
keep_to_last (c ∷ s) =
    let rest = keep_to_last s in if is_empty rest && (c == b' ') then [] else c ∷ rest

unless_all_spaces : Text → Text → Text
unless_all_spaces v [] = v
unless_all_spaces v (c ∷ s) = c ∷ s

pub trim : Text → Text
unfolding drop_spaces keep_to_last unless_all_spaces
trim v =
    let from_first = unless_all_spaces v (drop_spaces v) in
    unless_all_spaces from_first (keep_to_last from_first)

starts_with : Text → Text → Bool
starts_with [] t = true
starts_with (c ∷ s) [] = false
starts_with (c ∷ s) (d ∷ t) = (c == d) && starts_with s t

-- Whether a header is signed besides the host.
pub is_signed : Text → Bool
unfolding starts_with
is_signed lower = starts_with (codes "x-amz-") lower || text_eq lower (codes "content-md5")

-- "name:value\n" for each header; the host's value may not be there.
pub format_headers : List (Text × Option Text) → Outcome Fault Text
format_headers [] = ok []
format_headers ((name, none) ∷ m) = unexpected no_host
format_headers ((name, some v) ∷ m) = do
  rest ← format_headers m
  ok (name ++ b':' ∷ (trim v ++ b'\n' ∷ rest))

pub format_names : List (Text × Option Text) → Text
format_names [] = []
format_names ((name, v) ∷ m) = name ++ b';' ∷ format_names m

pub signed_headers : List (Text × Option Text) → Text
signed_headers m = drop_last (format_names m)

module _ (h : Http) (b : Botan) where
  open h use {Fields, entries, find_host, get, set, to_lower, parse_origin_form}

  -- The loop over the fields.
  pub add_headers : List (Text × Text) → List (Text × Option Text) → List (Text × Option Text)
  add_headers [] m = m
  add_headers ((name, v) ∷ es) m =
      add_headers es (if is_signed (to_lower name) then emplace (to_lower name) (some v) m else m)

  pub header_map : Fields → List (Text × Option Text)
  header_map fields = add_headers (entries fields) (emplace (codes "host") (find_host fields) [])

  -- The payload's digest, which is put into the fields if it is not there.
  unfoldable pub payload_hash : Text → Fields → Text × Fields
  payload_hash body fields =
      if is_empty (get fields (codes "x-amz-content-sha256"))
      then (let fields' =
            set fields (codes "x-amz-content-sha256") (b.hex_encode (b.sha256 body)) in
          (get fields' (codes "x-amz-content-sha256"), fields'))
      else (get fields (codes "x-amz-content-sha256"), fields)

  -- The canonical request, the signed headers, and the fields behind the call.
  pub canonicalize_request : Text → Text → Text → Fields → Outcome Fault ((Text × Text) × Fields)
  canonicalize_request method target body fields = elim (parse_origin_form target) [
    | none ↦ threw (codes "parse_origin_form")
    | some parts ↦ (do
      headers ← format_headers (header_map fields)
      let signed = signed_headers (header_map fields)
      let hashed = payload_hash body fields
      ok (
        (
          method
              ++ b'\n'
                ∷ (parts.encoded_path
                    ++ b'\n'
                      ∷ (canonical_query parts.encoded_params
                          ++ b'\n' ∷ (headers ++ b'\n' ∷ (signed ++ b'\n' ∷ hashed.0)))),
          signed,
        ),
        hashed.1,
      ))
  ]
