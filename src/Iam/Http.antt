-- ===== src/Iam/Http.antt =====
-- The parts of Boost.Beast, Boost.URL and Boost.Algorithm that lib/aws/iam/canonicalize.cpp and
-- lib/aws/s3/session_extra.cpp call.
use s3cpp.Std.Decimal.{to_decimal}
use s3cpp.Prelude.{ℕ, ◌≡◌, ◌≢◌, Option, some, List, Text, codes}

-- A query parameter: its key and its value, if it has one, both as they are encoded.
pub record Param : Type 0 where
  pub key : Text
  pub given : Option Text

pub record Target : Type 0 where
  pub encoded_path : Text
  pub encoded_params : List Param

-- Header fields: `entries` are the names and values in the order of iteration, `find_host` is the
-- value behind `find(field::host)`, if that is not the end, `get` is `operator[]`, and
-- `content_length` is the function of that name, which gives a request the length of its body.
pub record Http : Type 1 where
  pub Fields : Type 0
  pub entries : Fields → List (Text × Text)
  pub find_host : Fields → Option Text
  pub get : Fields → Text → Text
  pub set : Fields → Text → Text → Fields
  pub content_length : Fields → ℕ → Fields
  pub to_lower : Text → Text
  pub parse_origin_form : Text → Option Target

-- The documented behaviour: a field that has just been set is found, and setting another leaves it
-- as it is, names compared by their lower-case forms. A length is written as "Content-Length", and
-- nothing else changes but "Transfer-Encoding", where it can leave out "chunked".
pub record IsHttp (h : Http) : Type 0 where
  pub get-set : (f : h.Fields) (name v : Text) → h.get (h.set f name v) name ≡ v
  pub get-set_ne :
      (f : h.Fields) (name other v : Text)
      → h.to_lower name ≢ h.to_lower other
      → h.get (h.set f name v) other ≡ h.get f other
  pub find_host-set : (f : h.Fields) (v : Text) → h.find_host (h.set f (codes "Host") v) ≡ some v
  pub find_host-set_ne :
      (f : h.Fields) (name v : Text)
      → h.to_lower name ≢ codes "host"
      → h.find_host (h.set f name v) ≡ h.find_host f
  pub get-content_length :
      (f : h.Fields) (n : ℕ) → h.get (h.content_length f n) (codes "Content-Length") ≡ to_decimal n
  pub get-content_length_ne :
      (f : h.Fields) (n : ℕ) (other : Text)
      → h.to_lower other ≢ codes "content-length"
      → h.to_lower other ≢ codes "transfer-encoding"
      → h.get (h.content_length f n) other ≡ h.get f other
  pub find_host-content_length :
      (f : h.Fields) (n : ℕ) → h.find_host (h.content_length f n) ≡ h.find_host f
  pub to_lower-length : h.to_lower (codes "Content-Length") ≡ codes "content-length"
  pub to_lower-encoding : h.to_lower (codes "Accept-Encoding") ≡ codes "accept-encoding"
  pub to_lower-date : h.to_lower (codes "x-amz-date") ≡ codes "x-amz-date"
  pub to_lower-digest : h.to_lower (codes "x-amz-content-sha256") ≡ codes "x-amz-content-sha256"
  pub to_lower-authorization : h.to_lower (codes "Authorization") ≡ codes "authorization"
  pub to_lower-host : h.to_lower (codes "Host") ≡ codes "host"
