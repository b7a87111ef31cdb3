-- ===== src/S3/Query/Shows.antt =====
-- What a query under construction shows to a server that reads it, and how each step extends it.
use s3cpp.Prelude.{
  ℕ, ◌≡◌, refl, ◌≢◌, Bool, true, false, ◌&&◌, not, List, [], ◌∷◌, ◌++◌, append-nil, append_assoc,
  Option, none, some, arith, Text, Lacks, IsBytes, All-append, is_empty, all, ◌==◌,
}
use s3cpp.Iam.BoostUrl.{BoostUrl, IsBoostUrl}
use s3cpp.Iam.Urlencode.{urlencode_query}
use s3cpp.Iam.Urlencode.Decode.{pct_decode, decode_from, decode-plain}
use s3cpp.Iam.Urlencode.Alphabet.{urlencode_query-Lacks_and}
use s3cpp.Iam.Urlencode.RoundTrip.{pct_decode-urlencode_query}
use s3cpp.S3.Query.{add_param, add_some, encoded}
use s3cpp.S3.Query.Reader.{
  break_at, read_param, read_params, read_query, split-append, split-Lacks, read_params-append,
}

-- The query is not empty and is read as these parameters.
pub record Shows (query : Text) (ps : List (Text × Text)) : Type 0 where
  pub started : is_empty query ≡ false
  pub read : read_query query ≡ some ps

-- A parameter as it is written, and what it is read as.
pub record Writes (param name value : Text) : Type 0 where
  pub one : Lacks b'&' param
  pub read : read_param param ≡ some (name, value)

-- At most one parameter.
abbrev pub optional : Text → Option Text → List (Text × Text)
optional name none = []
optional name (some v) = (name, v) ∷ []

pub Shows-first :
    (param name value : Text)
    → is_empty param ≡ false
    → Writes param name value
    → Shows (add_param [] param) ((name, value) ∷ [])
unfolding add_param read_query read_params
Shows-first param name value ne w = record {
  started = ne;
  read = rw (split-Lacks b'&' param w.one, w.read);
}

pub Shows-add_param :
    (query : Text) {ps : List (Text × Text)} (param name value : Text)
    → Shows query ps
    → Writes param name value
    → Shows (add_param query param) (ps ++ (name, value) ∷ [])
unfolding add_param read_query
Shows-add_param [] param name value s w = cc (s.started)
Shows-add_param (c ∷ query) param name value s w = record {
  started = refl;
  read =
      rw (split-append b'&' (c ∷ query) param, split-Lacks b'&' param w.one)
        (read_params-append _ _ s.read (unfold read_params in rw w.read));
}

pub Shows-add_some :
    (f : Text → Text) (name : Text) (o : Option Text) (query : Text) {ps : List (Text × Text)}
    → Shows query ps
    → ((v : Text) → o ≡ some v → Writes (f v) name v)
    → Shows (add_some f o query) (ps ++ optional name o)
unfolding add_some
Shows-add_some f name none query {ps} s w = rw (append-nil ps) s
Shows-add_some f name (some v) query {ps} s w = Shows-add_param query (f v) name v s (w v refl)

-- A text in front of '=' that lacks '=' and '%', and so is read as it is.
pub record IsName (written name : Text) : Type 0 where
  pub head : (v : Text) → break_at b'=' (written ++ v) ≡ (name, v)
  pub decoded : pct_decode name ≡ some name
  pub safe : Lacks b'&' written

abbrev pub is_name_byte : ℕ → Bool
is_name_byte c = not (c == b'&') && not (c == b'=') && not (c == b'%')

break_at-name :
    (name v : Text) → all is_name_byte name ≡ true → break_at b'=' (name ++ b'=' ∷ v) ≡ (name, v)
unfolding break_at
break_at-name [] v h = refl
break_at-name (c ∷ name) v h = ground (arith, break_at-name name v)

name-decoded : (name : Text) → all is_name_byte name ≡ true → pct_decode name ≡ some name
unfolding pct_decode decode_from
name-decoded [] h = refl
name-decoded (c ∷ name) h =
    decode-plain c name name (ground arith) (name-decoded name (ground arith))

name-safe : (name : Text) → all is_name_byte name ≡ true → Lacks b'&' (name ++ b'=' ∷ [])
name-safe [] h = omega arith
name-safe (c ∷ name) h = (ground arith, name-safe name (ground arith))

-- Every literal name of the program is one, by evaluation.
pub all-IsName : (name : Text) → all is_name_byte name ≡ true → IsName (name ++ b'=' ∷ []) name
all-IsName name h = record {
  head = λ v. rw append_assoc (break_at-name name v h);
  decoded = name-decoded name h;
  safe = name-safe name h;
}

pub Writes-plainly :
    (written name v w : Text)
    → IsName written name
    → Lacks b'&' v
    → pct_decode v ≡ some w
    → Writes (written ++ v) name w
unfolding read_param
Writes-plainly written name v w n h e = record {
  one = All-append (λ d. d ≢ b'&') written v n.safe h;
  read = rw (n.head v, n.decoded, e);
}

module _ (u : BoostUrl) (b : IsBoostUrl u) where
  pub Writes-encoded :
      (written name v : Text)
      → IsName written name
      → IsBytes v
      → Writes (encoded u written v) name v
  Writes-encoded written name v n h =
      Writes-plainly written name (urlencode_query u v) v n (urlencode_query-Lacks_and u b v h)
        (pct_decode-urlencode_query u b v h)
