-- ===== src/S3/Parse/Objects.antt =====
-- What an element of a listing is read as.
use s3cpp.Prelude.{Ensures->>=, Ensures-ok, ℕ, ◌<◌, ◌≡◌, ◌≢◌, none, some, [], Text, codes, ok}
use s3cpp.Std.Decimal.{digit_prefix, from_digits, size_max, from_chars, to_decimal}
use s3cpp.Std.Decimal.RoundTrip.{from_chars-to_decimal}
use s3cpp.S3.Types.{Object}
use s3cpp.S3.Xml.{Pugi, Describe}
use s3cpp.S3.Parse.{
  parse_enum, parse_algorithm, parse_type, parse_size_of, parse_size, parse_object,
}

-- An object with a key and a size, and nothing else but its tag.
abbrev pub plain_object : Text → Text → ℕ → Object
plain_object etag key size = record {
  checksum_algorithm = none;
  checksum_type = none;
  etag = some etag;
  key = some key;
  last_modified = none;
  owner = none;
  restore_status = none;
  size = some size;
  storage_class = none;
}

parse_size-empty : (n : ℕ) → parse_size [] ≢ ok n
unfolding parse_size parse_size_of from_chars digit_prefix from_digits
parse_size-empty n e = cc

module _ (x : Pugi) (d : Describe) where
  open x use {Node, child_value}

  -- An element whose size is written in decimal, and which names no checksum, is read as its key,
  -- its tag and that size, for every size that a `std::size_t` holds.
  pub parse_object-to_decimal :
      (xml : Node) (n : ℕ)
      → n < size_max
      → child_value xml (codes "Size") ≡ to_decimal n
      → child_value xml (codes "ChecksumAlgorithm") ≡ []
      → child_value xml (codes "ChecksumType") ≡ []
      → parse_object x d xml
        ≡ ok (plain_object (child_value xml (codes "ETag")) (child_value xml (codes "Key")) n)
  unfolding parse_object parse_algorithm parse_type parse_enum parse_size
  parse_object-to_decimal xml n h size algorithm type =
      rw (algorithm, type, size, from_chars-to_decimal n h, parse_size_of)

  -- An element without a size is refused, whatever else it holds.
  pub parse_object-needs_size :
      (xml : Node) (o : Object) → child_value xml (codes "Size") ≡ [] → parse_object x d xml ≢ ok o
  unfolding parse_object
  parse_object-needs_size xml o size =
      Ensures-ok (λ _. ⊥) (parse_object x d xml)
        (Ensures->>= (λ _. ⊥) (parse_algorithm x d xml) _
          λ algorithm _.
            Ensures->>= (λ _. ⊥) (parse_type x d xml) _
              λ type _.
                Ensures->>= (λ _. ⊥) (parse_size (child_value xml (codes "Size"))) _
                  λ n e. absurd (parse_size-empty n (rw size at e)))
