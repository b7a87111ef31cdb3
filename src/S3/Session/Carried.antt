-- ===== src/S3/Session/Carried.antt =====
-- The fields that a request carries behind `prepare_request`, and what setting a field leaves of them.
use s3cpp.Prelude.{
  Bool, ◌||◌, ◌⊎◌, false, text_eq_refl, false, text_eq, subst, if◌then◌else◌, ap, true, sym, ◌≡◌,
  refl, ◌∙◌, ◌≢◌, inl, inr, some, Bool-cases, length, is_empty, Text, codes,
}
use s3cpp.Iam.Http.{Http, IsHttp}
use s3cpp.Iam.Botan.{Botan}
use s3cpp.Iam.Canonicalize.{payload_hash}
use s3cpp.S3.Session.{with_digest}
use s3cpp.Std.Decimal.{to_decimal}

-- Texts that the test tells apart are different.
pub apart : (a b : Text) → text_eq a b ≡ false → a ≢ b
apart a b n e =
    let y = subst (λ t. text_eq a t ≡ true) e (text_eq_refl a) in let z = sym y ∙ n in cc

pub digest_encoding : codes "x-amz-content-sha256" ≢ codes "accept-encoding"
digest_encoding = apart _ _ refl

pub digest_length : codes "x-amz-content-sha256" ≢ codes "content-length"
digest_length = apart _ _ refl

pub digest_transfer : codes "x-amz-content-sha256" ≢ codes "transfer-encoding"
digest_transfer = apart _ _ refl

pub length_encoding : codes "content-length" ≢ codes "accept-encoding"
length_encoding = apart _ _ refl

pub authorization_apart :
    (codes "authorization" ≢ codes "host")
    × (codes "authorization" ≢ codes "content-length")
    × (codes "authorization" ≢ codes "x-amz-date")
    × (codes "authorization" ≢ codes "accept-encoding")
authorization_apart = (apart _ _ refl, apart _ _ refl, apart _ _ refl, apart _ _ refl)

pub digest_authorization : codes "x-amz-content-sha256" ≢ codes "authorization"
digest_authorization = apart _ _ refl

-- The names, in lower case, of the fields that `prepare_request` may change.
abbrev pub is_reserved : Text → Bool
is_reserved name =
    text_eq name (codes "host")
    || text_eq name (codes "x-amz-content-sha256")
    || text_eq name (codes "content-length")
    || text_eq name (codes "transfer-encoding")
    || text_eq name (codes "x-amz-date")
    || text_eq name (codes "accept-encoding")
    || text_eq name (codes "authorization")

pub unreserved : {a b : Text} → is_reserved a ≡ false → is_reserved b ≡ true → a ≢ b
unreserved n y e = let z = sym y ∙ (sym (ap is_reserved e) ∙ n) in cc

module _ (h : Http) (b : Botan) (laws : IsHttp h) where
  open h use {Fields, find_host, get, set, content_length, to_lower}

  -- The digest that a request carries: the caller's, or that of its body.
  abbrev pub digest_of : Text → Fields → Text
  digest_of body fields =
      if is_empty (get fields (codes "x-amz-content-sha256"))
      then b.hex_encode (b.sha256 body)
      else get fields (codes "x-amz-content-sha256")

  -- The fields of a request: the host and what `prepare_request` puts beside it, and under each
  -- name that is not reserved what the caller gave.
  pub record Carries (host timestamp body : Text) (fields : Fields) (f : Fields) : Type 0 where
    pub has_host : find_host f ≡ some host
    pub has_digest : get f (codes "x-amz-content-sha256") ≡ digest_of body fields
    pub has_length : get f (codes "Content-Length") ≡ to_decimal (length body)
    pub has_date : get f (codes "x-amz-date") ≡ timestamp
    pub has_encoding : get f (codes "Accept-Encoding") ≡ codes "identity"
    pub has_others :
        (other : Text) → (is_reserved (to_lower other) ≡ true) ⊎ (get f other ≡ get fields other)

  -- Setting a field leaves one with another name as it is.
  pub get-other :
      (f : Fields) (name other v : Text) {low : Text}
      → to_lower name ≡ low
      → to_lower other ≢ low
      → get (set f name v) other ≡ get f other
  get-other f name other v e ne = laws.get-set_ne f name other v (λ s. ne (sym s ∙ e))

  pub differ :
      (name : Text) {low : Text} → to_lower name ≡ low → (t : Text) → low ≢ t → to_lower name ≢ t
  differ name e t ne s = ne (sym e ∙ s)

  pub with_digest-other :
      (body : Text) (f : Fields) (other : Text)
      → to_lower other ≢ codes "x-amz-content-sha256"
      → get (with_digest h b body f) other ≡ get f other
  unfolding with_digest
  with_digest-other body f other ne =
      elim (Bool-cases (is_empty (get f (codes "x-amz-content-sha256")))) [
        | inl y ↦ rw y (get-other f (codes "x-amz-content-sha256") other _ laws.to_lower-digest ne)
        | inr n ↦ rw n refl
      ]

  pub with_digest-digest :
      (body : Text) (f fields : Fields)
      → get f (codes "x-amz-content-sha256") ≡ get fields (codes "x-amz-content-sha256")
      → get (with_digest h b body f) (codes "x-amz-content-sha256") ≡ digest_of body fields
  unfolding with_digest
  with_digest-digest body f fields same =
      elim (Bool-cases (is_empty (get fields (codes "x-amz-content-sha256")))) [
        | inl y ↦ rw (ap is_empty same ∙ y, y) (laws.get-set f (codes "x-amz-content-sha256") _)
        | inr n ↦ rw (ap is_empty same ∙ n, n) same
      ]

  pub with_digest-host :
      (body : Text) (f : Fields) → find_host (with_digest h b body f) ≡ find_host f
  unfolding with_digest
  with_digest-host body f = elim (Bool-cases (is_empty (get f (codes "x-amz-content-sha256")))) [
    | inl y ↦ rw y (
        laws.find_host-set_ne f (codes "x-amz-content-sha256") _
          (differ _ laws.to_lower-digest _ (apart _ _ refl)))
    | inr n ↦ rw n refl
  ]

  module _ (host timestamp body : Text) (fields : Fields) where
    -- A field with another name than those that are carried can be set.
    pub Carries-set :
        (f : Fields) (name v : Text) {low : Text}
        → to_lower name ≡ low
        → (low ≢ codes "host")
          × (low ≢ codes "content-length")
          × (low ≢ codes "x-amz-date")
          × (low ≢ codes "accept-encoding")
        → is_reserved low ≡ true
        → get (set f name v) (codes "x-amz-content-sha256") ≡ digest_of body fields
        → Carries host timestamp body fields f
        → Carries host timestamp body fields (set f name v)
    Carries-set f name v e (host_ne, length_ne, date_ne, encoding_ne) r digest c = record {
      has_host = laws.find_host-set_ne f name v (differ name e _ host_ne) ∙ c.has_host;
      has_digest = digest;
      has_length =
          get-other f name (codes "Content-Length") v e
            (differ _ laws.to_lower-length _ (λ s. length_ne (sym s)))
          ∙ c.has_length;
      has_date =
          get-other f name (codes "x-amz-date") v e
            (differ _ laws.to_lower-date _ (λ s. date_ne (sym s)))
          ∙ c.has_date;
      has_encoding =
          get-other f name (codes "Accept-Encoding") v e
            (differ _ laws.to_lower-encoding _ (λ s. encoding_ne (sym s)))
          ∙ c.has_encoding;
      has_others = λ other. elim (Bool-cases (is_reserved (to_lower other))) [
        | inl y ↦ inl y
        | inr n ↦ elim (c.has_others other) [
          | inl y ↦ inl y
          | inr same ↦ inr (get-other f name other v e (unreserved n r) ∙ same)
        ]
      ];
    }

    -- A digest that is put in again is the same.
    digest_again :
        (f : Fields)
        → is_empty (get f (codes "x-amz-content-sha256")) ≡ true
        → get f (codes "x-amz-content-sha256") ≡ digest_of body fields
        → b.hex_encode (b.sha256 body) ≡ digest_of body fields
    digest_again f y e = elim (Bool-cases (is_empty (get fields (codes "x-amz-content-sha256")))) [
      | inl z ↦ rw z refl
      | inr n ↦ let x = rw n at e in let z = sym y ∙ (ap is_empty x ∙ n) in cc
    ]

    pub payload_hash-Carries :
        (f : Fields)
        → Carries host timestamp body fields f
        → Carries host timestamp body fields (payload_hash h b body f).1
    unfolding payload_hash
    payload_hash-Carries f c = elim (Bool-cases (is_empty (get f (codes "x-amz-content-sha256")))) [
      | inl y ↦ rw y (
          Carries-set f (codes "x-amz-content-sha256") _ laws.to_lower-digest
            ((apart _ _ refl), (apart _ _ refl), (apart _ _ refl), (apart _ _ refl)) refl
            (laws.get-set f (codes "x-amz-content-sha256") _ ∙ digest_again f y c.has_digest) c)
      | inr n ↦ rw n c
    ]

  pub digest_ne :
      {t : Text} → codes "x-amz-content-sha256" ≢ t → to_lower (codes "x-amz-content-sha256") ≢ t
  digest_ne ne s = ne (sym laws.to_lower-digest ∙ s)
