-- ===== src/S3/Session/Prepared.antt =====
-- What is signed of a request that is prepared, and what is sent.
use s3cpp.Prelude.{subst, sym, ◌≡◌, refl, ◌∙◌, inl, inr, some, Bool-cases, length, Text, codes, ok}
use s3cpp.Iam.Http.{Http, IsHttp, Target}
use s3cpp.Iam.Botan.{Botan}
use s3cpp.Iam.Canonicalize.{canonicalize_request}
use s3cpp.Iam.Canonicalize.Host.{canonicalize_request-find_host}
use s3cpp.S3.Session.{Session, signing_scope, with_digest, prepare_request}
use s3cpp.Iam.Signature.{sign_request}
use s3cpp.S3.Session.Carried.{
  apart, digest_encoding, digest_length, digest_transfer, length_encoding, authorization_apart,
  digest_authorization, unreserved, get-other, differ, with_digest-other, with_digest-digest,
  with_digest-host, Carries-set, payload_hash-Carries, digest_ne, Carries, is_reserved,
}

module _ (h : Http) (b : Botan) (laws : IsHttp h) where
  open h use {Fields, find_host, get, set, content_length, to_lower}

  -- The fields that are signed.
  unsigned : Session → Text → Text → Fields → Fields
  unsigned session timestamp body fields =
      let hosted = set fields (codes "Host") session.encoded_host_and_port in
      let sized = content_length (with_digest h b body hosted) (length body) in
      set (set sized (codes "x-amz-date") timestamp) (codes "Accept-Encoding") (codes "identity")

  unsigned-Carries :
      (session : Session) (timestamp body : Text) (fields : Fields)
      → Carries h b laws session.encoded_host_and_port timestamp body fields
          (unsigned session timestamp body fields)
  unfolding unsigned
  unsigned-Carries session timestamp body fields =
      let hosted = set fields (codes "Host") session.encoded_host_and_port in
      let digested = with_digest h b body hosted in
      let sized = content_length digested (length body) in
      let dated = set sized (codes "x-amz-date") timestamp in
      let digest = laws.to_lower-digest in
      let date = laws.to_lower-date in
      let encoding = laws.to_lower-encoding in
      let size = laws.to_lower-length in
      let same =
        get-other h b laws fields (codes "Host") (codes "x-amz-content-sha256")
          session.encoded_host_and_port laws.to_lower-host
          (differ h b laws _ digest _ (apart _ _ refl)) in
      record {
        has_host =
            laws.find_host-set_ne dated (codes "Accept-Encoding") _
              (differ h b laws _ encoding _ (apart _ _ refl))
            ∙ laws.find_host-set_ne sized (codes "x-amz-date") _
                (differ h b laws _ date _ (apart _ _ refl))
            ∙ laws.find_host-content_length digested (length body)
            ∙ with_digest-host h b laws body hosted
            ∙ laws.find_host-set fields session.encoded_host_and_port;
        has_digest =
            get-other h b laws dated (codes "Accept-Encoding") _ _ encoding
              (digest_ne h b laws digest_encoding)
            ∙ get-other h b laws sized (codes "x-amz-date") _ _ date
                (differ h b laws _ digest _ (apart _ _ refl))
            ∙ laws.get-content_length_ne digested _ _ (digest_ne h b laws digest_length)
                (digest_ne h b laws digest_transfer)
            ∙ with_digest-digest h b laws body hosted fields same;
        has_length =
            get-other h b laws dated (codes "Accept-Encoding") _ _ encoding
              (differ h b laws _ size _ length_encoding)
            ∙ get-other h b laws sized (codes "x-amz-date") _ _ date
                (differ h b laws _ size _ (apart _ _ refl))
            ∙ laws.get-content_length digested (length body);
        has_date =
            get-other h b laws dated (codes "Accept-Encoding") _ _ encoding
              (differ h b laws _ date _ (apart _ _ refl))
            ∙ laws.get-set sized (codes "x-amz-date") timestamp;
        has_encoding = laws.get-set dated (codes "Accept-Encoding") (codes "identity");
        has_others = λ other. elim (Bool-cases (is_reserved (to_lower other))) [
          | inl y ↦ inl y
          | inr n ↦ inr (
              get-other h b laws dated (codes "Accept-Encoding") other _ encoding
                (unreserved n refl)
              ∙ get-other h b laws sized (codes "x-amz-date") other _ date (unreserved n refl)
              ∙ laws.get-content_length_ne digested _ other (unreserved n refl) (unreserved n refl)
              ∙ with_digest-other h b laws body hosted other (unreserved n refl)
              ∙ get-other h b laws fields (codes "Host") other _ laws.to_lower-host
                  (unreserved n refl))
        ];
      }

  -- If the target parses, a request is prepared, whatever fields its caller gave, and it carries the
  -- signature of the canonical form of fields that already have the session's host, the digest that
  -- the caller gave or else that of the body, the length of the body, the time of the signature and
  -- the encoding "identity", and under every name that `prepare_request` does not change what the
  -- caller gave; and the fields that are sent have all of these too.
  pub prepare_request-signs :
      (session : Session) (timestamp method target body : Text) (fields : Fields) (parts : Target)
      → h.parse_origin_form target ≡ some parts
      → (out before : Fields) × (canonical : (Text × Text) × Fields) × (prepare_request h b session
            timestamp method target body fields
          ≡ ok out)
        × (canonicalize_request h b method target body before ≡ ok canonical)
        × (get out (codes "Authorization")
            ≡ sign_request b session.access_key session.secret_access_key canonical.0.0
                canonical.0.1 timestamp
                (signing_scope session timestamp))
        × Carries h b laws session.encoded_host_and_port timestamp body fields before
        × Carries h b laws session.encoded_host_and_port timestamp body fields out
  unfolding prepare_request unsigned
  prepare_request-signs session timestamp method target body fields parts p =
      let before = unsigned session timestamp body fields in
      let host = session.encoded_host_and_port in
      let c = unsigned-Carries session timestamp body fields in
      let (canonical, e, hashed) =
        canonicalize_request-find_host h b method target body host before parts p c.has_host in
      let behind =
        subst (Carries h b laws host timestamp body fields) (sym hashed)
          (payload_hash-Carries h b laws host timestamp body fields before c) in
      (
        _,
        before,
        canonical,
        rw (prepare_request, e) refl,
        e,
        laws.get-set canonical.1 (codes "Authorization") _,
        c,
        Carries-set h b laws host timestamp body fields canonical.1 (codes "Authorization") _
            laws.to_lower-authorization authorization_apart refl
            (get-other h b laws canonical.1 (codes "Authorization") (codes "x-amz-content-sha256") _
                laws.to_lower-authorization (digest_ne h b laws digest_authorization)
              ∙ behind.has_digest)
            behind,
      )
