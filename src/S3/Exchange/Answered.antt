-- ===== src/S3/Exchange/Answered.antt =====
-- What an answer shows of the calls that were made for it.
use s3cpp.Prelude.{
  ℕ, ◌≡◌, refl, sym, ap, subst, ◌∙◌, ◌⊎◌, inl, inr, Bool, false, Option, none, some, List, [], ◌∷◌,
  ◌++◌, some-inj, Text, codes, text_eq, Outcome, ok, unexpected, threw, ok-inj,
}
use s3cpp.Std.Calls.{continue_with-ok}
use s3cpp.Iam.BoostUrl.{BoostUrl}
use s3cpp.Iam.Http.{Http}
use s3cpp.Iam.Botan.{Botan}
use s3cpp.Iam.Canonicalize.{Fault}
use s3cpp.S3.DnsCache.{Resolver, DnsCache, get_endpoint}
use s3cpp.S3.Session.{Session, encoded_target, prepare_request}
use s3cpp.S3.Stream.{
  Stream, ssl, Request, Streams, World, get_ssl_stream, endpoints, prepare_stream,
}
use s3cpp.S3.Exchange.{read_answer, prepare, method_impl}
use s3cpp.S3.Exchange.Order.{after_calls, tls_calls, connection}
use s3cpp.S3.Exchange.Whole.{
  read_back, request_of, prepared_fields, opened, found_endpoints, method_impl-prepared,
  method_impl-in_order,
}
use s3cpp.S3.Exchange.Succeeds.{Succeeds, in_order-Succeeds}

module _ (r : Resolver) (h : Http) (b : Botan) (u : BoostUrl) (io : Streams r h.Fields) where
  open r use {Net, ErrorCode, Endpoint}
  open h use {Fields}
  open io use {Handle, ssl_stream, async_connect, async_write, async_read, timestamp}

  read_answer-ok :
      (answer : ErrorCode ⊎ Text) (body : Text)
      → ◌≡◌ {A = Option (Outcome ErrorCode Text)} (some (read_answer answer)) (some (ok body))
      → answer ≡ inr body
  read_answer-ok (inl e) body h = cc
  read_answer-ok (inr t) body h = ap inr (ok-inj (some-inj h))

  after_calls-ok :
      (stream : Stream Handle) (c : DnsCache r) (answer : Option ErrorCode × Net) (body : Text)
      → (after_calls r Fields io (read_back r h b u io stream) c answer).0 ≡ some (ok body)
      → (net end : Net) × (answer ≡ (none, net)) × (async_read stream net ≡ (inr body, end))
  after_calls-ok stream c (none, net) body e = (
    net,
    (async_read stream net).1,
    refl,
    ap (λ a. (a, (async_read stream net).1)) (read_answer-ok _ body e),
  )
  after_calls-ok stream c (some x, net) body e = cc

  module _ (fuel : ℕ) (session : Session) (method path : Text) (is_path_encoded : Bool)
      (query : Text) (headers : Fields) (body : Text) (w : World r) where
    abbrev pub fields_of : Outcome Fault Fields
    fields_of =
        prepared_fields r h b u io fuel session method path is_path_encoded query headers body w

    abbrev pub stream_of : Stream Handle × Net
    stream_of = opened r h b u io fuel session method path is_path_encoded query headers body w

    abbrev pub endpoints_of : Option (ErrorCode ⊎ List Endpoint) × DnsCache r × Net
    endpoints_of =
        found_endpoints r h b u io fuel session method path is_path_encoded query headers body w

    prepare-inv :
        (request : Request Fields) (v v' : World r)
        → prepare r h b u io session
            (timestamp w.net).0
            method
            (encoded_target u path is_path_encoded query)
            body
            headers
            v
          ≡ (some (ok request), v')
        → (fields : Fields) × (fields_of ≡ ok fields)
    prepare-inv request v v' e = by_outcome fields_of refl
      where
        by_outcome :
            (got : Outcome Fault Fields)
            → fields_of ≡ got
            → (fields : Fields) × (fields_of ≡ ok fields)
        by_outcome (ok fields) p = (fields, p)
        by_outcome (unexpected fault) p =
            let q : ◌≡◌ {A = Option (Outcome ErrorCode (Request Fields)) × World r}
                (some (threw (codes "no host")), v) (some (ok request), v') =
              sym (rw (prepare, p) refl) ∙ e in
            cc
        by_outcome (threw t) p =
            let q : ◌≡◌ {A = Option (Outcome ErrorCode (Request Fields)) × World r}
                (some (threw t), v) (some (ok request), v') =
              sym (rw (prepare, p) refl) ∙ e in
            cc

    endpoints-inv :
        (v v' : World r) (eps : List Endpoint)
        → endpoints r Fields io fuel v ≡ (some (ok eps), v')
        → get_endpoint r fuel v.cache v.net ≡ (some (inr eps), v'.cache, v'.net)
    unfolding endpoints
    endpoints-inv v v' eps e = by_answer (get_endpoint r fuel v.cache v.net) refl
      where
        by_answer :
            (answer : Option (ErrorCode ⊎ List Endpoint) × DnsCache r × Net)
            → get_endpoint r fuel v.cache v.net ≡ answer
            → answer ≡ (some (inr eps), v'.cache, v'.net)
        by_answer (none, c, net) p =
            let q : ◌≡◌ {A = Option (Outcome ErrorCode (List Endpoint)) × World r}
                (none, record { cache = c; net = net }) (some (ok eps), v') =
              sym (rw (endpoints, p) (rw p refl)) ∙ e in
            cc
        by_answer (some (inl x), c, net) p =
            let q : ◌≡◌ {A = Option (Outcome ErrorCode (List Endpoint)) × World r}
                (some (unexpected x), record { cache = c; net = net }) (some (ok eps), v') =
              sym (rw (endpoints, p) (rw p refl)) ∙ e in
            cc
        by_answer (some (inr got), c, net) p =
            let q : ◌≡◌ {A = Option (Outcome ErrorCode (List Endpoint)) × World r}
                (some (ok got), record { cache = c; net = net }) (some (ok eps), v') =
              sym (rw (endpoints, p) (rw p refl)) ∙ e in
            let same : got ≡ eps = ok-inj (some-inj (ap (λ x. x.0) q)) in
            rw same (ap (λ x. (some (inr eps), x.1.cache, x.1.net)) q)

    pub method_impl-Answered :
        (answer : Text)
        → (method_impl r h b u io fuel session method path is_path_encoded query headers body w).0
          ≡ some (ok answer)
        → (fields : Fields) × (eps : List Endpoint) × (c : DnsCache r) × (net sent end : Net)
          × (fields_of ≡ ok fields)
          × (endpoints_of ≡ (some (inr eps), c, net))
          × Succeeds
              (connection r Fields io stream_of.0 eps session.host_name
                ++ async_write stream_of.0 (
                    request_of r h b u io fuel session method path is_path_encoded query headers
                      body w fields)
                  ∷ [])
              net
              sent
          × (async_read stream_of.0 sent ≡ (inr answer, end))
    unfolding method_impl prepare_stream
    method_impl-Answered answer e =
        let (request, v, p, _) = continue_with-ok _ _ answer e in
        let (fields, f) = prepare-inv request _ v p in
        let prepared_e =
          sym (
            ap (λ x. x.0)
              (method_impl-prepared r h b u io fuel session method path is_path_encoded query
                headers body w fields f))
          ∙ e in
        let (stream, v1, q, _) = continue_with-ok _ _ answer prepared_e in
        let (eps, v2, g, _) = continue_with-ok _ _ stream (ap (λ x. x.0) q) in
        let found = endpoints-inv _ v2 eps g in
        let ordered =
          sym (
            ap (λ x. x.0)
              (method_impl-in_order r h b u io fuel session method path is_path_encoded query
                headers body w fields eps v2.cache v2.net f found))
          ∙ e in
        let (sent, end, s, read) = after_calls-ok stream_of.0 v2.cache _ answer ordered in
        (
          fields,
          eps,
          v2.cache,
          v2.net,
          sent,
          end,
          f,
          found,
          in_order-Succeeds _ v2.net sent s,
          read,
        )

    -- The stream with TLS that a request opens where the scheme is not "http".
    abbrev pub secured : Handle
    secured = (ssl_stream (timestamp w.net).1).0

    -- If the scheme of the endpoint is not "http" and a request has an answer, then the answer was
    -- read from a stream with TLS over which each of these succeeded, in this order: the connection
    -- to one of the endpoints, the server's name, the check of the host's name and of the peer's
    -- certificate, the handshake, and then the request as it was prepared.
    pub method_impl-Succeeds :
        (answer : Text)
        → text_eq session.scheme (codes "http") ≡ false
        → (method_impl r h b u io fuel session method path is_path_encoded query headers body w).0
          ≡ some (ok answer)
        → (fields : Fields) × (eps : List Endpoint) × (net sent end : Net) × (prepare_request h b
              session
              (timestamp w.net).0
              method
              (encoded_target u path is_path_encoded query)
              body
              headers
            ≡ ok fields)
          × Succeeds
              (async_connect secured eps
                ∷ (tls_calls r Fields io secured session.host_name
                    ++ async_write (ssl secured) (record {
                      method = method;
                      target = encoded_target u path is_path_encoded query;
                      body = body;
                      fields = fields;
                    })
                      ∷ []))
              net
              sent
          × (async_read (ssl secured) sent ≡ (inr answer, end))
    unfolding get_ssl_stream
    method_impl-Succeeds answer tls e =
        let (fields, eps, c, net, sent, end, f, found, s, read) = method_impl-Answered answer e in
        let stream : stream_of.0 ≡ ssl secured = rw tls refl in
        (
          fields,
          eps,
          net,
          sent,
          end,
          f,
          subst
              (λ st.
                Succeeds
                  (connection r Fields io st eps session.host_name
                    ++ async_write st (
                        request_of r h b u io fuel session method path is_path_encoded query headers
                          body w fields)
                      ∷ [])
                  net sent)
              stream s,
          subst (λ st. async_read st sent ≡ (inr answer, end)) stream read,
        )
