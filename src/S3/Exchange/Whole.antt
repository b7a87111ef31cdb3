-- ===== src/S3/Exchange/Whole.antt =====
-- A whole request: the calls of `method_impl` in their order, and what an answer shows of them.
use s3cpp.Prelude.{
  ℕ, ◌≡◌, refl, ap, ◌∙◌, ◌⊎◌, inr, Bool, Option, none, some, List, [], ◌∷◌, ◌++◌, Text, Outcome, ok,
}
use s3cpp.Std.Calls.{Call, return, continue_with, ◌>>=◌}
use s3cpp.Iam.BoostUrl.{BoostUrl}
use s3cpp.Iam.Http.{Http}
use s3cpp.Iam.Botan.{Botan}
use s3cpp.Iam.Canonicalize.{Fault}
use s3cpp.S3.DnsCache.{Resolver, DnsCache, get_endpoint}
use s3cpp.S3.Session.{Session, encoded_target, prepare_request}
use s3cpp.S3.Stream.{
  Stream, handle, Request, Streams, World, over_net, get_ssl_stream, prepare_stream,
}
use s3cpp.S3.Exchange.{is_ssl, read_answer, prepare, transfer, method_impl}
use s3cpp.S3.Exchange.Order.{
  in_order, after_calls, with_cache, step-after_calls, after_calls-append,
  continue_with-after_calls, connection, prepare_stream-in_order,
}

module _ (r : Resolver) (h : Http) (b : Botan) (u : BoostUrl) (io : Streams r h.Fields) where
  open r use {Net, ErrorCode, Endpoint}
  open h use {Fields}
  open io use {Handle, expires_after, async_write, async_read, timestamp}

  abbrev pub read_back : Stream Handle → Call (World r) ErrorCode Text
  read_back stream w =
      let (answer, w') = over_net r Fields io (async_read stream) w in
      (some (read_answer answer), w')

  transfer-in_order :
      (request : Request Fields) (stream : Stream Handle) (c : DnsCache r) (net : Net)
      → transfer r h b u io request stream (with_cache r Fields io c net)
        ≡ after_calls r Fields io
            (read_back stream)
            c
            (in_order (async_write stream request ∷ []) net)
  unfolding transfer
  transfer-in_order request stream c net =
      step-after_calls r Fields io (async_write stream request) [] (read_back stream)
        (read_back stream) c (λ net'. refl) net

  transfers :
      (request : Request Fields) (stream : Stream Handle) (c : DnsCache r)
      (answer : Option ErrorCode × Net)
      → after_calls r Fields io (return stream >>= transfer r h b u io request) c answer
        ≡ after_calls r Fields io
            (λ w.
              after_calls r Fields io
                (read_back stream)
                w.cache
                (in_order (async_write stream request ∷ []) w.net))
            c
            answer
  transfers request stream c (none, net) = transfer-in_order request stream c net
  transfers request stream c (some e, net) = refl

  module _ (fuel : ℕ) (session : Session) (method path : Text) (is_path_encoded : Bool)
      (query : Text) (headers : Fields) (body : Text) (w : World r) where
    -- The request that is prepared, as the server sees it, and the stream that is opened for it.
    abbrev pub target : Text
    target = encoded_target u path is_path_encoded query

    abbrev pub request_of : Fields → Request Fields
    request_of fields = record { method = method; target = target; body = body; fields = fields }

    abbrev pub prepared_fields : Outcome Fault Fields
    prepared_fields = prepare_request h b session (timestamp w.net).0 method target body headers

    abbrev pub opened : Stream Handle × Net
    opened = get_ssl_stream r Fields io (is_ssl session) (timestamp w.net).1

    abbrev pub found_endpoints : Option (ErrorCode ⊎ List Endpoint) × DnsCache r × Net
    found_endpoints = get_endpoint r fuel w.cache (expires_after (handle opened.0) 300 opened.1)

    prepare-ok :
        (fields : Fields) (v : World r)
        → prepared_fields ≡ ok fields
        → prepare r h b u io session (timestamp w.net).0 method target body headers v
          ≡ return (request_of fields) v
    prepare-ok fields v p = rw (prepare, p) refl

    pub method_impl-prepared :
        (fields : Fields)
        → prepared_fields ≡ ok fields
        → method_impl r h b u io fuel session method path is_path_encoded query headers body w
          ≡ continue_with (transfer r h b u io (request_of fields)) (
              prepare_stream r Fields io fuel session.host_name opened.0
                (with_cache r Fields io w.cache opened.1))
    unfolding method_impl
    method_impl-prepared fields p = ap (continue_with _) (prepare-ok fields _ p)

    -- If the request can be prepared and endpoints are found, then the calls of a request are
    -- these, in this order: the connection, name, certificate checks and handshake of TLS if the
    -- scheme is not "http", the request, and the answer. The first that fails is the last, and its
    -- error code is the result.
    pub method_impl-in_order :
        (fields : Fields) (eps : List Endpoint) (c : DnsCache r) (net : Net)
        → prepared_fields ≡ ok fields
        → found_endpoints ≡ (some (inr eps), c, net)
        → method_impl r h b u io fuel session method path is_path_encoded query headers body w
          ≡ after_calls r Fields io (read_back opened.0) c (
              in_order
                (connection r Fields io opened.0 eps session.host_name
                  ++ async_write opened.0 (request_of fields) ∷ [])
                net)
    method_impl-in_order fields eps c net p e =
        let calls = connection r Fields io opened.0 eps session.host_name in
        let request = request_of fields in
        method_impl-prepared fields p
        ∙ (ap (continue_with (transfer r h b u io request))
              (prepare_stream-in_order r Fields io fuel session.host_name opened.0 _ eps c net e)
            ∙ (continue_with-after_calls r Fields io (transfer r h b u io request) (return opened.0)
                  c (in_order calls net)
                ∙ (transfers request opened.0 c (in_order calls net)
                    ∙ after_calls-append r Fields io calls (async_write opened.0 request ∷ [])
                        (read_back opened.0) c net)))
