-- ===== src/Tests/Wires.antt =====
-- The theorems on whole requests at concrete inputs.
use s3cpp.Prelude.{
  ℕ, suc, ◌≡◌, refl, ap, ◌∙◌, inr, true, false, Option, none, some, List, [], ◌∷◌, ◌++◌, arith,
  Text, codes, ok, transform_error,
}
use s3cpp.Iam.Http.{Target}
use s3cpp.Tests.Fixtures.{boost, boost-IsBoostUrl, botan, http, http-IsHttp}
use s3cpp.Tests.Markup.{pugi, describe}
use s3cpp.Tests.Requests.{call_v2}
use s3cpp.Tests.Answers.{document, listing_v2, listing_v2_parsed}
use s3cpp.Tests.Sessions.{site, working, account, no_fields}
use s3cpp.S3.Session.{prepare_request, encoded_target}
use s3cpp.S3.Session.Prepared.{prepare_request-signs}
use s3cpp.S3.Stream.{Stream, ssl, Request, Streams, World, get_ssl_stream, name_server}
use s3cpp.S3.Exchange.{method_impl, get}
use s3cpp.S3.Exchange.Order.{after_calls, in_order, connection, tls_calls}
use s3cpp.S3.Exchange.Whole.{read_back, method_impl-in_order}
use s3cpp.S3.Exchange.Succeeds.{Succeeds}
use s3cpp.S3.Exchange.Answered.{method_impl-Succeeds}
use s3cpp.S3.Online.{session_api, settled, list_objects_v2-read_target}
use s3cpp.S3.Client.{list_objects_v2, answered, parse_error}
use s3cpp.S3.Query.{list_objects_v2_prepare_query}
use s3cpp.S3.Query.RoundTrip.{IsSendableV2, list_objects_v2_params}
use s3cpp.S3.Query.Reader.{read_query}
use s3cpp.S3.Session.Target.{read_target}
use s3cpp.S3.Parse.{parse_list_objects_v2}
use s3cpp.S3.DnsCache.{Endpoints, DnsCache, get_endpoint, is_stale}

-- Streams on which everything succeeds; the state counts the calls.
abbrev wire : Streams working http.Fields
wire = record {
  Handle = ℕ;
  tcp_stream = λ net. (net, suc net);
  ssl_stream = λ net. (net, suc net);
  expires_after = λ h seconds net. net;
  async_connect = λ h eps net. (none, suc net);
  set_tlsext_host_name = λ h host net. (1, suc net);
  err_get_error = λ net. (0, suc net);
  set_verify_callback = λ h host net. (none, suc net);
  set_verify_peer = λ h net. (none, suc net);
  async_handshake = λ h net. (none, suc net);
  async_write = λ stream request net. (none, suc net);
  async_read = λ stream net. (inr (codes "body"), suc net);
  timestamp = λ net. (codes "20250101T000000Z", net);
}

abbrev known : Endpoints working
known = record { created = 100; endpoints = 3 ∷ [] }

abbrev fresh : DnsCache working
fresh = record {
  endpoint_url = site;
  current_endpoints = some known;
  being_updated = false;
  last_error = 0;
}

abbrev world : World working
world = record { cache = fresh; net = 0 }

abbrev parsed : (target : Text) → Target
parsed target = record { encoded_path = target; encoded_params = [] }

parses : (target : Text) → http.parse_origin_form target ≡ some (parsed target)
unfolding http
parses target = refl

abbrev whole_target : Text → Text → Text
whole_target path query = encoded_target boost path false query

signs :
    (path query : Text)
    → (out : http.Fields) × (prepare_request http botan account
          (codes "20250101T000000Z")
          (codes "GET")
          (whole_target path query)
          []
          no_fields
        ≡ ok out)
signs path query =
    let (out, _, _, e, _, _, _, _) =
      prepare_request-signs http botan http-IsHttp account (codes "20250101T000000Z") (codes "GET")
        (whole_target path query) [] no_fields (parsed (whole_target path query))
        (parses (whole_target path query)) in
    (out, e)

abbrev request : Text → Text → Request http.Fields
request path query = record {
  method = codes "GET";
  target = whole_target path query;
  body = [];
  fields = (signs path query).0;
}

found :
    get_endpoint working 1 fresh (get_ssl_stream working http.Fields wire true 0).1
    ≡ (some (inr (3 ∷ [])), fresh, 1)
unfolding get_endpoint is_stale get_ssl_stream
found = refl

abbrev stream : Stream ℕ
stream = (get_ssl_stream working http.Fields wire true 0).0

method_impl-in_order_example :
    method_impl working http botan boost wire 1 account
      (codes "GET")
      (codes "/b")
      false
      (codes "x=1")
      no_fields
      []
      world
    ≡ after_calls working http.Fields wire (read_back working http botan boost wire stream) fresh (
        in_order
          (connection working http.Fields wire stream (3 ∷ []) (codes "example.org")
            ++ wire.async_write stream (request (codes "/b") (codes "x=1")) ∷ [])
          1)
method_impl-in_order_example =
    method_impl-in_order working http botan boost wire 1 account (codes "GET") (codes "/b") false
      (codes "x=1") no_fields [] world (signs (codes "/b") (codes "x=1")).0 (3 ∷ []) fresh 1
      (signs (codes "/b") (codes "x=1")).1 found

answers :
    (path query : Text)
    → (method_impl working http botan boost wire 1 account
        (codes "GET")
        path
        false
        query
        no_fields
        []
        world).0
      ≡ some (ok (codes "body"))
unfolding get_ssl_stream name_server
answers path query =
    ap (λ x. x.0)
      (method_impl-in_order working http botan boost wire 1 account (codes "GET") path false query
        no_fields [] world (signs path query).0 (3 ∷ []) fresh 1 (signs path query).1 found)

method_impl-Succeeds_example :
    (fields : http.Fields) × (eps : List ℕ) × (net sent end : ℕ) × (prepare_request http botan
        account
        (codes "20250101T000000Z")
        (codes "GET")
        (whole_target (codes "/b") (codes "x=1"))
        []
        no_fields
      ≡ ok fields)
    × Succeeds
        (wire.async_connect 0 eps
          ∷ (tls_calls working http.Fields wire 0 (codes "example.org")
              ++ wire.async_write (ssl 0) (record {
                method = codes "GET";
                target = whole_target (codes "/b") (codes "x=1");
                body = [];
                fields = fields;
              })
                ∷ []))
        net
        sent
    × (wire.async_read (ssl 0) sent ≡ (inr (codes "body"), end))
method_impl-Succeeds_example =
    method_impl-Succeeds working http botan boost wire 1 account (codes "GET") (codes "/b") false
      (codes "x=1") no_fields [] world (codes "body") refl (answers (codes "/b") (codes "x=1"))

none_not_url : ◌≡◌ {A = Option Text} none (some (codes "url")) → ⊥
none_not_url e = cc

call_sendable : IsSendableV2 call_v2
call_sendable = record {
  continuation_token = omega arith;
  start_after = omega arith;
  delimiter = omega arith;
  encoding_type = tt;
  not_url = none_not_url;
  prefix = omega arith;
}

call_headers : (session_api working http botan boost wire 1 account).Fields
unfolding session_api
call_headers = no_fields

call_world : (session_api working http botan boost wire 1 account).Net
unfolding session_api
call_world = world

call_answered :
    (list_objects_v2
      (session_api working http botan boost wire 1 account)
      boost
      (pugi document)
      describe
      call_v2
      call_headers
      call_world).0
    ≡ ok listing_v2
unfolding list_objects_v2 session_api get call_headers call_world answered
call_answered =
    ap (λ a. answered (parse_list_objects_v2 (pugi document) describe) (settled {E = ℕ} a))
      (answers (codes "/b") (list_objects_v2_prepare_query boost call_v2))
    ∙ ap (transform_error parse_error) (listing_v2_parsed (codes "body"))

list_objects_v2-read_target_example :
    (s : Stream ℕ) × (sent_request : Request http.Fields) × (body query : Text) × (net sent end : ℕ)
    × (wire.async_write s sent_request net ≡ (none, sent))
    × (wire.async_read s sent ≡ (inr body, end))
    × (parse_list_objects_v2 (pugi document) describe body ≡ ok listing_v2)
    × (sent_request.method ≡ codes "GET")
    × (read_target sent_request.target ≡ some (codes "/b", query))
    × (read_query query ≡ some (list_objects_v2_params call_v2))
list_objects_v2-read_target_example =
    list_objects_v2-read_target working http botan boost wire boost-IsBoostUrl (pugi document)
      describe 1 account call_v2 call_headers call_world listing_v2 call_sendable (omega arith)
      call_answered
