-- ===== src/S3/Online.antt =====
-- A client over a session (include/s3cpp/aws/s3/client.hpp holds one), and what one of its calls
-- puts on the wire.
use s3cpp.Prelude.{
  ℕ, ◌≡◌, refl, sym, ap, inr, false, Option, none, some, List, [], ◌∷◌, ◌++◌, Text, codes, IsBytes,
  Outcome, ok, threw,
}
use s3cpp.Iam.BoostUrl.{BoostUrl, IsBoostUrl}
use s3cpp.Iam.Http.{Http}
use s3cpp.Iam.Botan.{Botan}
use s3cpp.S3.Parameters.{ListObjectsV2Parameters}
use s3cpp.S3.Types.{ListObjectsV2Result}
use s3cpp.S3.Xml.{Pugi, Describe}
use s3cpp.S3.Parse.{parse_list_objects_v2}
use s3cpp.S3.DnsCache.{Resolver}
use s3cpp.S3.Session.{Session, encoded_target}
use s3cpp.S3.Session.Target.{read_target, read_target-encoded_target}
use s3cpp.S3.Stream.{Stream, Request, Streams, World}
use s3cpp.S3.Exchange.{get}
use s3cpp.S3.Exchange.Succeeds.{Succeeds}
use s3cpp.S3.Exchange.Answered.{method_impl-Answered}
use s3cpp.S3.Client.{SessionApi, list_objects_v2}
use s3cpp.S3.Client.Pages.{answered-ok}
use s3cpp.S3.Query.{list_objects_v2_prepare_query}
use s3cpp.S3.Query.Reader.{read_query}
use s3cpp.S3.Query.RoundTrip.{
  IsSendableV2, list_objects_v2_params, read_query-list_objects_v2_prepare_query,
}

module _ {Net ErrorCode : Type 0} where
  -- The last of some calls that succeed.
  Succeeds-last :
      (calls : List (Net → Option ErrorCode × Net)) (call : Net → Option ErrorCode × Net)
      (net end : Net)
      → Succeeds (calls ++ call ∷ []) net end
      → (before : Net) × (call before ≡ (none, end))
  Succeeds-last [] call net end (next, e, f) = (net, rw (sym f) e)
  Succeeds-last (other ∷ calls) call net end (next, e, s) = Succeeds-last calls call next end s

-- Where the model's fuel cuts the search for an endpoint, a call shows an exception.
abbrev pub settled : {E : Type 0} → Option (Outcome E Text) → Outcome E Text
settled none = threw (codes "no fuel")
settled (some answer) = answer

settled-ok :
    {E : Type 0} (answer : Option (Outcome E Text)) (body : Text)
    → settled answer ≡ ok body
    → answer ≡ some (ok body)
settled-ok none body e = cc
settled-ok (some answer) body e = ap some e

module _ (r : Resolver) (h : Http) (b : Botan) (u : BoostUrl) (io : Streams r h.Fields) where
  open r use {Net, ErrorCode}
  open h use {Fields}
  open io use {Handle, async_write, async_read}

  unfoldable pub session_api : ℕ → Session → SessionApi
  session_api fuel session = record {
    Net = World r;
    Fields = Fields;
    ErrorCode = ErrorCode;
    get = λ path query headers is_path_encoded w. (
      settled (get r h b u io fuel session path query headers is_path_encoded w).0,
      (get r h b u io fuel session path query headers is_path_encoded w).1,
    );
  }

  -- If `list_objects_v2` over a session gives a result for parameters that can be sent and a bucket
  -- whose name is bytes, then a GET request was written to a stream, the result is what its parser
  -- makes of the body that was read from that stream next, and a server that reads the request's
  -- target finds the bucket's path and the parameters of the call.
  pub list_objects_v2-read_target :
      (laws : IsBoostUrl u) (x : Pugi) (d : Describe) (fuel : ℕ) (session : Session)
      (p : ListObjectsV2Parameters) (headers : (session_api fuel session).Fields)
      (w : (session_api fuel session).Net) (result : ListObjectsV2Result)
      → IsSendableV2 p
      → IsBytes p.bucket
      → (list_objects_v2 (session_api fuel session) u x d p headers w).0 ≡ ok result
      → (stream : Stream Handle) × (request : Request Fields) × (body query : Text) × (net sent
          end : Net)
        × (async_write stream request net ≡ (none, sent))
        × (async_read stream sent ≡ (inr body, end))
        × (parse_list_objects_v2 x d body ≡ ok result)
        × (request.method ≡ codes "GET")
        × (read_target request.target ≡ some (b'/' ∷ p.bucket, query))
        × (read_query query ≡ some (list_objects_v2_params p))
  unfolding list_objects_v2 session_api get
  list_objects_v2-read_target laws x d fuel session p headers w result sendable bytes e =
      let path = b'/' ∷ p.bucket in
      let query = list_objects_v2_prepare_query u p in
      let (body, a, parsed) = answered-ok (parse_list_objects_v2 x d) _ e in
      let (fields, eps, c, net, sent, end, _, _, s, read) =
        method_impl-Answered r h b u io fuel session (codes "GET") path false query headers [] w
          body (settled-ok _ body a) in
      let (before, written) = Succeeds-last _ _ net sent s in
      (
        _,
        record {
          method = codes "GET";
          target = encoded_target u path false query;
          body = [];
          fields = fields;
        },
        body,
        query,
        before,
        sent,
        end,
        written,
        read,
        parsed,
        refl,
        read_target-encoded_target u laws p.bucket query bytes,
        read_query-list_objects_v2_prepare_query u laws p sendable,
      )
