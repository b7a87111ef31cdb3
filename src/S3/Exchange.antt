-- ===== src/S3/Exchange.antt =====
-- lib/aws/s3/session.cpp: a request over a stream of its own, and the answer that comes back.
pub mod Order
pub mod Succeeds
pub mod Whole
pub mod Answered
use s3cpp.Prelude.{
  [], ℕ, ◌⊎◌, inl, inr, Bool, not, some, Text, codes, text_eq, Outcome, ok, unexpected, threw,
}
use s3cpp.Std.Calls.{Call, return, ◌>>=◌}
use s3cpp.Iam.BoostUrl.{BoostUrl}
use s3cpp.Iam.Http.{Http}
use s3cpp.Iam.Botan.{Botan}
use s3cpp.Iam.Canonicalize.{Fault}
use s3cpp.S3.DnsCache.{Resolver}
use s3cpp.S3.Session.{Session, encoded_target, prepare_request}
use s3cpp.S3.Stream.{
  Stream, Request, Streams, World, over_net, step, get_ssl_stream, prepare_stream,
}

-- A request that cannot be prepared is an exception.
abbrev pub prepared : {E A : Type 0} → Outcome Fault A → Outcome E A
prepared (ok a) = ok a
prepared (unexpected fault) = threw (codes "no host")
prepared (threw t) = threw t

abbrev pub read_answer : {E A : Type 0} → E ⊎ A → Outcome E A
read_answer (inl e) = unexpected e
read_answer (inr body) = ok body

-- Whether the endpoint asks for TLS.
abbrev pub is_ssl : Session → Bool
is_ssl session = not (text_eq session.scheme (codes "http"))

module _ (r : Resolver) (h : Http) (b : Botan) (u : BoostUrl) (io : Streams r h.Fields) where
  open r use {Net, ErrorCode}
  open h use {Fields}
  open io use {Handle, async_write, async_read, timestamp}

  abbrev pub prepare :
      Session → Text → Text → Text → Text → Fields → Call (World r) ErrorCode (Request Fields)
  prepare session time method target body headers w =
      elim (prepared {E = ErrorCode}
        (prepare_request h b session time method target body headers)) [
          | ok fields ↦
              return (record { method = method; target = target; body = body; fields = fields }) w
          | unexpected e ↦ (some (unexpected e), w)
          | threw t ↦ (some (threw t), w)
        ]

  -- The request and the answer, over a stream that is connected.
  unfoldable pub transfer : Request Fields → Stream Handle → Call (World r) ErrorCode Text
  transfer request stream = do
    _ ← step r Fields io (async_write stream request)
    λ w.
        let (answer, w') = over_net r Fields io (async_read stream) w in
        (some (read_answer answer), w')

  unfoldable pub method_impl :
      ℕ → Session → Text → Text → Bool → Text → Fields → Text → Call (World r) ErrorCode Text
  method_impl fuel session method path is_path_encoded query headers body w =
      let (time, net) = timestamp w.net in
      (do
        request ←
            prepare session time method (encoded_target u path is_path_encoded query) body headers
        opened ← (λ v.
            return (get_ssl_stream r Fields io (is_ssl session) v.net).0
              (record v { net = (get_ssl_stream r Fields io (is_ssl session) v.net).1 }))
        stream ← prepare_stream r Fields io fuel session.host_name opened
        transfer request stream)
        (record w { net = net })

  unfoldable pub get : ℕ → Session → Text → Text → Fields → Bool → Call (World r) ErrorCode Text
  get fuel session path query headers is_path_encoded =
      method_impl fuel session (codes "GET") path is_path_encoded query headers []

  unfoldable pub put : ℕ → Session → Text → Text → Fields → Bool → Call (World r) ErrorCode Text
  put fuel session path bytes headers is_encoded =
      method_impl fuel session (codes "PUT") path is_encoded [] headers bytes
