-- ===== src/S3/Stream.antt =====
-- The streams of lib/aws/s3/session_extra.cpp: a connection to one of the resolved endpoints, with
-- TLS where the endpoint's scheme asks for it.
use s3cpp.Prelude.{
  ℕ, ◌⊎◌, inl, inr, Bool, Option, none, some, List, ◌==◌, if◌then◌else◌, Text, Outcome, ok,
  unexpected,
}
use s3cpp.Std.Calls.{Call, return, code, ◌>>=◌}
use s3cpp.S3.DnsCache.{Resolver, DnsCache, get_endpoint}

-- `std::variant<tcp_stream, ssl::stream<tcp_stream>>`, over the handle behind a stream.
pub data Stream (Handle : Type 0) : Type 0 where
  tcp : Handle → Stream Handle
  ssl : Handle → Stream Handle

abbrev pub handle : {H : Type 0} → Stream H → H
handle (tcp h) = h
handle (ssl h) = h

-- A request that can be sent.
pub record Request (Fields : Type 0) : Type 0 where
  pub method : Text
  pub target : Text
  pub body : Text
  pub fields : Fields

-- What Boost.Asio, Boost.Beast and OpenSSL do for a stream. An error code that has not failed is
-- none; a response is its body; `timestamp` is the formatted time of the system clock.
pub record Streams (r : Resolver) (Fields : Type 0) : Type 1 where
  pub Handle : Type 0
  pub tcp_stream : r.Net → Handle × r.Net
  pub ssl_stream : r.Net → Handle × r.Net
  pub expires_after : Handle → ℕ → r.Net → r.Net
  pub async_connect : Handle → List r.Endpoint → r.Net → Option r.ErrorCode × r.Net
  pub set_tlsext_host_name : Handle → Text → r.Net → ℕ × r.Net
  pub err_get_error : r.Net → r.ErrorCode × r.Net
  pub set_verify_callback : Handle → Text → r.Net → Option r.ErrorCode × r.Net
  pub set_verify_peer : Handle → r.Net → Option r.ErrorCode × r.Net
  pub async_handshake : Handle → r.Net → Option r.ErrorCode × r.Net
  pub async_write : Stream Handle → Request Fields → r.Net → Option r.ErrorCode × r.Net
  pub async_read : Stream Handle → r.Net → (r.ErrorCode ⊎ Text) × r.Net
  pub timestamp : r.Net → Text × r.Net

-- What a session's calls change: its cache of endpoints, and the network.
pub record World (r : Resolver) : Type 0 where
  pub cache : DnsCache r
  pub net : r.Net

module _ (r : Resolver) (Fields : Type 0) (io : Streams r Fields) where
  open r use {Net, ErrorCode, Endpoint}
  open io use {
    Handle, tcp_stream, ssl_stream, expires_after, async_connect, set_tlsext_host_name,
    err_get_error, set_verify_callback, set_verify_peer, async_handshake,
  }

  -- A call of the network alone.
  abbrev pub over_net : {A : Type 0} → (Net → A × Net) → World r → A × World r
  over_net f w = ((f w.net).0, record w { net = (f w.net).1 })

  abbrev pub step : (Net → Option ErrorCode × Net) → Call (World r) ErrorCode Unit
  step f w = code (over_net f w)

  unfoldable pub get_ssl_stream : Bool → Net → Stream Handle × Net
  get_ssl_stream is_ssl net =
      if is_ssl
      then (ssl (ssl_stream net).0, (ssl_stream net).1)
      else (tcp (tcp_stream net).0, (tcp_stream net).1)

  -- `dns_cache->get_endpoint()`, whose loop the fuel cuts.
  abbrev pub resolved : ErrorCode ⊎ List Endpoint → Outcome ErrorCode (List Endpoint)
  resolved (inl e) = unexpected e
  resolved (inr eps) = ok eps

  unfoldable pub endpoints : ℕ → Call (World r) ErrorCode (List Endpoint)
  endpoints fuel w =
      let (answer, c, net) = get_endpoint r fuel w.cache w.net in
      let w' : World r = record { cache = c; net = net } in
      elim answer [ none ↦ (none, w') | some a ↦ (some (resolved a), w') ]

  -- `SSL_set_tlsext_host_name(…) != 1`, and the error that is then taken from OpenSSL's queue.
  unfoldable pub name_server : Handle → Text → Net → Option ErrorCode × Net
  name_server h host net =
      let (result, net') = set_tlsext_host_name h host net in
      let (error, net'') = err_get_error net' in
      if result == 1 then (none, net') else (some error, net'')

  -- The part of `prepare_stream` for a stream with TLS.
  unfoldable pub secure : Handle → Text → Call (World r) ErrorCode Unit
  secure h host = do
    _ ← step (name_server h host)
    _ ← step (set_verify_callback h host)
    _ ← step (set_verify_peer h)
    step (async_handshake h)

  unfoldable pub secure_if : Stream Handle → Text → Call (World r) ErrorCode Unit
  secure_if (tcp h) host = return tt
  secure_if (ssl h) host = secure h host

  unfoldable pub prepare_stream :
      ℕ → Text → Stream Handle → Call (World r) ErrorCode (Stream Handle)
  prepare_stream fuel host stream w =
      (do
        eps ← endpoints fuel
        _ ← step (async_connect (handle stream) eps)
        _ ← secure_if stream host
        return stream)
        (record w { net = expires_after (handle stream) 300 w.net })
