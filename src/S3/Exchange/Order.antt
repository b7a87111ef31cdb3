-- ===== src/S3/Exchange/Order.antt =====
-- The calls that a request makes, as a list that ends at the first failure.
use s3cpp.Prelude.{
  ℕ, ◌≡◌, refl, ap, ◌∙◌, inr, Option, none, some, List, [], ◌∷◌, ◌++◌, Text, Outcome, unexpected,
}
use s3cpp.Std.Calls.{Call, return, continue_with, ◌>>=◌}
use s3cpp.S3.DnsCache.{Resolver, DnsCache, get_endpoint}
use s3cpp.S3.Stream.{
  Stream, tcp, ssl, handle, Streams, World, step, endpoints, name_server, secure, secure_if,
  prepare_stream,
}

module _ {Net ErrorCode : Type 0} where
  -- Calls in order, up to the first that fails.
  abbrev pub in_order : List (Net → Option ErrorCode × Net) → Net → Option ErrorCode × Net
  in_order [] net = (none, net)
  in_order (call ∷ calls) net =
      let rest = in_order calls (call net).1 in
      elim (call net).0 [ none ↦ rest | some e ↦ (some e, (call net).1) ]

module _ (r : Resolver) (Fields : Type 0) (io : Streams r Fields) where
  open r use {Net, ErrorCode, Endpoint}
  open io use {
    Handle, expires_after, async_connect, set_verify_callback, set_verify_peer, async_handshake,
    async_write,
  }

  abbrev pub with_cache : DnsCache r → Net → World r
  with_cache c net = record { cache = c; net = net }

  -- What follows the calls, if none has failed.
  abbrev pub after_calls :
      {A : Type 0}
      → Call (World r) ErrorCode A
      → DnsCache r
      → Option ErrorCode × Net
      → Option (Outcome ErrorCode A) × World r
  after_calls k c (none, net) = k (with_cache c net)
  after_calls k c (some e, net) = (some (unexpected e), with_cache c net)

  pub step-after_calls :
      {A : Type 0} (call : Net → Option ErrorCode × Net)
      (calls : List (Net → Option ErrorCode × Net)) (m k : Call (World r) ErrorCode A)
      (c : DnsCache r)
      → ((net : Net) → m (with_cache c net) ≡ after_calls k c (in_order calls net))
      → (net : Net)
      → (step r Fields io call >>= λ _. m) (with_cache c net)
        ≡ after_calls k c (in_order (call ∷ calls) net)
  step-after_calls call calls m k c h net = by_code (call net) refl
    where
      by_code :
          (answer : Option ErrorCode × Net)
          → call net ≡ answer
          → (step r Fields io call >>= λ _. m) (with_cache c net)
            ≡ after_calls k c (in_order (call ∷ calls) net)
      by_code (none, net') e = rw e (rw e (h net'))
      by_code (some x, net') e = rw (e) (rw e refl)

  pub after_calls-append :
      {A : Type 0} (calls more : List (Net → Option ErrorCode × Net))
      (k : Call (World r) ErrorCode A) (c : DnsCache r) (net : Net)
      → after_calls (λ w. after_calls k w.cache (in_order more w.net)) c (in_order calls net)
        ≡ after_calls k c (in_order (calls ++ more) net)
  after_calls-append [] more k c net = refl
  after_calls-append (call ∷ calls) more k c net =
      by_code (after_calls-append calls more k c) (call net) refl
    where
      by_code :
          ((net : Net)
            → after_calls (λ w. after_calls k w.cache (in_order more w.net)) c (in_order calls net)
              ≡ after_calls k c (in_order (calls ++ more) net))
          → (answer : Option ErrorCode × Net) → call net ≡ answer
          → after_calls
              (λ w. after_calls k w.cache (in_order more w.net))
              c
              (in_order (call ∷ calls) net)
            ≡ after_calls k c (in_order (call ∷ (calls ++ more)) net)
      by_code ih (none, net') e = rw e (rw e (ih net'))
      by_code ih (some x, net') e = rw e (rw e refl)

  pub continue_with-after_calls :
      {A B : Type 0} (f : A → Call (World r) ErrorCode B) (k : Call (World r) ErrorCode A)
      (c : DnsCache r) (answer : Option ErrorCode × Net)
      → continue_with f (after_calls k c answer) ≡ after_calls (k >>= f) c answer
  continue_with-after_calls f k c (none, net) = refl
  continue_with-after_calls f k c (some e, net) = refl

  -- What TLS adds to a connection.
  abbrev pub tls_calls : Handle → Text → List (Net → Option ErrorCode × Net)
  tls_calls h host =
      name_server r Fields io h host
      ∷ set_verify_callback h host
      ∷ set_verify_peer h
      ∷ async_handshake h
      ∷ []

  -- The calls that connect a stream.
  abbrev pub connection : Stream Handle → List Endpoint → Text → List (Net → Option ErrorCode × Net)
  connection (tcp h) eps host = async_connect h eps ∷ []
  connection (ssl h) eps host = async_connect h eps ∷ tls_calls h host

  step-in_order :
      (call : Net → Option ErrorCode × Net) (c : DnsCache r) (net : Net)
      → step r Fields io call (with_cache c net)
        ≡ after_calls (return tt) c (in_order (call ∷ []) net)
  step-in_order call c net = by_code (call net) refl
    where
      by_code :
          (answer : Option ErrorCode × Net)
          → call net ≡ answer
          → step r Fields io call (with_cache c net)
            ≡ after_calls (return tt) c (in_order (call ∷ []) net)
      by_code (none, net') e = rw e (rw e refl)
      by_code (some x, net') e = rw e (rw e refl)

  secure-in_order :
      (h : Handle) (host : Text) (c : DnsCache r) (net : Net)
      → secure r Fields io h host (with_cache c net)
        ≡ after_calls (return tt) c (in_order (tls_calls h host) net)
  unfolding secure
  secure-in_order h host c net =
      step-after_calls (name_server r Fields io h host)
        (set_verify_callback h host ∷ set_verify_peer h ∷ async_handshake h ∷ []) _ (return tt) c
        (step-after_calls (set_verify_callback h host) (set_verify_peer h ∷ async_handshake h ∷ [])
          _ (return tt) c
          (step-after_calls (set_verify_peer h) (async_handshake h ∷ []) _ (return tt) c
            (step-in_order (async_handshake h) c)))
        net

  secure_if-in_order :
      (stream : Stream Handle) (eps : List Endpoint) (host : Text) (c : DnsCache r) (net : Net)
      → (step r Fields io (async_connect (handle stream) eps) >>= λ _.
            secure_if r Fields io stream host >>= λ _. return stream)
          (with_cache c net)
        ≡ after_calls (return stream) c (in_order (connection stream eps host) net)
  unfolding secure_if
  secure_if-in_order (tcp h) eps host c net =
      step-after_calls (async_connect h eps) [] (return (tcp h)) (return (tcp h)) c (λ net'. refl)
        net
  secure_if-in_order (ssl h) eps host c net =
      step-after_calls (async_connect h eps) (tls_calls h host) _ (return (ssl h)) c
        (λ net'.
          ap (continue_with (λ _. return (ssl h))) (secure-in_order h host c net')
          ∙ continue_with-after_calls (λ _. return (ssl h)) (return tt) c
              (in_order (tls_calls h host) net'))
        net

  pub prepare_stream-in_order :
      (fuel : ℕ) (host : Text) (stream : Stream Handle) (w : World r) (eps : List Endpoint)
      (c : DnsCache r) (net : Net)
      → get_endpoint r fuel w.cache (expires_after (handle stream) 300 w.net)
        ≡ (some (inr eps), c, net)
      → prepare_stream r Fields io fuel host stream w
        ≡ after_calls (return stream) c (in_order (connection stream eps host) net)
  unfolding prepare_stream endpoints
  prepare_stream-in_order fuel host stream w eps c net e =
      rw (prepare_stream, endpoints, e) (rw e (secure_if-in_order stream eps host c net))
