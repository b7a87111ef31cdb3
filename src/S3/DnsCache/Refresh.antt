-- ===== src/S3/DnsCache/Refresh.antt =====
-- What a refresh of the endpoints leaves behind, when it works and when it fails.
use s3cpp.Prelude.{
  ℕ, zero, suc, ◌+◌, ◌≤◌, ◌≡◌, refl, ◌⊎◌, inl, inr, true, false, Option, none, some, List, [], ◌∷◌,
  arith,
}
use s3cpp.S3.DnsCache.{
  EndpointUrl, resolve, Resolver, Endpoints, DnsCache, update, is_stale, refresh, get_endpoint,
}

module _ (r : Resolver) where
  open r use {Net, ErrorCode, Endpoint, now, minute}

  -- A number of calls of `get_endpoint`, one after the other, each with this fuel.
  pub calls : ℕ → ℕ → DnsCache r → Net → List (Option (ErrorCode ⊎ List Endpoint)) × Net
  calls fuel zero c net = ([], net)
  calls fuel (suc n) c net =
      let one = get_endpoint r fuel c net in
      let rest = calls fuel n one.1 one.2 in (one.0 ∷ rest.0, rest.1)

  abbrev pub repeat : {A : Type 0} → ℕ → A → List A
  repeat zero a = []
  repeat (suc n) a = a ∷ repeat n a

  -- The cache behind a refresh that failed.
  abbrev failed : EndpointUrl → ErrorCode → DnsCache r
  failed url error = record {
    endpoint_url = url;
    current_endpoints = none;
    being_updated = false;
    last_error = error;
  }

  calls-failed :
      (fuel n : ℕ) (url : EndpointUrl) (error : ErrorCode) (net : Net)
      → calls (suc fuel) n (failed url error) net ≡ (repeat n (some (inl error)), net)
  unfolding calls get_endpoint
  calls-failed fuel zero url error net = refl
  calls-failed fuel (suc n) url error net = rw (calls-failed fuel n url error net)

  refresh-error :
      (c : DnsCache r) (net net' : Net) (error : ErrorCode)
      → resolve r c net ≡ (inl error, net')
      → refresh r c net ≡ (failed c.endpoint_url error, net')
  unfolding refresh update
  refresh-error c net net' error a = rw (refresh, update, a) (rw a refl)

  refresh-some :
      (c : DnsCache r) (net net' : Net) (ep : Endpoint) (eps : List Endpoint)
      → resolve r c net ≡ (inr (ep ∷ eps), net')
      → refresh r c net ≡ (
        record {
          endpoint_url = c.endpoint_url;
          current_endpoints = some (record { created = (now net').0; endpoints = ep ∷ eps });
          being_updated = false;
          last_error = c.last_error;
        },
        (now net').1,
      )
  unfolding refresh update
  refresh-some c net net' ep eps a = rw (refresh, update, a) (rw a refl)

  get_endpoint-is_stale :
      (fuel : ℕ) (c : DnsCache r) (e : Endpoints r) (net : Net)
      → c.current_endpoints ≡ some e
      → c.being_updated ≡ false
      → is_stale r e (now net).0 ≡ true
      → get_endpoint r (suc fuel) c net
        ≡ get_endpoint r fuel (refresh r c (now net).1).0 (refresh r c (now net).1).1
  unfolding get_endpoint
  get_endpoint-is_stale fuel c e net h f s = simp (get_endpoint, h, f, s)

  -- If the endpoints are stale, nobody else refreshes them and the resolver fails with an error,
  -- then this call and every later one fails with that error, and none of them asks the resolver
  -- again, whatever it would answer: the network's state stays as the one failure left it.
  pub calls-failed_refresh :
      (fuel n : ℕ) (c : DnsCache r) (e : Endpoints r) (net net' : Net) (error : ErrorCode)
      → c.current_endpoints ≡ some e
      → c.being_updated ≡ false
      → is_stale r e (now net).0 ≡ true
      → resolve r c (now net).1 ≡ (inl error, net')
      → calls (suc (suc fuel)) (suc n) c net ≡ (repeat (suc n) (some (inl error)), net')
  unfolding calls get_endpoint
  calls-failed_refresh fuel n c e net net' error h f s a = rw (
    get_endpoint-is_stale (suc fuel) c e net h f s,
    refresh-error c (now net).1 net' error a,
    calls-failed (suc fuel) n c.endpoint_url error net',
  )

  -- If the endpoints are stale, nobody else refreshes them, the resolver gives some, and the clock
  -- is not more than a minute further when it is read next, then two rounds are enough, and the
  -- call answers with the new endpoints.
  pub get_endpoint-refresh :
      (fuel : ℕ) (c : DnsCache r) (e : Endpoints r) (net net' : Net) (ep : Endpoint)
      (eps : List Endpoint)
      → c.current_endpoints ≡ some e
      → c.being_updated ≡ false
      → is_stale r e (now net).0 ≡ true
      → resolve r c (now net).1 ≡ (inr (ep ∷ eps), net')
      → (now (now net').1).0 ≤ (now net').0 + minute
      → (get_endpoint r (suc (suc fuel)) c net).0 ≡ some (inr (ep ∷ eps))
  unfolding get_endpoint is_stale
  get_endpoint-refresh fuel c e net net' ep eps h f s a t =
      rw (get_endpoint-is_stale (suc fuel) c e net h f s, refresh-some c (now net).1 net' ep eps a)
        (ground arith)
