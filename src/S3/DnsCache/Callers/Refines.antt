-- ===== src/S3/DnsCache/Callers/Refines.antt =====
-- The code of a call as steps of the calls on a cache.
use s3cpp.Prelude.{
  ℕ, zero, suc, ◌≡◌, refl, ◌⊎◌, inl, inr, true, false, not, ◌&&◌, Option, none, some, List, [], ◌∷◌,
  Bool-cases, Option-cases,
}
use s3cpp.S3.DnsCache.{
  resolve, Resolver, Endpoints, DnsCache, update, is_stale, refresh, get_endpoint,
}
use s3cpp.S3.DnsCache.Callers.{
  Caller, reading, resolving, answered, Access, read_none, read_some, report, fresh, stale, win,
  lose, resolve_error, resolve_empty, resolve_some, store, reset, Calls, accesses, Reach, here,
  next,
}

module _ (r : Resolver) (others : List (Caller r)) where
  open r use {Net, ErrorCode, Endpoint, now}

  -- The calls whose first one stands as it is given.
  abbrev pub first_at : DnsCache r → Caller r → Calls r
  first_at c w = record { cache = c; callers = w ∷ others }

  then_accesses :
      {s : Calls r} {c c' : DnsCache r} {w w' : Caller r}
      → Reach r s (first_at c w)
      → Access r w c w' c'
      → Reach r s (first_at c' w')
  then_accesses q a = next q (accesses [] others _ _ _ refl a refl)

  -- Where a call stands whose run gave this: no answer stands for a round that is still to come.
  abbrev pub stands : Option (ErrorCode ⊎ List Endpoint) → Caller r
  stands none = reading
  stands (some a) = answered a

  refresh-Reach :
      {s : Calls r} (c : DnsCache r) (net : Net)
      → Reach r s (first_at (record c { being_updated = true }) resolving)
      → Reach r s (first_at (refresh r c net).0 reading)
  unfolding refresh update
  refresh-Reach {s} c net q = by_answer (resolve r c net) refl
    where
      by_answer :
          (answer : (ErrorCode ⊎ List Endpoint) × Net)
          → resolve r c net ≡ answer
          → Reach r s (first_at (refresh r c net).0 reading)
      by_answer (inl e, end) a =
          rw (refresh, update, a)
            (then_accesses
              (then_accesses (then_accesses q (resolve_error e refl refl refl))
                (store none refl refl refl))
              (reset refl refl refl))
      by_answer (inr [], end) a =
          rw (refresh, update, a)
            (then_accesses
              (then_accesses (then_accesses q (resolve_empty refl refl refl))
                (store none refl refl refl))
              (reset refl refl refl))
      by_answer (inr (ep ∷ eps), end) a =
          rw (refresh, update, a)
            (rw a (
              then_accesses
                (then_accesses (then_accesses q (resolve_some ep eps (r.now end).0 refl refl refl))
                  (store _ refl refl refl))
                (reset refl refl refl)))

  module _ (fuel : ℕ) (c : DnsCache r) (net : Net) where
    get_endpoint-none :
        c.current_endpoints ≡ none
        → get_endpoint r (suc fuel) c net ≡ (some (inl c.last_error), c, net)
    unfolding get_endpoint
    get_endpoint-none e = simp (get_endpoint, e)

    module _ (e : Endpoints r) (held : c.current_endpoints ≡ some e) where
      get_endpoint-fresh :
          is_stale r e (now net).0 && not c.being_updated ≡ false
          → get_endpoint r (suc fuel) c net ≡ (some (inr e.endpoints), c, (now net).1)
      unfolding get_endpoint
      get_endpoint-fresh f = simp (get_endpoint, held, f)

      get_endpoint-stale :
          is_stale r e (now net).0 && not c.being_updated ≡ true
          → get_endpoint r (suc fuel) c net
            ≡ get_endpoint r fuel (refresh r c (now net).1).0 (refresh r c (now net).1).1
      unfolding get_endpoint
      get_endpoint-stale f = simp (get_endpoint, held, f)

  get_endpoint_extends :
      (fuel : ℕ) (s : Calls r) (c : DnsCache r) (net : Net)
      → Reach r s (first_at c reading)
      → Reach r s (first_at (get_endpoint r fuel c net).1 (stands (get_endpoint r fuel c net).0))
  unfolding get_endpoint
  get_endpoint_extends zero s c net q = q
  get_endpoint_extends (suc fuel) s c net q =
      by_held (get_endpoint_extends fuel s) (Option-cases c.current_endpoints)
    where
      by_held :
          ((c : DnsCache r) (net : Net)
            → Reach r s (first_at c reading)
            → Reach r s
                (first_at (get_endpoint r fuel c net).1 (stands (get_endpoint r fuel c net).0)))
          → (c.current_endpoints ≡ none) ⊎ ((e : Endpoints r) × (c.current_endpoints ≡ some e))
          → Reach r s (
              first_at
                (get_endpoint r (suc fuel) c net).1
                (stands (get_endpoint r (suc fuel) c net).0))
      by_held ih (inl e) =
          rw (get_endpoint-none fuel c net e)
            (then_accesses (then_accesses q (read_none refl e refl refl)) (report refl refl refl))
      by_held ih (inr (e, held)) =
          let judges = then_accesses q (read_some e refl held refl refl) in
          let time = (now net).0 in
          elim (Bool-cases (is_stale r e time)) [
            | inr young ↦
                rw (get_endpoint-fresh fuel c net e held (rw young refl))
                  (then_accesses judges (fresh e time refl young refl refl))
            | inl old ↦
                let exchanges = then_accesses judges (stale e time refl old refl refl) in
                elim (Bool-cases c.being_updated) [
                  | inl up ↦
                      rw (get_endpoint-fresh fuel c net e held (rw (old, up) refl))
                        (then_accesses exchanges (lose e refl up refl refl))
                  | inr down ↦ rw (get_endpoint-stale fuel c net e held (rw (old, down) refl)) (
                      ih _ _ (
                        refresh-Reach c (now net).1
                          (then_accesses exchanges (win e refl down refl refl))))
                ]
          ]

  -- A run of `get_endpoint` that nothing interrupts is a sequence of steps of the calls on a cache,
  -- whatever the cache, the resolver, the clock and the other calls: it begins as a call that is
  -- about to read, leaves the cache as the run does, and stands at the run's answer, or about to
  -- read again where the fuel is spent.
  pub get_endpoint-Reach :
      (fuel : ℕ) (c : DnsCache r) (net : Net)
      → Reach r
          (first_at c reading)
          (first_at (get_endpoint r fuel c net).1 (stands (get_endpoint r fuel c net).0))
  get_endpoint-Reach fuel c net = get_endpoint_extends fuel (first_at c reading) c net here
