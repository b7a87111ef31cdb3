-- ===== src/S3/DnsCache/Callers/Exclusion.antt =====
-- However calls interleave, one of them at most refreshes the cache, and no answer is empty.
use s3cpp.Prelude.{
  ℕ, ◌+◌, ◌≡◌, refl, sym, ap, subst, ◌∙◌, ◌≢◌, ◌⊎◌, inl, inr, Bool, true, false, Option, none, some,
  List, [], ◌∷◌, ◌++◌, arith, Bool-cases, All, sum_of, sum_of-append,
}
use s3cpp.S3.DnsCache.{EndpointUrl, resolve, Resolver, Endpoints, DnsCache, new_cache, update}
use s3cpp.S3.DnsCache.Callers.{
  Caller, judging, exchanging, resolving, storing, resetting, answered, Access, read_none,
  read_some, report, fresh, stale, win, lose, resolve_error, resolve_empty, resolve_some, store,
  reset, Calls, Step, accesses, arrives, Reach, here, next,
}

module _ (r : Resolver) where
  open r use {Net, ErrorCode, Endpoint}

  -- Whether a call has the flag to itself.
  abbrev pub refreshes : Caller r → ℕ
  refreshes resolving = 1
  refreshes (storing e) = 1
  refreshes resetting = 1
  refreshes w = 0

  abbrev pub flag_of : Bool → ℕ
  flag_of true = 1
  flag_of false = 0

  -- Endpoints that can be connected to.
  abbrev pub Usable : Option (Endpoints r) → Type 0
  Usable none = Unit
  Usable (some e) = e.endpoints ≢ []

  -- What a call holds is usable, its answer too.
  abbrev pub Holds : Caller r → Type 0
  Holds (judging e) = e.endpoints ≢ []
  Holds (exchanging e) = e.endpoints ≢ []
  Holds (storing e) = Usable e
  Holds (answered (inr eps)) = eps ≢ []
  Holds w = Unit

  pub record Inv (s : Calls r) : Type 0 where
    pub exclusive : sum_of refreshes s.callers ≡ flag_of s.cache.being_updated
    pub usable : Usable s.cache.current_endpoints
    pub held : All Holds s.callers

  -- One access keeps what the call holds usable, and changes the flag as it changes the call.
  record Keeps (w : Caller r) (c : DnsCache r) (w' : Caller r) (c' : DnsCache r) : Type 0 where
    flag : flag_of c'.being_updated + refreshes w ≡ flag_of c.being_updated + refreshes w'
    usable : Usable c'.current_endpoints
    held : Holds w'

  Access-Keeps :
      {w w' : Caller r} {c c' : DnsCache r}
      → Access r w c w' c'
      → Usable c.current_endpoints
      → Holds w
      → (refreshes w ≡ 0) ⊎ (c.being_updated ≡ true)
      → Keeps w c w' c'
  Access-Keeps (read_none a b d e) u h f =
      rw (a, d, e) record { flag = refl; usable = u; held = tt }
  Access-Keeps (read_some x a b d e) u h f =
      rw (a, d, e) record { flag = refl; usable = u; held = subst Usable b u }
  Access-Keeps (report a b d) u h f = rw (a, b, d) record { flag = refl; usable = u; held = tt }
  Access-Keeps (fresh x t a b d e) u h f =
      rw (a, d, e) record { flag = refl; usable = u; held = subst Holds a h }
  Access-Keeps (stale x t a b d e) u h f =
      rw (a, d, e) record { flag = refl; usable = u; held = subst Holds a h }
  Access-Keeps (win x a b d e) u h f =
      rw (a, d, e) record { flag = rw b refl; usable = u; held = tt }
  Access-Keeps (lose x a b d e) u h f =
      rw (a, d, e) record { flag = refl; usable = u; held = subst Holds a h }
  Access-Keeps (resolve_error x a b d) u h f =
      rw (a, b, d) record { flag = refl; usable = u; held = tt }
  Access-Keeps (resolve_empty a b d) u h f =
      rw (a, b, d) record { flag = refl; usable = u; held = tt }
  Access-Keeps (resolve_some x xs t a b d) u h f =
      rw (a, b, d) record { flag = refl; usable = u; held = λ e. cc }
  Access-Keeps (store x a b d) u h f =
      rw (a, b, d) record { flag = refl; usable = subst Holds a h; held = tt }
  Access-Keeps (reset a b d) u h (inl no_flag) =
      let e : 1 ≡ 0 = sym (ap refreshes a) ∙ no_flag in absurd (omega (arith, e))
  Access-Keeps (reset a b d) u h (inr up) =
      rw (a, b, d) record { flag = rw up refl; usable = u; held = tt }

  All-swap :
      (before after : List (Caller r)) (w w' : Caller r)
      → All Holds (before ++ w ∷ after)
      → Holds w × (Holds w' → All Holds (before ++ w' ∷ after))
  All-swap [] after w w' (h, hs) = (h, λ h'. (h', hs))
  All-swap (x ∷ before) after w w' (h, hs) =
      let (k, put) = All-swap before after w w' hs in (k, λ h'. (h, put h'))

  -- A call that has the flag finds it up.
  flag-up :
      (s : Calls r) (before after : List (Caller r)) (w : Caller r)
      → s.callers ≡ before ++ w ∷ after
      → sum_of refreshes s.callers ≡ flag_of s.cache.being_updated
      → (refreshes w ≡ 0) ⊎ (s.cache.being_updated ≡ true)
  flag-up s before after w e x = elim (Bool-cases s.cache.being_updated) [
    | inl y ↦ inr y
    | inr n ↦
        let total = sum_of-append refreshes before (w ∷ after) in
        let none_up : sum_of refreshes (before ++ w ∷ after) ≡ 0 =
          sym (ap (sum_of refreshes) e) ∙ (x ∙ ap flag_of n) in
        inl (omega (arith, total, none_up))
  ]

  Step-Inv : {s t : Calls r} → Step r s t → Inv s → Inv t
  Step-Inv {s} (arrives e) i =
      rw e record { exclusive = omega (arith, i.exclusive); usable = i.usable; held = (tt, i.held) }
  Step-Inv {s} (accesses before after w w' c' e a f) i =
      let (h, put) = All-swap before after w w' (subst (All Holds) e i.held) in
      let k = Access-Keeps a i.usable h (flag-up s before after w e i.exclusive) in
      let total = sum_of-append refreshes before (w ∷ after) in
      let total' = sum_of-append refreshes before (w' ∷ after) in
      let held_flag : sum_of refreshes (before ++ w ∷ after) ≡ flag_of s.cache.being_updated =
        sym (ap (sum_of refreshes) e) ∙ i.exclusive in
      rw f record {
        exclusive = omega (arith, total, total', held_flag, k.flag);
        usable = k.usable;
        held = put k.held;
      }

  Reach-Keeps : {s t : Calls r} → Reach r s t → Inv s → Inv t
  Reach-Keeps here i = i
  Reach-Keeps (next q s) i = Step-Inv s (Reach-Keeps q i)

  update-Usable :
      (c : DnsCache r) (net : Net)
      → Usable (update r c net).0 × ((update r c net).1.being_updated ≡ c.being_updated)
  unfolding update
  update-Usable c net = by_answer (resolve r c net) refl
    where
      by_answer :
          (answer : (ErrorCode ⊎ List Endpoint) × Net)
          → resolve r c net ≡ answer
          → Usable (update r c net).0 × ((update r c net).1.being_updated ≡ c.being_updated)
      by_answer (inl e, end) a = rw (update, a) (tt, refl)
      by_answer (inr [], end) a = rw (update, a) (tt, refl)
      by_answer (inr (ep ∷ eps), end) a = rw (update, a) ((λ e. cc), refl)

  -- However the calls of a new session's cache interleave, and whatever its resolver and clock
  -- answer: the number of calls that are refreshing it is one while the flag is up and zero
  -- otherwise, the endpoints that it holds are not empty, and no call has been answered with, or
  -- works with, empty endpoints.
  pub new_cache-Inv :
      (url : EndpointUrl) (no_error : ErrorCode) (net : Net) (t : Calls r)
      → Reach r (record { cache = (new_cache r url no_error net).0; callers = [] }) t
      → Inv t
  unfolding new_cache
  new_cache-Inv url no_error net t q =
      let (u, down) =
        update-Usable
          (record {
            endpoint_url = url;
            current_endpoints = none;
            being_updated = false;
            last_error = no_error;
          })
          net in
      Reach-Keeps q (record { exclusive = rw down refl; usable = u; held = tt })
