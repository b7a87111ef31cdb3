-- ===== src/S3/DnsCache/Callers.antt =====
-- Calls of `get_endpoint` on one cache, interleaved at their accesses of it: each step is one
-- access by one call. The resolver's answers and the clock are arbitrary.
pub mod Exclusion
pub mod Refines
use s3cpp.Prelude.{ℕ, ◌≡◌, ◌⊎◌, inl, inr, true, false, Option, none, some, List, ◌∷◌, ◌++◌}
use s3cpp.S3.DnsCache.{Resolver, Endpoints, DnsCache, is_stale}

module _ (r : Resolver) where
  open r use {ErrorCode, Endpoint, host_unreachable}

  -- Where a call stands: about to read the endpoints; having found none, about to read the error;
  -- about to look at the clock; about to exchange the flag; having set it, about to resolve; about
  -- to store what was resolved; about to reset the flag; and with its answer.
  pub data Caller : Type 0 where
    reading : Caller
    failing : Caller
    judging : Endpoints r → Caller
    exchanging : Endpoints r → Caller
    resolving : Caller
    storing : Option (Endpoints r) → Caller
    resetting : Caller
    answered : ErrorCode ⊎ List Endpoint → Caller

  -- One access of a call that stands at `w`: where it stands then, and the cache behind it.
  pub data Access (w : Caller) (c : DnsCache r) (w' : Caller) (c' : DnsCache r) : Type 0 where
    read_none : w ≡ reading → c.current_endpoints ≡ none → w' ≡ failing → c' ≡ c → Access w c w' c'
    read_some :
        (e : Endpoints r)
        → w ≡ reading
        → c.current_endpoints ≡ some e
        → w' ≡ judging e
        → c' ≡ c
        → Access w c w' c'
    report : w ≡ failing → w' ≡ answered (inl c.last_error) → c' ≡ c → Access w c w' c'
    fresh :
        (e : Endpoints r) (time : ℕ)
        → w ≡ judging e
        → is_stale r e time ≡ false
        → w' ≡ answered (inr e.endpoints)
        → c' ≡ c
        → Access w c w' c'
    stale :
        (e : Endpoints r) (time : ℕ)
        → w ≡ judging e
        → is_stale r e time ≡ true
        → w' ≡ exchanging e
        → c' ≡ c
        → Access w c w' c'
    win :
        (e : Endpoints r)
        → w ≡ exchanging e
        → c.being_updated ≡ false
        → w' ≡ resolving
        → c' ≡ record c { being_updated = true }
        → Access w c w' c'
    lose :
        (e : Endpoints r)
        → w ≡ exchanging e
        → c.being_updated ≡ true
        → w' ≡ answered (inr e.endpoints)
        → c' ≡ c
        → Access w c w' c'
    resolve_error :
        (error : ErrorCode)
        → w ≡ resolving
        → w' ≡ storing none
        → c' ≡ record c { last_error = error }
        → Access w c w' c'
    resolve_empty :
        w ≡ resolving
        → w' ≡ storing none
        → c' ≡ record c { last_error = host_unreachable }
        → Access w c w' c'
    resolve_some :
        (ep : Endpoint) (eps : List Endpoint) (time : ℕ)
        → w ≡ resolving
        → w' ≡ storing (some (record { created = time; endpoints = ep ∷ eps }))
        → c' ≡ c
        → Access w c w' c'
    store :
        (e : Option (Endpoints r))
        → w ≡ storing e
        → w' ≡ resetting
        → c' ≡ record c { current_endpoints = e }
        → Access w c w' c'
    reset :
        w ≡ resetting → w' ≡ reading → c' ≡ record c { being_updated = false } → Access w c w' c'

  pub record Calls : Type 0 where
    pub cache : DnsCache r
    pub callers : List Caller

  -- A call accesses the cache, or another one arrives.
  pub data Step (s t : Calls) : Type 0 where
    accesses :
        (before after : List Caller) (w w' : Caller) (c' : DnsCache r)
        → s.callers ≡ before ++ w ∷ after
        → Access w s.cache w' c'
        → t ≡ record { cache = c'; callers = before ++ w' ∷ after }
        → Step s t
    arrives : t ≡ record s { callers = reading ∷ s.callers } → Step s t

  pub data Reach (s : Calls) : Calls → Type 0 where
    here : Reach s s
    next : {t u : Calls} → Reach s t → Step t u → Reach s u
