-- ===== src/S3/DnsCache.antt =====
-- lib/aws/s3/dns_cache.cpp: the resolved endpoints of a session and their refresh. A call runs with
-- no other call between its accesses of the cache; that another one is refreshing it shows in
-- `being_updated`.
pub mod Refresh
pub mod Callers
use s3cpp.Prelude.{
  ℕ, zero, suc, ◌+◌, ◌⊎◌, inl, inr, Bool, true, false, not, ◌&&◌, Option, none, some, List, [], ◌∷◌,
  ltb, if◌then◌else◌, value_or, Text, codes,
}

-- What the cache reads of the endpoint's URL: `port` and `scheme` are there where `has_port` and
-- `has_scheme` say so.
pub record EndpointUrl : Type 0 where
  pub host : Text
  pub port : Option Text
  pub scheme : Option Text

unfoldable pub port_or_scheme : EndpointUrl → Text
port_or_scheme url = value_or url.port (value_or url.scheme (codes "https"))

-- The resolver of Boost.Asio, which is asked for a host and a service, and the system clock, in
-- its own ticks, of which `minute` are the 60 seconds of the source. Results of a resolver are a range.
pub record Resolver : Type 1 where
  pub Net : Type 0
  pub ErrorCode : Type 0
  pub Endpoint : Type 0
  pub host_unreachable : ErrorCode
  pub async_resolve : Text → Text → Net → (ErrorCode ⊎ List Endpoint) × Net
  pub now : Net → ℕ × Net
  pub minute : ℕ

module _ (r : Resolver) where
  open r use {Net, ErrorCode, Endpoint, host_unreachable, async_resolve, now, minute}

  pub record Endpoints : Type 0 where
    pub created : ℕ
    pub endpoints : List Endpoint

  pub record DnsCache : Type 0 where
    pub endpoint_url : EndpointUrl
    pub current_endpoints : Option Endpoints
    pub being_updated : Bool
    pub last_error : ErrorCode

  -- The question that the resolver is asked.
  abbrev pub resolve : DnsCache → Net → (ErrorCode ⊎ List Endpoint) × Net
  resolve c net = async_resolve c.endpoint_url.host (port_or_scheme c.endpoint_url) net

  unfoldable pub update : DnsCache → Net → Option Endpoints × DnsCache × Net
  update c net =
      let (answer, net') = resolve c net in
      elim answer [
        | inl e ↦ (none, record c { last_error = e }, net')
        | inr [] ↦ (none, record c { last_error = host_unreachable }, net')
        | inr (ep ∷ eps) ↦
            (some (record { created = (now net').0; endpoints = ep ∷ eps }), c, (now net').1)
      ]

  -- The endpoints are older than a minute.
  unfoldable pub is_stale : Endpoints → ℕ → Bool
  is_stale e time = ltb (e.created + minute) time

  -- What a round of the loop does with stale endpoints: the flag is up during the refresh.
  unfoldable pub refresh : DnsCache → Net → DnsCache × Net
  refresh c net =
      let (fresh, c', net') = update (record c { being_updated = true }) net in
      (record c' { current_endpoints = fresh; being_updated = false }, net')

  -- The loop of `get_endpoint`; no answer where the fuel is spent.
  unfoldable pub get_endpoint :
      ℕ → DnsCache → Net → Option (ErrorCode ⊎ List Endpoint) × DnsCache × Net
  get_endpoint zero c net = (none, c, net)
  get_endpoint (suc fuel) c net = elim c.current_endpoints [
    | none ↦ (some (inl c.last_error), c, net)
    | some e ↦
        let (time, net') = now net in
        let fresh = refresh c net' in
        let rest = get_endpoint fuel fresh.0 fresh.1 in
        if is_stale e time && not c.being_updated then rest else (some (inr e.endpoints), c, net')
  ]

  -- The cache of a new session: the constructor waits for the first endpoints.
  unfoldable pub new_cache : EndpointUrl → ErrorCode → Net → DnsCache × Net
  new_cache url no_error net =
      let (fresh, c, net') =
        update
          (record {
            endpoint_url = url;
            current_endpoints = none;
            being_updated = false;
            last_error = no_error;
          })
          net in
      (record c { current_endpoints = fresh }, net')
