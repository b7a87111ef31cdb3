-- ===== src/Tests/Sessions.antt =====
-- The theorems on the endpoints and on the preparation of a request at concrete inputs.
use s3cpp.Iam.Signature.{sign_request}
use s3cpp.Iam.Canonicalize.{canonicalize_request}
use s3cpp.S3.Session.Target.{read_target-encoded_target, read_target}
use s3cpp.S3.Session.Carried.{Carries}
use s3cpp.S3.Session.Prepared.{prepare_request-signs}
use s3cpp.S3.Session.{signing_scope, encoded_target, prepare_request, Session}
use s3cpp.Prelude.{
  none, ℕ, suc, ◌≡◌, refl, inl, inr, true, false, some, [], ◌∷◌, arith, Text, codes, ok,
}
use s3cpp.Tests.Fixtures.{boost, boost-IsBoostUrl, botan, http, http-IsHttp}
use s3cpp.Iam.Http.{Target}
use s3cpp.S3.DnsCache.{EndpointUrl, get_endpoint, Resolver, Endpoints, DnsCache, is_stale}
use s3cpp.S3.DnsCache.Refresh.{calls, repeat, calls-failed_refresh, get_endpoint-refresh}

abbrev pub site : EndpointUrl
site = record { host = codes "example.org"; port = none; scheme = some (codes "https") }

-- A clock that stands still at 100, and a resolver that fails or gives the endpoint 7. The state
-- counts the questions.
abbrev failing : Resolver
failing = record {
  Net = ℕ;
  ErrorCode = ℕ;
  Endpoint = ℕ;
  host_unreachable = 1;
  async_resolve = λ host service net. (inl 5, suc net);
  now = λ net. (100, net);
  minute = 60;
}

abbrev pub working : Resolver
working = record failing { async_resolve = λ host service net. (inr (7 ∷ []), suc net) }

abbrev old : Endpoints failing
old = record { created = 0; endpoints = 3 ∷ [] }

abbrev old_working : Endpoints working
old_working = record { created = 0; endpoints = 3 ∷ [] }

abbrev cache : DnsCache failing
cache = record {
  endpoint_url = site;
  current_endpoints = some old;
  being_updated = false;
  last_error = 0;
}

abbrev cache_working : DnsCache working
cache_working = record {
  endpoint_url = site;
  current_endpoints = some old_working;
  being_updated = false;
  last_error = 0;
}

failing_stale : is_stale failing old 100 ≡ true
unfolding is_stale
failing_stale = refl

working_stale : is_stale working old_working 100 ≡ true
unfolding is_stale
working_stale = refl

calls-failed_refresh_example : calls failing 2 3 cache 0 ≡ (repeat failing 3 (some (inl 5)), 1)
calls-failed_refresh_example =
    calls-failed_refresh failing 0 2 cache old 0 1 5 refl refl failing_stale refl

get_endpoint-refresh_example : (get_endpoint working 2 cache_working 0).0 ≡ some (inr (7 ∷ []))
get_endpoint-refresh_example =
    get_endpoint-refresh working 0 cache_working old_working 0 1 7 [] refl refl working_stale refl
      (omega arith)

read_target-encoded_target_example :
    read_target (encoded_target boost (codes "/a b?c") false (codes "max-keys=1&marker=?"))
    ≡ some (codes "/a b?c", codes "max-keys=1&marker=?")
read_target-encoded_target_example =
    read_target-encoded_target boost boost-IsBoostUrl (codes "a b?c") (codes "max-keys=1&marker=?")
      (omega arith)

abbrev pub account : Session
account = record {
  access_key = codes "id";
  secret_access_key = codes "secret";
  region = codes "eu";
  scheme = codes "https";
  host_name = codes "example.org";
  encoded_host_and_port = codes "example.org:443";
}

abbrev pub no_fields : http.Fields
unfolding http
no_fields = []

abbrev parts : Target
parts = record { encoded_path = codes "/b"; encoded_params = [] }

parses : http.parse_origin_form (codes "/b") ≡ some parts
unfolding http
parses = refl

abbrev ranged : http.Fields
unfolding http
ranged = (codes "Range", codes "bytes=0-1") ∷ []

abbrev Carried : http.Fields → Type 0
Carried =
    Carries http botan http-IsHttp (codes "example.org:443") (codes "20250101T000000Z") [] ranged

prepare_request-signs_example :
    (out before : http.Fields) × (canonical : (Text × Text) × http.Fields) × (prepare_request http
        botan account
        (codes "20250101T000000Z")
        (codes "GET")
        (codes "/b")
        []
        ranged
      ≡ ok out)
    × (canonicalize_request http botan (codes "GET") (codes "/b") [] before ≡ ok canonical)
    × (http.get out (codes "Authorization")
        ≡ sign_request botan
            (codes "id")
            (codes "secret")
            canonical.0.0
            canonical.0.1
            (codes "20250101T000000Z")
            (signing_scope account (codes "20250101T000000Z")))
    × Carried before
    × Carried out
prepare_request-signs_example =
    prepare_request-signs http botan http-IsHttp account (codes "20250101T000000Z") (codes "GET")
      (codes "/b") [] ranged parts parses
