-- ===== src/Tests/Signing.antt =====
-- The signature's theorems at concrete inputs.
use s3cpp.Iam.Canonicalize.Query.{param_map-first_param, first_param}
use s3cpp.Std.Map.Find.{find}
use s3cpp.Iam.Http.{Param}
use s3cpp.Iam.Canonicalize.Names.{header_map-IsSigned, signed_field}
use s3cpp.Iam.Canonicalize.{param_map, header_map, canonicalize_request}
use s3cpp.Iam.Urlencode.Decode.{pct_decode}
use s3cpp.Iam.Signature.Chain.{get_signing_key-chain}
use s3cpp.Iam.Canonicalize.Payload.{canonicalize_request-IsSent, IsSent}
use s3cpp.Std.Map.{holds, IsMap}
use s3cpp.Iam.Urlencode.RoundTrip.{pct_decode-urlencode_query, pct_decode-urlencode_path}
use s3cpp.Iam.Urlencode.Required.{urlencode_path_required_lem, any_member}
use s3cpp.Prelude.{none, List, ◌≡◌, ◌||◌, some, [], ◌∷◌, arith, codes, text_eq, Ensures}
use s3cpp.Tests.Fixtures.{boost, boost-IsBoostUrl, botan, botan-IsBotan, mac_of, http, http-IsHttp}
use s3cpp.Iam.Urlencode.{path_charset, urlencode_path, urlencode_query, urlencode_path_required}
use s3cpp.Iam.Signature.{Scope, footer, get_signing_key}

abbrev scope : Scope
scope = record { timestamp = codes "20250101"; region = codes "eu-central-1"; service = codes "s3" }

abbrev fields : http.Fields
unfolding http
fields =
    (codes "Host", codes "example.org")
    ∷ (codes "X-Amz-Date", codes "20250101T000000Z")
    ∷ (codes "Accept", codes "*")
    ∷ []

get_signing_key-chain_example :
    get_signing_key botan (codes "secret") scope
    ≡ mac_of
        (mac_of
          (mac_of (mac_of (codes "AWS4secret") (codes "20250101")) (codes "eu-central-1"))
          (codes "s3"))
        footer
get_signing_key-chain_example =
    get_signing_key-chain botan mac_of botan-IsBotan (codes "secret") scope

header_map-IsSigned_example :
    IsMap (header_map http botan fields)
    × (holds (codes "x-amz-date") (header_map http botan fields) ≡ (
        text_eq (codes "host") (codes "x-amz-date")
        || signed_field http botan (codes "x-amz-date") (http.entries fields)))
unfolding http
header_map-IsSigned_example = header_map-IsSigned http botan fields (codes "x-amz-date")

canonicalize_request-IsSent_example :
    Ensures
      (IsSent http botan http-IsHttp (codes "body") fields)
      (canonicalize_request http botan (codes "GET") (codes "/bucket") (codes "body") fields)
unfolding http
canonicalize_request-IsSent_example =
    canonicalize_request-IsSent http botan http-IsHttp (codes "GET") (codes "/bucket")
      (codes "body") fields

pct_decode-urlencode_query_example :
    pct_decode (urlencode_query boost (codes "a b&c=d")) ≡ some (codes "a b&c=d")
pct_decode-urlencode_query_example =
    pct_decode-urlencode_query boost boost-IsBoostUrl (codes "a b&c=d") (omega arith)

pct_decode-urlencode_path_example :
    pct_decode (urlencode_path boost (codes "/a b/%")) ≡ some (codes "/a b/%")
pct_decode-urlencode_path_example =
    pct_decode-urlencode_path boost boost-IsBoostUrl (codes "/a b/%") (omega arith)

urlencode_path_required_lem_example :
    urlencode_path_required boost (codes " %") ≡ any_member path_charset (codes " %")
urlencode_path_required_lem_example =
    urlencode_path_required_lem boost boost-IsBoostUrl (codes " %")

-- The query a=1&b&a=2.
abbrev repeated : List Param
repeated =
    record { key = codes "a"; given = some (codes "1") }
    ∷ record { key = codes "b"; given = none }
    ∷ record { key = codes "a"; given = some (codes "2") }
    ∷ []

param_map-first_param_example :
    IsMap (param_map repeated [])
    × (find (codes "a") (param_map repeated []) ≡ first_param (codes "a") repeated)
param_map-first_param_example = param_map-first_param repeated (codes "a")
