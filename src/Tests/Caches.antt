-- ===== src/Tests/Caches.antt =====
-- The theorems on concurrent calls of a cache at concrete inputs.
use s3cpp.Prelude.{◌≡◌, refl, false, some, [], ◌∷◌}
use s3cpp.Tests.Sessions.{site, working}
use s3cpp.S3.DnsCache.{new_cache, update}
use s3cpp.S3.DnsCache.Callers.{
  Calls, reading, judging, read_some, Reach, here, next, arrives, accesses,
}
use s3cpp.S3.DnsCache.Callers.Refines.{first_at, stands, get_endpoint-Reach}
use s3cpp.S3.DnsCache.Callers.Exclusion.{Inv, new_cache-Inv}
use s3cpp.S3.DnsCache.{Endpoints, DnsCache, get_endpoint}

-- Endpoints of long ago.
abbrev stale_cache : DnsCache working
stale_cache = record {
  endpoint_url = site;
  current_endpoints = some (record { created = 0; endpoints = 3 ∷ [] });
  being_updated = false;
  last_error = 0;
}

-- A new cache, and a call that has read its endpoints.
abbrev resolved : Endpoints working
resolved = record { created = 100; endpoints = 7 ∷ [] }

abbrev read_once : Calls working
read_once = record { cache = (new_cache working site 0 0).0; callers = judging resolved ∷ [] }

new_cache-resolved : (new_cache working site 0 0).0.current_endpoints ≡ some resolved
unfolding new_cache update
new_cache-resolved = refl

reads : Reach working (record { cache = (new_cache working site 0 0).0; callers = [] }) read_once
reads = next (next here (arrives refl)) (
    accesses [] [] reading (judging resolved) (new_cache working site 0 0).0 refl
      (read_some resolved refl new_cache-resolved refl refl) refl)

new_cache-Inv_example : Inv working read_once
new_cache-Inv_example = new_cache-Inv working site 0 0 read_once reads

get_endpoint-Reach_example : Reach working (first_at working [] stale_cache reading) (
    first_at working []
      (get_endpoint working 2 stale_cache 0).1
      (stands working [] (get_endpoint working 2 stale_cache 0).0))
get_endpoint-Reach_example = get_endpoint-Reach working [] 2 stale_cache 0
