-- ===== src/Tests/Listing.antt =====
-- The theorems on a worker and on the scaling at concrete inputs.
use s3cpp.ListAllObjects.Worker.Output.{split-buffer_plain}
use s3cpp.Std.SizeT.{plus}
use s3cpp.ListAllObjects.Queue.Pending.{pending}
use s3cpp.ListAllObjects.Manager.Scaling.Floor.{scaling_round_targets}
use s3cpp.ListAllObjects.Manager.Scaling.Stall.{scaling_rounds-stall}
use s3cpp.ListAllObjects.Queue.{emplace}
use s3cpp.ListAllObjects.Worker.Output.{keys}
use s3cpp.ListAllObjects.Worker.{get_next_prefix, buffer}
use s3cpp.S3.Query.Reader.{split}
use s3cpp.ListAllObjects.Worker.Accounting.{IsValid, get_next_prefix-Fetches, Fetches}
use s3cpp.ListAllObjects.Manager.{root_prefix, start}
use s3cpp.ListAllObjects.Process.Retry.{retry-cases, GivesUp, Raises, Succeeds}
use s3cpp.ListAllObjects.Manager.Scaling.{scaling_rounds, Double, ScalingFactors, scaling_round}
use s3cpp.Prelude.{
  ℕ, zero, suc, ◌+◌, ◌*◌, ◌≤◌, ◌≡◌, refl, ◌≢◌, ◌⊎◌, true, Option, none, some, List, [], ◌∷◌, ◌++◌,
  arith, ltb, if◌then◌else◌, Text, codes, Outcome, ok, unexpected,
}
use s3cpp.S3.Types.{Object, ListObjectsResult, empty_result, empty_v2_result}
use s3cpp.ListAllObjects.Misc.{Metrics, Shared, plain, v1}
use s3cpp.ListAllObjects.Process.{
  finished, list_one, process_prefix, ClientApi, Page, retry, page_v1,
}
use s3cpp.ListAllObjects.Process.Pages.{
  all_prefixes, all_contents, Delivers, Absorbed, process_prefix_complete,
}

abbrev pub key_object : Text → Object
key_object key = record {
  checksum_algorithm = none;
  checksum_type = none;
  etag = none;
  key = some key;
  last_modified = none;
  owner = none;
  restore_status = none;
  size = some 1;
  storage_class = none;
}

-- A server with two pages, the first of which it refuses once.
abbrev first_page : ListObjectsResult
first_page = record empty_result {
  contents = some (key_object (codes "a") ∷ []);
  next_marker = some (codes "a");
  is_truncated = true;
}

abbrev last_page : ListObjectsResult
last_page = record empty_result {
  contents = some (key_object (codes "b") ∷ []);
  common_prefixes = some (record { prefix = some (codes "c/") } ∷ []);
  marker = some (codes "a");
}

abbrev serve : Option Text → ℕ → Outcome (Unit {0}) ListObjectsResult × ℕ
serve none zero = (unexpected tt, 1)
serve none (suc n) = (ok first_page, suc (suc n))
serve (some token) n = (ok last_page, suc n)

abbrev server : ClientApi
server = record {
  Net = ℕ;
  Error = Unit;
  list_objects = λ p net. serve p.marker net;
  list_objects_v2 = λ p net. (ok empty_v2_result, net);
  wait_second = λ net. net;
}

abbrev pub serialize : Object → Text
serialize o = []

retry-cases_example :
    Succeeds server (serve none) 5 0 (retry server (serve none) empty_result 5 0)
    ⊎ Raises server (serve none) 5 0 (retry server (serve none) empty_result 5 0)
    ⊎ GivesUp server (serve none) empty_result 5 0 (retry server (serve none) empty_result 5 0)
retry-cases_example = retry-cases server (serve none) empty_result 5 0

pub root_IsValid : IsValid start
unfolding start emplace pending plus
root_IsValid = record { counted = refl; sorted = omega arith }

delivers :
    Delivers server (codes "bucket") v1 none none 0 (page_v1 first_page ∷ page_v1 last_page ∷ []) 3
unfolding list_one retry
delivers = (codes "a", 2, refl, refl, refl, (refl, refl, refl))

abbrev pages : List Page
pages = page_v1 first_page ∷ page_v1 last_page ∷ []

process_prefix_complete_example :
    (t : Shared) × (process_prefix server
        (codes "bucket")
        v1
        serialize
        plain
        9
        root_prefix
        0
        none
        start
        0
      ≡ (finished, t, 3))
    × Absorbed serialize plain (all_contents pages) (all_prefixes pages) start t
process_prefix_complete_example =
    process_prefix_complete server (codes "bucket") v1 serialize plain root_prefix 0 pages 9 none
      start 0 3 root_IsValid (omega arith) delivers

get_next_prefix-Fetches_example : Fetches start (get_next_prefix start)
get_next_prefix-Fetches_example = get_next_prefix-Fetches start root_IsValid

split-buffer_plain_example :
    split b'\n' (buffer serialize plain (key_object (codes "a") ∷ key_object (codes "b") ∷ []))
    ≡ keys (key_object (codes "a") ∷ key_object (codes "b") ∷ []) ++ [] ∷ []
split-buffer_plain_example =
    split-buffer_plain serialize (key_object (codes "a") ∷ key_object (codes "b") ∷ [])
      (omega arith)

-- Rates as whole numbers.
abbrev pub whole : Double
whole = record {
  D = ℕ;
  of_size = λ n. n;
  one = 1;
  one_and_half = 2;
  times = λ a b. a * b;
  larger = λ a b. if ltb a b then b else a;
  less = ltb;
  ceil_to_size = λ n. n;
}

abbrev pub factors : ScalingFactors whole
factors = record { scale_up_factor = 2; scale_down_factor = 1 }

abbrev stranded : Metrics
stranded = record {
  total_ops = 4;
  total_queue_length = 3;
  total_objects_found = 0;
  active_workers = 0;
  target_workers = 10;
}

scaling_round_targets_example :
    let r = scaling_round whole (λ samples. 0) factors 4 [] stranded in
    ((stranded.total_queue_length ≡ 0)
      × (r.to_spawn ≡ 0)
      × (r.metrics.target_workers ≡ stranded.active_workers))
    ⊎ ((stranded.total_queue_length ≢ 0)
        × (1 ≤ r.metrics.target_workers)
        × ((r.to_spawn ≡ 0) ⊎ (stranded.active_workers + r.to_spawn ≡ r.metrics.target_workers)))
scaling_round_targets_example = scaling_round_targets whole (λ samples. 0) factors 4 [] stranded

queued_not_zero : stranded.total_queue_length ≢ 0
queued_not_zero e = omega arith

scaling_rounds-stall_example :
    let r =
      scaling_rounds whole
        (λ samples. 0)
        factors
        7
        (record { metrics = stranded; previous_ops = 4; samples = []; to_spawn = 0 })
        0 in
    (r.0.metrics ≡ stranded) × (r.1 ≡ 0)
scaling_rounds-stall_example =
    scaling_rounds-stall whole (λ samples. 0) factors stranded []
      (record { idle = refl; queued = queued_not_zero; target = refl; ops = omega arith }) slow 7
  where
    slow : (k : ℕ) → ltb 0 1 ≡ true
    slow k = refl
