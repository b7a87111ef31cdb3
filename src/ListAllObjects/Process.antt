-- ===== src/ListAllObjects/Process.antt =====
-- worker.cpp: listing one prefix over the network, with retries, and the loop of a worker. Fuel
-- bounds the loops whose length the server decides; messages on the standard error are left out.
pub mod Retry
pub mod Pages
pub mod Emptied
pub mod Work
use s3cpp.Prelude.{
  ℕ, zero, suc, Bool, true, false, ◌||◌, Option, none, some, List, [], if◌then◌else◌, value_or,
  Text, codes, text_eq, Outcome, ok, unexpected, threw,
}
use s3cpp.S3.Parameters.{ListObjectsParameters, ListObjectsV2Parameters, default_max_keys}
use s3cpp.S3.Types.{
  Object, CommonPrefix, ListObjectsResult, ListObjectsV2Result, empty_result, empty_v2_result,
}
use s3cpp.ListAllObjects.Misc.{OutputFormat, ListObjectsApiVersion, v1, v2, Shared}
use s3cpp.ListAllObjects.Worker.{
  is_done, should_terminate_early, get_next_prefix, record_page, write_objects,
}

-- What a worker needs of the client: its two listing calls, and a timer of one second. `Net` is the
-- state of all that lies behind them.
pub record ClientApi : Type 1 where
  pub Net : Type 0
  pub Error : Type 0
  pub list_objects : ListObjectsParameters → Net → Outcome Error ListObjectsResult × Net
  pub list_objects_v2 : ListObjectsV2Parameters → Net → Outcome Error ListObjectsV2Result × Net
  pub wait_second : Net → Net

-- A coroutine's result: a value, or the exception that leaves it.
pub data Listing (A : Type 0) : Type 0 where
  listed : A → Listing A
  raised : Text → Listing A

abbrev pub max_retries : ℕ
max_retries = 5

-- What `process_prefix` reads of a result of either version.
pub record Page : Type 0 where
  pub repeated : Bool
  pub token : Option Text
  pub contents : List Object
  pub prefixes : List CommonPrefix

-- Both tokens are there and equal.
abbrev pub same_token : Option Text → Option Text → Bool
same_token (some a) (some b) = text_eq a b
same_token _ _ = false

abbrev pub page_v1 : ListObjectsResult → Page
page_v1 r = record {
  repeated = same_token r.marker r.next_marker;
  token = r.next_marker;
  contents = value_or r.contents [];
  prefixes = value_or r.common_prefixes [];
}

abbrev pub page_v2 : ListObjectsV2Result → Page
page_v2 r = record {
  repeated = same_token r.continuation_token r.next_continuation_token;
  token = r.next_continuation_token;
  contents = value_or r.contents [];
  prefixes = value_or r.common_prefixes [];
}

abbrev pub map_listing : {A B : Type 0} {N : Type 0} → (A → B) → Listing A × N → Listing B × N
map_listing f (listed a, n) = (listed (f a), n)
map_listing f (raised t, n) = (raised t, n)

-- How the listing of a prefix, or a worker, ends. A repeated token is `skipped`.
pub data Ending : Type 0 where
  finished skipped out_of_fuel : Ending
  failed : Text → Ending

module _ (c : ClientApi) where
  open c use {Net, Error, list_objects, list_objects_v2, wait_second}

  -- The loop of `list_one_impl`: the attempts that are left, and the result after the last.
  unfoldable pub retry :
      {A : Type 0} → (Net → Outcome Error A × Net) → A → ℕ → Net → Listing A × Net
  retry call give_up zero net = (listed give_up, net)
  retry call give_up (suc n) net = elim (call net).0 [
    | ok a ↦ (listed a, (call net).1)
    | unexpected e ↦ retry call give_up n (wait_second (call net).1)
    | threw t ↦ (raised t, (call net).1)
  ]

  module _ (bucket : Text) where
    abbrev pub params_v1 : Option Text → Option Text → ListObjectsParameters
    params_v1 prefix token = record {
      bucket = bucket;
      marker = token;
      delimiter = some (codes "/");
      encoding_type = none;
      max_keys = default_max_keys;
      prefix = prefix;
    }

    abbrev pub params_v2 : Option Text → Option Text → ListObjectsV2Parameters
    params_v2 prefix token = record {
      bucket = bucket;
      continuation_token = token;
      delimiter = some (codes "/");
      encoding_type = none;
      fetch_owner = false;
      max_keys = default_max_keys;
      prefix = prefix;
      start_after = none;
    }

    unfoldable pub list_one :
        ListObjectsApiVersion → Option Text → Option Text → Net → Listing Page × Net
    list_one v1 prefix token net =
        map_listing page_v1
          (retry (list_objects (params_v1 prefix token)) empty_result max_retries net)
    list_one v2 prefix token net =
        map_listing page_v2
          (retry (list_objects_v2 (params_v2 prefix token)) empty_v2_result max_retries net)

    module _ (version : ListObjectsApiVersion) (serialize : Object → Text)
        (format : OutputFormat) where
      -- What a page does to the shared state: its objects are written, then counted and its
      -- prefixes queued.
      unfoldable pub absorb : ℕ → Page → Shared → Shared
      absorb depth page s =
          record_page depth page.contents page.prefixes
            (write_objects serialize format page.contents s)

      -- The loop of `process_prefix`.
      unfoldable pub process_prefix :
          ℕ → CommonPrefix → ℕ → Option Text → Shared → Net → Ending × Shared × Net
      process_prefix zero prefix depth token s net = (out_of_fuel, s, net)
      process_prefix (suc fuel) prefix depth token s net =
          let next = list_one version prefix.prefix token net in
          elim next.0 [
            | raised t ↦ (failed t, s, next.1)
            | listed page ↦ elim page.repeated [
              | true ↦ (skipped, s, next.1)
              | false ↦ elim page.token [
                | none ↦ (finished, absorb depth page s, next.1)
                | some t ↦ process_prefix fuel prefix depth (some t) (absorb depth page s) next.1
              ]
            ]
          ]

      -- Whether an exception left the coroutine, or the model's fuel was spent.
      abbrev pub stops : Ending → Bool
      stops finished = false
      stops skipped = false
      stops out_of_fuel = true
      stops (failed t) = true

      -- The loop of `work`.
      unfoldable pub work : ℕ → Shared → Net → Ending × Shared × Net
      work zero s net = (out_of_fuel, s, net)
      work (suc fuel) s net =
          let got = get_next_prefix s in
          let done : Ending × Shared × Net = elim got.0 [
            | none ↦ (finished, got.1, net)
            | some (prefix, depth) ↦ process_prefix fuel prefix depth none got.1 net
          ] in
          let rest = work fuel done.1 done.2 in
          if stops done.0
          then done
          else if is_done done.1 || should_terminate_early done.1
          then (finished, done.1, done.2)
          else rest
