-- ===== src/ListAllObjects/Manager.antt =====
-- worker_manager.cpp: the constructor and the destructor's loop on the shared state, and the worker
-- count that the scaling coroutine wants. Life.antt puts them together with the
-- coroutines and the rest of the destructor.
pub mod Scaling
pub mod Writer
use s3cpp.Prelude.{ℕ, Text, ◌&&◌, none, List, [], ◌∷◌, ◌==◌, if◌then◌else◌}
use s3cpp.Std.SizeT.{incr, decr}
use s3cpp.S3.Types.{Object, CommonPrefix}
use s3cpp.ListAllObjects.Misc.{OutputFormat, ListObjectsApiVersion, Shared, zero_metrics}
use s3cpp.ListAllObjects.Process.{ClientApi, Ending, work}
use s3cpp.ListAllObjects.Queue.{emplace, drop_empty}
use s3cpp.ListAllObjects.Queue.Pending.{pending}

-- `CommonPrefix{}`, the prefix of the whole bucket.
abbrev pub root_prefix : CommonPrefix
root_prefix = record { prefix = none }

-- The shared state once the constructor has run over fresh metrics.
unfoldable pub start : Shared
start = record {
  metrics = record zero_metrics { total_queue_length = incr 0; target_workers = 1 };
  prefix_queue = emplace (record { depth = 0; paths = root_prefix ∷ [] }) [];
  write_stack = [];
}

-- `spawn_worker` counts the worker before it works, and its scope guard counts it off afterwards.
unfoldable pub worker_starts : Shared → Shared
worker_starts s = record s {
  metrics = record s.metrics { active_workers = incr s.metrics.active_workers };
}

unfoldable pub worker_stops : Shared → Shared
worker_stops s = record s {
  metrics = record s.metrics { active_workers = decr s.metrics.active_workers };
}

module _ (c : ClientApi) (bucket : Text) (version : ListObjectsApiVersion)
    (serialize : Object → Text) (format : OutputFormat) where
  -- `spawn_worker`: the scope guard also runs where an exception ends the work.
  unfoldable pub spawn_worker : ℕ → Shared → c.Net → Ending × Shared × c.Net
  spawn_worker fuel s net =
      let (ending, t, end) = work c bucket version serialize format fuel (worker_starts s) net in
      (ending, worker_stops t, end)

pub data Poll : Type 0 where
  keep_waiting : Poll
  shut_down : List CommonPrefix → Poll

-- One round of the destructor's loop: the prefixes that it would report as left behind, if it ends.
unfoldable pub poll : Shared → Poll × Shared
poll s =
    let q = drop_empty s.prefix_queue in
    if s.metrics.total_queue_length == 0 && s.metrics.active_workers == 0
    then (shut_down (pending q), record s { prefix_queue = [] })
    else (keep_waiting, record s { prefix_queue = q })
