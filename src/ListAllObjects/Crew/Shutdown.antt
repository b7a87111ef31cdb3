-- ===== src/ListAllObjects/Crew/Shutdown.antt =====
-- When the destructor of `WorkerManager` ends its loop, the work is done.
use s3cpp.Prelude.{◌<◌, ◌≡◌, ◌∙◌, List, [], append-nil, arith, length, length-zero, Text, Perm}
use s3cpp.Std.Decimal.{size_max}
use s3cpp.Std.SizeT.{Counts-zero}
use s3cpp.S3.Types.{Object, CommonPrefix}
use s3cpp.ListAllObjects.Misc.{OutputFormat, Shared}
use s3cpp.ListAllObjects.Queue.Pending.{pending-drop_empty}
use s3cpp.ListAllObjects.Worker.Accounting.{waiting}
use s3cpp.ListAllObjects.Manager.{poll, shut_down}
use s3cpp.ListAllObjects.Crew.{Crew, Reach, initial}
use s3cpp.ListAllObjects.Crew.Conserve.{Reach-Inv}

-- The loop ends exactly when both counters read zero.
poll-zero :
    (s : Shared) (left : List CommonPrefix)
    → (poll s).0 ≡ shut_down left
    → (s.metrics.total_queue_length ≡ 0) × (s.metrics.active_workers ≡ 0) × (left ≡ waiting s)
unfolding poll
poll-zero s left e = ground (arith, pending-drop_empty s.prefix_queue)

-- If fewer than 2 ^ 64 prefixes wait and fewer than 2 ^ 64 workers run, and the destructor's loop
-- ends at a state that a crew can reach and in which nothing was reported as left behind yet, then
-- no worker is left, no prefix is reported as left behind, and the prefixes handed out to workers
-- are, as often and in some order, all that were ever found.
pub poll_complete :
    (serialize : Object → Text) (format : OutputFormat) (c : Crew) (left : List CommonPrefix)
    → Reach serialize format initial c
    → length (waiting c.shared) < size_max
    → length c.workers < size_max
    → c.reported ≡ []
    → (poll c.shared).0 ≡ shut_down left
    → (c.workers ≡ []) × (left ≡ []) × Perm c.found c.taken
poll_complete serialize format c left r few_paths few_workers none_reported e =
    let i = Reach-Inv serialize format r in
    let (queue_zero, active_zero, same) = poll-zero c.shared left e in
    let none_wait =
      length-zero (waiting c.shared) (Counts-zero _ _ few_paths i.valid.counted queue_zero) in
    (
      length-zero c.workers (Counts-zero _ _ few_workers i.active active_zero),
      same ∙ none_wait,
      rw (none_reported, none_wait, append-nil) at i.balance,
    )
