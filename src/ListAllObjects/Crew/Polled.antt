-- ===== src/ListAllObjects/Crew/Polled.antt =====
-- A round of the destructor's loop on the queue.
use s3cpp.ListAllObjects.Queue.Order.{drop_empty-IsSorted}
use mathlib.Core.List.{append-nil}
use mathlib.Core.List.Perm
use s3cpp.Prelude.{inr, inl, ◌⊎◌, sym, ◌≡◌, refl, subst, [], ◌++◌, arith, Perm}
use s3cpp.ListAllObjects.Misc.{Shared}
use s3cpp.ListAllObjects.Queue.{drop_empty}
use s3cpp.ListAllObjects.Queue.Pending.{pending-drop_empty, pending}
use s3cpp.ListAllObjects.Worker.Accounting.{waiting, IsValid}
use s3cpp.ListAllObjects.Manager.{Poll, keep_waiting, shut_down, poll}
use s3cpp.ListAllObjects.Crew.{left_behind}

-- A round of the destructor's loop keeps the queue valid, and what waited is reported or waits.
abbrev pub Polled : Shared → Poll × Shared → Type 0
Polled s (answer, t) =
    IsValid t × Perm (waiting s) (left_behind answer ++ waiting t) × (t.metrics ≡ s.metrics)

poll-cases :
    (s : Shared)
    → ((s.metrics.total_queue_length ≡ 0)
        × (poll s ≡ (shut_down (waiting s), record s { prefix_queue = [] })))
      ⊎ (poll s ≡ (keep_waiting, record s { prefix_queue = drop_empty s.prefix_queue }))
unfolding poll
poll-cases s = ground (arith, pending-drop_empty s.prefix_queue)

pub poll-Polled : (s : Shared) → IsValid s → Polled s (poll s)
unfolding pending
poll-Polled s v = elim (poll-cases s) [
  | inl (zero, e) ↦
      subst (Polled s) (sym e)
        (record { counted = zero; sorted = omega arith }, rw append-nil (Perm.refl _), refl)
  | inr e ↦ subst (Polled s) (sym e) (
    record {
      counted = rw (pending-drop_empty s.prefix_queue) v.counted;
      sorted = drop_empty-IsSorted s.prefix_queue v.sorted;
    },
    rw (pending-drop_empty s.prefix_queue) (Perm.refl _),
    refl,
  )
]
