-- ===== src/ListAllObjects/Worker/Accounting.antt =====
-- The counter `total_queue_length` counts the paths that wait in the queue, and the queue stays in
-- order, through every critical section.
use mathlib.Core.List.Perm
use s3cpp.Prelude.{
  ℕ, ◌+◌, ◌≡◌, refl, subst, Option, none, some, List, [], ◌∷◌, ◌++◌, arith, length, length-append,
  Text, Perm, length-Perm,
}
use s3cpp.Std.SizeT.{Counts, Counts-plus, Counts-decr, incr, plus}
use s3cpp.S3.Types.{Object, CommonPrefix}
use s3cpp.ListAllObjects.Misc.{OutputFormat, PrefixQueueEntry, Shared}
use s3cpp.ListAllObjects.Queue.{emplace, drop_empty, take_top}
use s3cpp.ListAllObjects.Queue.Pending.{
  pending, pending-emplace, pending-drop_empty, Takes, take_top-drop_empty-Takes,
}
use s3cpp.ListAllObjects.Queue.Order.{
  AtLeast, IsSorted, TakesLeast, emplace-IsSorted, drop_empty-IsSorted, take_top-TakesLeast,
}
use s3cpp.ListAllObjects.Worker.{
  get_next_prefix, enqueue, count_objects, count_op, record_page, push, write_objects,
}

abbrev pub waiting : Shared → List CommonPrefix
waiting s = pending s.prefix_queue

pub record IsValid (s : Shared) : Type 0 where
  pub counted : Counts s.metrics.total_queue_length (length (waiting s))
  pub sorted : IsSorted s.prefix_queue

-- The other counters and the texts to be written are as before.
abbrev pub SameRest : Shared → Shared → Type 0
SameRest s t =
    (t.write_stack ≡ s.write_stack)
    × (t.metrics.total_ops ≡ s.metrics.total_ops)
    × (t.metrics.total_objects_found ≡ s.metrics.total_objects_found)
    × (t.metrics.active_workers ≡ s.metrics.active_workers)
    × (t.metrics.target_workers ≡ s.metrics.target_workers)

-- What `get_next_prefix` promises: it fails only if no path waits, and otherwise it hands out one
-- waiting path, of a depth that no entry in the queue is below. The state stays valid.
abbrev pub Fetches : Shared → Option (CommonPrefix × ℕ) × Shared → Type 0
Fetches s (none, t) = (waiting s ≡ []) × (waiting t ≡ []) × IsValid t × SameRest s t
Fetches s (some (p, d), t) =
    Perm (waiting s) (p ∷ waiting t) × AtLeast d t.prefix_queue × IsValid t × SameRest s t

fetch-none :
    (s : Shared)
    → IsValid s
    → take_top (drop_empty s.prefix_queue) ≡ none
    → Takes (waiting s) none
    → Fetches s (get_next_prefix s)
unfolding get_next_prefix
fetch-none s v e w =
    rw (e, get_next_prefix)
      (
        w,
        rw (pending-drop_empty s.prefix_queue) w,
        record {
          counted = rw (pending-drop_empty s.prefix_queue) v.counted;
          sorted = drop_empty-IsSorted s.prefix_queue v.sorted;
        },
        (refl, refl, refl, refl, refl),
      )

fetch-some :
    (s : Shared) (p : CommonPrefix) (d : ℕ) (q : List PrefixQueueEntry)
    → IsValid s
    → take_top (drop_empty s.prefix_queue) ≡ some ((p, d), q)
    → Takes (waiting s) (some ((p, d), q))
    → TakesLeast (some ((p, d), q))
    → Fetches s (get_next_prefix s)
unfolding get_next_prefix
fetch-some s p d q v e w (least, sorted) =
    rw (e, get_next_prefix)
      (
        w,
        least,
        record {
          counted =
              Counts-decr _ _
                (subst (Counts s.metrics.total_queue_length) (length-Perm w) v.counted);
          sorted = sorted;
        },
        (refl, refl, refl, refl, refl),
      )

-- In a valid state, `get_next_prefix` fails only if no prefix waits, and otherwise it hands out one
-- prefix that waits, of a depth that no entry left in the queue is below, and leaves the others.
-- The state stays valid, and no other counter nor the output changes.
pub get_next_prefix-Fetches : (s : Shared) → IsValid s → Fetches s (get_next_prefix s)
get_next_prefix-Fetches s v =
    by_result (take_top (drop_empty s.prefix_queue)) refl (take_top-drop_empty-Takes s.prefix_queue)
      (take_top-TakesLeast _ (drop_empty-IsSorted s.prefix_queue v.sorted))
  where
    by_result :
        (o : Option ((CommonPrefix × ℕ) × List PrefixQueueEntry))
        → take_top (drop_empty s.prefix_queue) ≡ o
        → Takes (waiting s) o
        → TakesLeast o
        → Fetches s (get_next_prefix s)
    by_result none e w l = fetch-none s v e w
    by_result (some ((p, d), q)) e w l = fetch-some s p d q v e w l

-- A page's prefixes join those that wait, and nothing else of the queue changes.
waiting-enqueue :
    (depth : ℕ) (ps : List CommonPrefix) (s : Shared)
    → Perm (waiting (enqueue depth ps s)) (ps ++ waiting s)
unfolding enqueue
waiting-enqueue depth [] s = Perm.refl _
waiting-enqueue depth (p ∷ ps) s = pending-emplace _ s.prefix_queue

length-pending-emplace :
    (e : PrefixQueueEntry) (q : List PrefixQueueEntry)
    → length (pending q) + length e.paths ≡ length (pending (emplace e q))
length-pending-emplace e q =
    omega (arith, length-Perm (pending-emplace e q), length-append e.paths (pending q))

enqueue-IsValid :
    (depth : ℕ) (ps : List CommonPrefix) (s : Shared) → IsValid s → IsValid (enqueue depth ps s)
unfolding enqueue
enqueue-IsValid depth [] s v = v
enqueue-IsValid depth (p ∷ ps) s v = record {
  counted =
      subst (Counts _)
        (length-pending-emplace (record { depth = incr depth; paths = p ∷ ps }) s.prefix_queue)
        (Counts-plus s.metrics.total_queue_length _ (length (p ∷ ps)) v.counted);
  sorted = emplace-IsSorted _ s.prefix_queue v.sorted;
}

-- A page under the lock keeps the counter and the order, whatever it brings.
pub record_page-IsValid :
    (depth : ℕ) (objects : List Object) (ps : List CommonPrefix) (s : Shared)
    → IsValid s
    → IsValid (record_page depth objects ps s)
unfolding record_page count_objects count_op
record_page-IsValid depth objects ps s v =
    let e =
      enqueue-IsValid depth ps (count_objects (length objects) s)
        (record { counted = v.counted; sorted = v.sorted }) in
    record { counted = e.counted; sorted = e.sorted }

pub waiting-record_page :
    (depth : ℕ) (objects : List Object) (ps : List CommonPrefix) (s : Shared)
    → Perm (waiting (record_page depth objects ps s)) (ps ++ waiting s)
unfolding record_page count_objects count_op
waiting-record_page depth objects ps s = waiting-enqueue depth ps (count_objects (length objects) s)

pub push-queue :
    (t : Text) (s : Shared)
    → ((push t s).prefix_queue ≡ s.prefix_queue) × ((push t s).metrics ≡ s.metrics)
unfolding push
push-queue [] s = (refl, refl)
push-queue (c ∷ t) s = (refl, refl)

-- Writing changes neither the queue nor a counter.
pub write_objects-queue :
    (serialize : Object → Text) (format : OutputFormat) (objects : List Object) (s : Shared)
    → ((write_objects serialize format objects s).prefix_queue ≡ s.prefix_queue)
      × ((write_objects serialize format objects s).metrics ≡ s.metrics)
unfolding write_objects
write_objects-queue serialize format objects s = push-queue _ s

-- Nor does a page change the number of workers.
pub record_page-active :
    (depth : ℕ) (objects : List Object) (ps : List CommonPrefix) (s : Shared)
    → (record_page depth objects ps s).metrics.active_workers ≡ s.metrics.active_workers
unfolding record_page enqueue count_objects count_op
record_page-active depth objects [] s = refl
record_page-active depth objects (p ∷ ps) s = refl

pub record_page-target :
    (depth : ℕ) (objects : List Object) (ps : List CommonPrefix) (s : Shared)
    → (record_page depth objects ps s).metrics.target_workers ≡ s.metrics.target_workers
unfolding record_page enqueue count_objects count_op
record_page-target depth objects [] s = refl
record_page-target depth objects (p ∷ ps) s = refl

-- A page adds its objects to their counter, and pushes nothing.
pub record_page-objects :
    (depth : ℕ) (objects : List Object) (ps : List CommonPrefix) (s : Shared)
    → ((record_page depth objects ps s).metrics.total_objects_found
        ≡ plus s.metrics.total_objects_found (length objects))
      × ((record_page depth objects ps s).write_stack ≡ s.write_stack)
unfolding record_page enqueue count_objects count_op
record_page-objects depth objects [] s = (refl, refl)
record_page-objects depth objects (p ∷ ps) s = (refl, refl)
