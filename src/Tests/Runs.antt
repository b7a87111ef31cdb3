-- ===== src/Tests/Runs.antt =====
-- Whole runs: a worker over a bucket of two prefixes, and the coroutine that writes.
use s3cpp.Prelude.{
  ℕ, suc, ◌+◌, ◌≤◌, ◌<◌, ◌≡◌, refl, sym, ◌∙◌, ◌≢◌, false, Option, none, some, List, [], ◌∷◌, ◌++◌,
  append-nil, arith, Text, codes, Perm, sum_of, ok,
}
use s3cpp.Std.Decimal.{size_max}
use s3cpp.S3.Types.{Object, CommonPrefix, ListObjectsResult, empty_result, empty_v2_result}
use s3cpp.ListAllObjects.Misc.{Shared, plain, v1}
use s3cpp.ListAllObjects.Queue.{emplace}
use s3cpp.ListAllObjects.Queue.Pending.{pending}
use s3cpp.ListAllObjects.Manager.{start, root_prefix, spawn_worker, worker_starts}
use s3cpp.ListAllObjects.Process.{ClientApi, page_v1, list_one, retry, out_of_fuel, work}
use s3cpp.ListAllObjects.Process.Work.{Serves, Lists, work-Lists}
use s3cpp.ListAllObjects.Tree.{Bucket, IsTree, total}
use s3cpp.ListAllObjects.Worker.Accounting.{IsValid, waiting}
use s3cpp.Std.SizeT.{plus}
use mathlib.Core.List.Perm
use s3cpp.ListAllObjects.Crew.{Reach, seeking}
use s3cpp.ListAllObjects.Crew.Alone.{crew_of, Alone, at}
use s3cpp.ListAllObjects.Crew.Refines.Spawn.{spawn_worker-Alone}
use s3cpp.ListAllObjects.Manager.Writer.{
  waiting as idle, draining, writing, ended, Writer, own, begin, push, elapse, pop, write,
  Reach as Happens, here, next, new_writer,
}
use s3cpp.ListAllObjects.Manager.Writer.Conserve.{Balanced, new_writer-Balanced}
use s3cpp.Tests.Listing.{key_object, serialize}

-- One object at the top and one below "c/".
abbrev contents : Option Text → List Object
contents none = key_object (codes "a") ∷ []
contents (some p) = key_object (codes "c/b") ∷ []

abbrev below : Option Text → List CommonPrefix
below none = record { prefix = some (codes "c/") } ∷ []
below (some p) = []

abbrev weight : Option Text → ℕ
weight none = 2
weight (some p) = 1

abbrev small : Bucket
small = record {
  contents = λ p. contents p.prefix;
  below = λ p. below p.prefix;
  weight = λ p. weight p.prefix;
}

falls : (o : Option Text) → sum_of (λ p. weight p.prefix) (below o) < weight o
falls none = omega arith
falls (some p) = omega arith

small_IsTree : IsTree small
small_IsTree = record { falls = λ p. falls p.prefix }

abbrev page : Option Text → ListObjectsResult
page o = record empty_result { contents = some (contents o); common_prefixes = some (below o) }

-- A server that answers each question about it, and counts them.
abbrev server : ClientApi
server = record {
  Net = ℕ;
  Error = Unit;
  list_objects = λ p net. (ok (page p.prefix), suc net);
  list_objects_v2 = λ p net. (ok empty_v2_result, net);
  wait_second = λ net. net;
}

serves : Serves server (codes "bucket") v1 small 1
unfolding list_one retry
serves p net = (
  page_v1 (page p.prefix) ∷ [],
  suc net,
  (refl, refl, refl),
  omega arith,
  rw (append-nil (contents p.prefix)) (Perm.refl _),
  Perm.refl _,
)

abbrev started : Shared
started = worker_starts start

started_IsValid : IsValid started
unfolding worker_starts start emplace pending plus
started_IsValid = record { counted = refl; sorted = omega arith }

started_stays : started.metrics.active_workers ≤ started.metrics.target_workers
unfolding worker_starts start plus
started_stays = omega arith

started_few : total small (waiting started) < size_max
unfolding worker_starts start emplace pending
started_few = omega arith

started_fuel : 1 + total small (waiting started) < 9
unfolding worker_starts start emplace pending
started_fuel = omega arith

work-Lists_example :
    Lists server
      (codes "bucket")
      v1
      serialize
      plain
      small
      small_IsTree
      started
      (work server (codes "bucket") v1 serialize plain 9 started 0)
work-Lists_example =
    work-Lists server (codes "bucket") v1 serialize plain small small_IsTree 1 serves 9 started 0
      started_IsValid started_stays started_few started_fuel

spawned_ends : (spawn_worker server (codes "bucket") v1 serialize plain 9 start 0).0 ≢ out_of_fuel
unfolding spawn_worker
spawned_ends e =
    let (ends, _, _, _) =
      work-Lists server (codes "bucket") v1 serialize plain small small_IsTree 1 serves 9 started 0
        started_IsValid started_stays started_few started_fuel in
    let x = sym ends ∙ e in cc

spawn_worker-Alone_example :
    Alone server (codes "bucket") v1 serialize plain (at server (some seeking) none started 0) (
      at server none none
        (spawn_worker server (codes "bucket") v1 serialize plain 9 start 0).1
        (spawn_worker server (codes "bucket") v1 serialize plain 9 start 0).2)
    × (found taken : List CommonPrefix) × Reach serialize plain
        (crew_of start (seeking ∷ []) (root_prefix ∷ []) [])
        (crew_of
          (spawn_worker server (codes "bucket") v1 serialize plain 9 start 0).1
          (seeking ∷ [])
          found
          taken)
spawn_worker-Alone_example =
    spawn_worker-Alone server (codes "bucket") v1 serialize plain 9 start 0 (seeking ∷ [])
      (root_prefix ∷ []) [] spawned_ends

-- The coroutine begins, a text is pushed and the timer elapses; the coroutine takes the text, a
-- signal comes, and the text is written.
abbrev pushed : Writer
pushed = record {
  phase = idle;
  write_stack = codes "a" ∷ [];
  file = [];
  failed = [];
  pushed = codes "a" ∷ [];
}

abbrev busy : Writer
busy = record pushed { phase = writing false (codes "a"); write_stack = [] }

takes : Happens new_writer busy
unfolding new_writer
takes =
    next own
      (next own (next own (next own here (begin refl refl refl)) (push (codes "a") refl refl))
        (elapse refl refl refl))
      (pop false (codes "a") [] refl refl refl refl)

abbrev wrote : Writer
wrote = record pushed { phase = draining false; write_stack = []; file = codes "a" ∷ [] }

new_writer-Balanced_example :
    Balanced wrote
    × (busy.phase ≢ ended → wrote.phase ≡ ended → Perm wrote.pushed (wrote.failed ++ wrote.file))
new_writer-Balanced_example = new_writer-Balanced takes (write false (codes "a") refl refl refl)

not_waiting : busy.phase ≢ idle
not_waiting e = cc

abbrev waits : Writer
waits = record wrote { phase = idle }
