-- ===== src/Tests/Lives.antt =====
-- One life of a manager: two workers are posted, one lists the root, the other starts when the
-- destructor has left its loop, and both coroutines are stopped.
use s3cpp.Prelude.{
  ℕ, ◌<◌, ◌≡◌, ◌≢◌, refl, true, false, none, some, List, [], ◌∷◌, arith, length, Text, codes,
}
use s3cpp.Std.Decimal.{size_max}
use s3cpp.Std.SizeT.{plus, minus}
use s3cpp.S3.Types.{Object}
use s3cpp.ListAllObjects.Misc.{Shared, plain}
use s3cpp.ListAllObjects.Queue.{take_path, take_top, emplace, drop_empty}
use s3cpp.ListAllObjects.Manager.{start, root_prefix, worker_starts, worker_stops, poll}
use s3cpp.ListAllObjects.Manager.Scaling.{calculate_desired_workers, scaled, max_size}
use s3cpp.ListAllObjects.Manager.Scaling.Steps.{
  begin, elapse, sample, see_some, decide, differ, change, count, post, settle, abort,
  ended as stopped, waiting as sleeping,
}
use s3cpp.ListAllObjects.Manager.Writer.{
  draining, ended, waiting as idle, begin as opens, abort as aborts, pop, write as writes_out,
  finish as ends_it,
}
use s3cpp.ListAllObjects.Crew.{
  seeking, miss, fetch, write, store, finish, leave, leaving, listing, recording, checking, initial,
}
use s3cpp.ListAllObjects.Life.{
  Life, Reach, new_life, here, next, works, starts, scales, writes, cancels_scaling,
  cancels_writing, Leaves, joining, cancelling_scaling,
}
use s3cpp.ListAllObjects.Queue.Pending.{pending}
use s3cpp.ListAllObjects.Process.{Page}
use s3cpp.ListAllObjects.Worker.{
  get_next_prefix, is_done, record_page, enqueue, write_objects, buffer, line, plain_line, push,
}
use s3cpp.Tests.Listing.{key_object, whole, factors}

abbrev pub mean : List ℕ → ℕ
mean samples = 2

abbrev pub no_json : Object → Text
no_json o = []

abbrev pub Reaches : Life whole → Life whole → Type 0
Reaches = Reach mean factors no_json plain

abbrev pub two_posted : Life whole
two_posted = record new_life {
  posted = 2;
  scaling = sleeping;
  samples = 0 ∷ [];
  crew = record initial {
    shared = record start { metrics = record start.metrics { target_workers = 2 } };
  };
}

not_zero : (n : ℕ) → n ≡ 1 → n ≢ 0
not_zero n e f = omega arith

pub after : {l m n : Life whole} → Reaches l m → Reaches m n → Reaches l n
after r here = r
after r (next q x) = next (after r q) x

posts_two : Reaches new_life two_posted
unfolding new_life initial start emplace plus minus calculate_desired_workers scaled max_size
posts_two =
    next
      (next
        (next
          (next
            (next
              (next
                (next
                  (next
                    (next
                      (next (next here (scales _ (begin refl refl refl) refl))
                        (scales _ (elapse refl refl refl) refl))
                      (scales _ (sample _ refl refl refl refl) refl))
                    (scales _ (see_some 2 refl refl (not_zero _ refl) refl) refl))
                  (scales _ (decide 2 refl refl refl) refl))
                (scales _ (differ 2 refl refl (λ e. omega arith) refl) refl))
              (scales _ (change 2 refl refl refl) refl))
            (scales _ (count 2 refl refl refl) refl))
          (scales _ (post 1 refl refl refl) refl))
        (scales _ (post 0 refl refl refl) refl))
      (scales _ (settle refl refl refl) refl)

abbrev one_page : Page
one_page = record {
  repeated = false;
  token = none;
  contents = key_object (codes "a") ∷ [];
  prefixes = [];
}

abbrev pub listed_shared : Shared
listed_shared = record start {
  metrics = record {
    total_ops = 1;
    total_queue_length = 0;
    total_objects_found = 1;
    active_workers = 0;
    target_workers = 2;
  };
  prefix_queue = record { depth = 0; paths = [] } ∷ [];
  write_stack = codes "a\n" ∷ [];
}

-- One worker has listed the root and ended, the other has not started.
abbrev pub listed_root : Life whole
listed_root = record two_posted {
  posted = 1;
  crew = record {
    shared = listed_shared;
    workers = [];
    found = root_prefix ∷ [];
    taken = root_prefix ∷ [];
    reported = [];
  };
  writing = idle;
  pushed = codes "a\n" ∷ [];
}

pub lists_root : Reaches new_life listed_root
unfolding new_life initial start worker_starts worker_stops get_next_prefix is_done record_page
    enqueue write_objects buffer line plain_line push emplace drop_empty take_top take_path plus
    minus
lists_root =
    next
      (next
        (next
          (next
            (next
              (next (next posts_two (starts 1 refl refl)) (
                works [] [] seeking (some (listing root_prefix 0)) _ (root_prefix ∷ []) [] [] refl
                  (fetch root_prefix 0 refl refl refl refl refl) refl refl))
              (works [] [] (listing root_prefix 0) (some (recording root_prefix 0 one_page)) _ [] []
                (codes "a\n" ∷ []) refl (write root_prefix 0 one_page refl refl refl refl refl refl)
                refl refl))
            (writes _ (opens refl refl refl) refl refl))
          (works [] [] (recording root_prefix 0 one_page) (some checking) _ [] [] [] refl
            (store root_prefix 0 one_page refl refl refl refl refl) refl refl))
        (works [] [] checking (some leaving) _ [] [] [] refl (finish refl refl refl refl refl refl)
          refl refl))
      (works [] [] leaving none _ [] [] [] refl (leave refl refl refl refl refl) refl refl)

abbrev pub left_loop : Life whole
left_loop = record listed_root {
  crew = record listed_root.crew { shared = record listed_shared { prefix_queue = [] } };
  destructor = cancelling_scaling;
}

pub quits_loop : Leaves listed_root [] left_loop
unfolding poll drop_empty pending new_life
quits_loop = record { was_polling = refl; answer = refl; behind = refl }

pub few_waiting : length (pending listed_shared.prefix_queue) < size_max
unfolding pending
few_waiting = omega arith

-- The second worker has started, and both signals were emitted and arrived.
abbrev pub signalled : Life whole
signalled = record left_loop {
  posted = 0;
  crew = record left_loop.crew {
    shared = worker_starts left_loop.crew.shared;
    workers = seeking ∷ [];
  };
  scaling = stopped;
  writing = draining true;
  destructor = joining;
}

pub signals_both : Reaches left_loop signalled
unfolding new_life initial start worker_starts plus
signals_both =
    next
      (next (next here (starts 0 refl refl)) (cancels_scaling _ refl (abort refl refl refl) refl))
      (cancels_writing _ refl (aborts refl refl refl) refl)

-- The late worker and the writer have ended.
abbrev pub all_over : Life whole
all_over = record signalled {
  crew = record left_loop.crew {
    shared = record listed_shared { prefix_queue = []; write_stack = [] };
    workers = [];
  };
  writing = ended;
  file = codes "a\n" ∷ [];
}

pub ends_all : Reaches signalled all_over
unfolding worker_starts worker_stops get_next_prefix is_done drop_empty take_top plus minus new_life
    start
ends_all =
    next
      (next
        (next
          (next
            (next
              (next here (
                works [] [] seeking (some checking) _ [] [] [] refl (miss refl refl refl refl refl)
                  refl refl))
              (works [] [] checking (some leaving) _ [] [] [] refl
                (finish refl refl refl refl refl refl) refl refl))
            (works [] [] leaving none _ [] [] [] refl (leave refl refl refl refl refl) refl refl))
          (writes _ (pop true (codes "a\n") [] refl refl refl refl) refl refl))
        (writes _ (writes_out true (codes "a\n") refl refl refl) refl refl))
      (writes _ (ends_it refl refl refl refl) refl refl)
