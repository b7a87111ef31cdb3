-- ===== src/Tests/Crews.antt =====
-- The theorems on a crew at one run: a worker starts, lists the root and ends.
use s3cpp.Std.Decimal.{size_max}
use s3cpp.ListAllObjects.Queue.Pending.{pending}
use s3cpp.Std.SizeT.{minus, plus}
use s3cpp.ListAllObjects.Crew.Conserve.{Reach-Inv, Inv}
use s3cpp.ListAllObjects.Worker.{
  enqueue, push, buffer, record_page, write_objects, get_next_prefix, is_done,
}
use s3cpp.Prelude.{◌<◌, ◌≡◌, refl, true, false, none, some, List, [], ◌∷◌, arith, length, Text}
use s3cpp.S3.Types.{Object, CommonPrefix}
use s3cpp.ListAllObjects.Misc.{Shared, plain}
use s3cpp.ListAllObjects.Queue.{take_path, take_top, emplace, drop_empty}
use s3cpp.ListAllObjects.Manager.{start, root_prefix, worker_starts, worker_stops, poll, shut_down}
use s3cpp.ListAllObjects.Process.{Page}
use s3cpp.ListAllObjects.Crew.{
  store, fetch, write, spawns, listing, finish, leave, leaving, recording, here, acts, next, Crew,
  Phase, seeking, checking, Reach, initial,
}

abbrev serialize : Object → Text
serialize o = []

abbrev empty_page : Page
empty_page = record { repeated = false; token = none; contents = []; prefixes = [] }

abbrev started : Shared
started = worker_starts start

abbrev fetched : Shared
fetched = (get_next_prefix started).1

abbrev stored : Shared
stored = record_page 0 [] [] fetched

abbrev crew : List Phase → List CommonPrefix → Shared → Crew
crew workers taken shared = record {
  shared = shared;
  workers = workers;
  found = root_prefix ∷ [];
  taken = taken;
  reported = [];
}

begins : Reach serialize plain initial (crew (seeking ∷ []) [] started)
unfolding initial
begins = next here (spawns refl)

fetches :
    Reach serialize plain initial (crew (listing root_prefix 0 ∷ []) (root_prefix ∷ []) fetched)
unfolding get_next_prefix start worker_starts emplace drop_empty take_top take_path
fetches = next begins (
    acts [] [] seeking (some (listing root_prefix 0)) fetched (root_prefix ∷ []) [] refl
      (fetch root_prefix 0 refl refl refl refl refl) refl)

writes :
    Reach serialize plain initial
      (crew (recording root_prefix 0 empty_page ∷ []) (root_prefix ∷ []) fetched)
unfolding write_objects buffer push
writes = next fetches (
    acts [] [] (listing root_prefix 0) (some (recording root_prefix 0 empty_page)) fetched [] []
      refl (write root_prefix 0 empty_page refl refl refl refl refl refl) refl)

stores : Reach serialize plain initial (crew (checking ∷ []) (root_prefix ∷ []) stored)
stores = next writes (
    acts [] [] (recording root_prefix 0 empty_page) (some checking) stored [] [] refl
      (store root_prefix 0 empty_page refl refl refl refl refl) refl)

stored_done : is_done stored ≡ true
unfolding is_done record_page get_next_prefix start worker_starts emplace drop_empty take_top
    take_path plus minus enqueue
stored_done = refl

ends : Reach serialize plain initial (crew [] (root_prefix ∷ []) (worker_stops stored))
ends =
    next
      (next stores (
        acts [] [] checking (some leaving) stored [] [] refl
          (finish refl stored_done refl refl refl refl) refl))
      (acts [] [] leaving none (worker_stops stored) [] [] refl (leave refl refl refl refl refl)
        refl)

Reach-Inv_example : Inv (crew (checking ∷ []) (root_prefix ∷ []) stored)
Reach-Inv_example = Reach-Inv serialize plain stores

few : length (pending (worker_stops stored).prefix_queue) < size_max
unfolding worker_stops record_page get_next_prefix start worker_starts emplace drop_empty take_top
    take_path plus minus enqueue pending
few = omega arith

shuts_down : (poll (worker_stops stored)).0 ≡ shut_down []
unfolding poll worker_stops record_page get_next_prefix start worker_starts emplace drop_empty
    take_top take_path plus minus enqueue pending
shuts_down = refl
