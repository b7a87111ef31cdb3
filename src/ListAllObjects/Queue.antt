-- ===== src/ListAllObjects/Queue.antt =====
-- `PrefixQueue`, a `std::priority_queue` whose top is an entry of the least depth, as a list with
-- the top at its head. The standard leaves open which of several entries of one depth is the top;
-- here it is the oldest, and no theorem depends on that.
pub mod Order
pub mod Pending
use s3cpp.Prelude.{
  ℕ, Option, none, some, List, [], ◌∷◌, ltb, if◌then◌else◌, is_empty, back, pop_back,
}
use s3cpp.S3.Types.{CommonPrefix}
use s3cpp.ListAllObjects.Misc.{PrefixQueueEntry}

unfoldable pub emplace : PrefixQueueEntry → List PrefixQueueEntry → List PrefixQueueEntry
emplace e [] = e ∷ []
emplace e (f ∷ q) = if ltb e.depth f.depth then e ∷ f ∷ q else f ∷ emplace e q

-- The loop that pops entries with no path left; `get_next_prefix` and the destructor of
-- `WorkerManager` share it.
unfoldable pub drop_empty : List PrefixQueueEntry → List PrefixQueueEntry
drop_empty [] = []
drop_empty (e ∷ q) = let rest = drop_empty q in if is_empty e.paths then rest else e ∷ q

-- `top->paths.back()` and `pop_back()` through the reference to the top entry.
unfoldable pub take_path :
    PrefixQueueEntry → List CommonPrefix → Option ((CommonPrefix × ℕ) × PrefixQueueEntry)
take_path e [] = none
take_path e (p ∷ ps) = some ((back p ps, e.depth), record e { paths = pop_back p ps })

unfoldable pub take_top :
    List PrefixQueueEntry → Option ((CommonPrefix × ℕ) × List PrefixQueueEntry)
take_top [] = none
take_top (e ∷ q) = elim (take_path e e.paths) [ none ↦ none | some (got, e') ↦ some (got, e' ∷ q) ]
