-- ===== src/ListAllObjects/Worker.antt =====
-- worker.cpp: a worker takes a prefix from the shared queue, lists it page by page and queues the
-- prefixes that it finds. A critical section is a function on the shared state.
pub mod Accounting
pub mod Output
pub mod Json
use s3cpp.Prelude.{ℕ, Bool, Option, none, some, List, [], ◌∷◌, ◌++◌, ltb, ◌==◌, length, Text}
use s3cpp.Std.SizeT.{plus, incr, decr}
use s3cpp.S3.Types.{Object, CommonPrefix}
use s3cpp.ListAllObjects.Misc.{OutputFormat, plain, json, Shared}
use s3cpp.ListAllObjects.Queue.{emplace, drop_empty, take_top}

unfoldable pub is_done : Shared → Bool
is_done s = s.metrics.total_queue_length == 0

unfoldable pub should_terminate_early : Shared → Bool
should_terminate_early s = ltb s.metrics.target_workers s.metrics.active_workers

-- `get_next_prefix`, under the lock. The loop has popped its empty entries also where it finds
-- no path.
unfoldable pub get_next_prefix : Shared → Option (CommonPrefix × ℕ) × Shared
get_next_prefix s = elim (take_top (drop_empty s.prefix_queue)) [
  | none ↦ (none, record s { prefix_queue = drop_empty s.prefix_queue })
  | some (got, q) ↦ (
    some got,
    record s {
      prefix_queue = q;
      metrics = record s.metrics { total_queue_length = decr s.metrics.total_queue_length };
    },
  )
]

-- The part of `process_prefix` under the lock, for one page.
unfoldable pub enqueue : ℕ → List CommonPrefix → Shared → Shared
enqueue depth [] s = s
enqueue depth (p ∷ ps) s = record s {
  metrics = record s.metrics {
    total_queue_length = plus s.metrics.total_queue_length (length (p ∷ ps));
  };
  prefix_queue = emplace (record { depth = incr depth; paths = p ∷ ps }) s.prefix_queue;
}

count_objects : ℕ → Shared → Shared
count_objects n s = record s {
  metrics = record s.metrics { total_objects_found = plus s.metrics.total_objects_found n };
}

count_op : Shared → Shared
count_op s = record s { metrics = record s.metrics { total_ops = incr s.metrics.total_ops } }

unfoldable pub record_page : ℕ → List Object → List CommonPrefix → Shared → Shared
unfolding count_objects count_op
record_page depth contents prefixes s =
    count_op (enqueue depth prefixes (count_objects (length contents) s))

-- An empty buffer is not pushed.
unfoldable pub push : Text → Shared → Shared
push [] s = s
push (c ∷ t) s = record s { write_stack = (c ∷ t) ∷ s.write_stack }

unfoldable pub plain_line : Option Text → Text
plain_line none = []
plain_line (some key) = key ++ b'\n' ∷ []

module _ (serialize : Object → Text) where
  -- One object's share of the buffer: nothing for an object with no key, in the plain format.
  unfoldable pub line : OutputFormat → Object → Text
  line plain o = plain_line o.key
  line json o = serialize o ++ b'\n' ∷ []

  unfoldable pub buffer : OutputFormat → List Object → Text
  buffer format [] = []
  buffer format (o ∷ os) = line format o ++ buffer format os

  unfoldable pub write_objects : OutputFormat → List Object → Shared → Shared
  write_objects format objects s = push (buffer format objects) s
