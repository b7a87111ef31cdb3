-- ===== src/ListAllObjects/Crew.antt =====
-- The workers of a crew, interleaved: each step is one access of the shared state by one worker, or
-- by the manager, where what is done under the lock of the queue is one access, a round of the
-- destructor's loop too; what the server answers is arbitrary. `found`, `taken` and `reported` record the prefixes that were ever queued, ever handed
-- out and ever reported as left behind.
pub mod Polled
pub mod Conserve
pub mod Shutdown
pub mod Idle
pub mod Ends
pub mod Alone
pub mod Refines
use s3cpp.Prelude.{ℕ, ◌≤◌, ◌<◌, ◌≡◌, true, false, Option, none, some, List, [], ◌∷◌, ◌++◌, Text}
use s3cpp.S3.Types.{Object, CommonPrefix}
use s3cpp.ListAllObjects.Misc.{OutputFormat, Shared}
use s3cpp.ListAllObjects.Worker.{is_done, get_next_prefix, record_page, write_objects}
use s3cpp.ListAllObjects.Process.{Page}
use s3cpp.ListAllObjects.Manager.{
  start, root_prefix, worker_starts, worker_stops, Poll, keep_waiting, shut_down, poll,
}

-- Where a worker stands: about to call `get_next_prefix`; waiting for a page of its prefix; holding
-- a page whose objects are written, before the lock; about to call `is_done`; about to read
-- `active_workers`; holding what it read, about to compare it with `target_workers`; and about to
-- count itself off, which its scope guard does where an exception ends it too.
pub data Phase : Type 0 where
  seeking : Phase
  listing : CommonPrefix → ℕ → Phase
  recording : CommonPrefix → ℕ → Page → Phase
  checking : Phase
  comparing : Phase
  compared : ℕ → Phase
  leaving : Phase

pub record Crew : Type 0 where
  pub shared : Shared
  pub workers : List Phase
  pub found : List CommonPrefix
  pub taken : List CommonPrefix
  pub reported : List CommonPrefix

-- What a worker does next: on to the next page, or done with the prefix.
abbrev pub after_page : CommonPrefix → ℕ → Option Text → Phase
after_page p d none = checking
after_page p d (some token) = listing p d

-- One access of a worker in phase `w`: its next phase, or none where it ends, the shared state
-- behind it, and the prefixes that it took and found.
pub data Act (serialize : Object → Text) (format : OutputFormat) (w : Phase) (s : Shared)
    (w' : Option Phase) (s' : Shared) (took found : List CommonPrefix) : Type 0 where
  fetch :
      (p : CommonPrefix) (d : ℕ)
      → w ≡ seeking
      → get_next_prefix s ≡ (some (p, d), s')
      → w' ≡ some (listing p d)
      → took ≡ p ∷ []
      → found ≡ []
      → Act serialize format w s w' s' took found
  miss :
      w ≡ seeking
      → get_next_prefix s ≡ (none, s')
      → w' ≡ some checking
      → took ≡ []
      → found ≡ []
      → Act serialize format w s w' s' took found
  write :
      (p : CommonPrefix) (d : ℕ) (page : Page)
      → w ≡ listing p d
      → page.repeated ≡ false
      → s' ≡ write_objects serialize format page.contents s
      → w' ≡ some (recording p d page)
      → took ≡ []
      → found ≡ []
      → Act serialize format w s w' s' took found
  skip :
      (p : CommonPrefix) (d : ℕ)
      → w ≡ listing p d
      → s' ≡ s
      → w' ≡ some checking
      → took ≡ []
      → found ≡ []
      → Act serialize format w s w' s' took found
  fail :
      (p : CommonPrefix) (d : ℕ)
      → w ≡ listing p d
      → s' ≡ s
      → w' ≡ some leaving
      → took ≡ []
      → found ≡ []
      → Act serialize format w s w' s' took found
  store :
      (p : CommonPrefix) (d : ℕ) (page : Page)
      → w ≡ recording p d page
      → s' ≡ record_page d page.contents page.prefixes s
      → w' ≡ some (after_page p d page.token)
      → took ≡ []
      → found ≡ page.prefixes
      → Act serialize format w s w' s' took found
  finish :
      w ≡ checking
      → is_done s ≡ true
      → s' ≡ s
      → w' ≡ some leaving
      → took ≡ []
      → found ≡ []
      → Act serialize format w s w' s' took found
  go_on :
      w ≡ checking
      → is_done s ≡ false
      → s' ≡ s
      → w' ≡ some comparing
      → took ≡ []
      → found ≡ []
      → Act serialize format w s w' s' took found
  read_active :
      w ≡ comparing
      → s' ≡ s
      → w' ≡ some (compared s.metrics.active_workers)
      → took ≡ []
      → found ≡ []
      → Act serialize format w s w' s' took found
  give_way :
      (n : ℕ)
      → w ≡ compared n
      → s.metrics.target_workers < n
      → s' ≡ s
      → w' ≡ some leaving
      → took ≡ []
      → found ≡ []
      → Act serialize format w s w' s' took found
  stay :
      (n : ℕ)
      → w ≡ compared n
      → n ≤ s.metrics.target_workers
      → s' ≡ s
      → w' ≡ some seeking
      → took ≡ []
      → found ≡ []
      → Act serialize format w s w' s' took found
  leave :
      w ≡ leaving
      → s' ≡ worker_stops s
      → w' ≡ none
      → took ≡ []
      → found ≡ []
      → Act serialize format w s w' s' took found

abbrev pub to_list : Option Phase → List Phase
to_list none = []
to_list (some w) = w ∷ []

-- The crew behind an act of the worker between `before` and `after`.
abbrev pub acted :
    Crew
    → List Phase
    → List Phase
    → Option Phase
    → Shared
    → List CommonPrefix
    → List CommonPrefix
    → Crew
acted c before after w' s' took found = record {
  shared = s';
  workers = before ++ (to_list w' ++ after);
  found = found ++ c.found;
  taken = took ++ c.taken;
  reported = c.reported;
}

-- What the destructor's loop drops and reports.
abbrev pub left_behind : Poll → List CommonPrefix
left_behind keep_waiting = []
left_behind (shut_down left) = left

-- A worker acts; the manager starts one, sets another target, or takes a text off the stack; or its
-- destructor makes a round of its loop.
pub data Step (serialize : Object → Text) (format : OutputFormat) (c c' : Crew) : Type 0 where
  acts :
      (before after : List Phase) (w : Phase) (w' : Option Phase) (s' : Shared)
      (took found : List CommonPrefix)
      → c.workers ≡ before ++ w ∷ after
      → Act serialize format w c.shared w' s' took found
      → c' ≡ acted c before after w' s' took found
      → Step serialize format c c'
  spawns :
      c' ≡ record c { shared = worker_starts c.shared; workers = seeking ∷ c.workers }
      → Step serialize format c c'
  retargets :
      (n : ℕ)
      → c' ≡ record c {
        shared = record c.shared { metrics = record c.shared.metrics { target_workers = n } };
      }
      → Step serialize format c c'
  pops :
      (text : Text) (rest : List Text)
      → c.shared.write_stack ≡ text ∷ rest
      → c' ≡ record c { shared = record c.shared { write_stack = rest } }
      → Step serialize format c c'
  polls :
      (answer : Poll) (s' : Shared)
      → poll c.shared ≡ (answer, s')
      → c' ≡ record c { shared = s'; reported = left_behind answer ++ c.reported }
      → Step serialize format c c'

pub data Reach (serialize : Object → Text) (format : OutputFormat) (c : Crew) : Crew → Type 0 where
  here : Reach serialize format c c
  next :
      {d e : Crew}
      → Reach serialize format c d
      → Step serialize format d e
      → Reach serialize format c e

-- The crew that the constructor of `WorkerManager` leaves: no worker yet, and the root queued.
unfoldable pub initial : Crew
initial = record {
  shared = start;
  workers = [];
  found = root_prefix ∷ [];
  taken = [];
  reported = [];
}
