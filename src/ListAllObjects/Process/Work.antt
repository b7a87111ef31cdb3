-- ===== src/ListAllObjects/Process/Work.antt =====
-- The loop of a worker that is alone: on a bucket that stands still it lists the whole of it.
use s3cpp.Prelude.{
  ◌∷◌, length-zero, ℕ, zero, suc, ◌+◌, ◌≤◌, ◌<◌, ◌≡◌, refl, ap, inl, inr, true, false, Option, none,
  some, List, [], ◌++◌, arith, Bool-cases, length, Text, Perm,
}
use s3cpp.Std.Decimal.{size_max}
use s3cpp.Std.SizeT.{Counts-zero}
use s3cpp.S3.Types.{Object, CommonPrefix}
use s3cpp.ListAllObjects.Misc.{OutputFormat, ListObjectsApiVersion, Shared}
use s3cpp.ListAllObjects.Tree.{Bucket, IsTree, total, all_objects, length-le-total}
use s3cpp.ListAllObjects.Worker.{is_done, should_terminate_early, get_next_prefix}
use s3cpp.ListAllObjects.Worker.Accounting.{waiting, IsValid, Fetches, get_next_prefix-Fetches}
use s3cpp.ListAllObjects.Process.Emptied.{
  Emptied, Emptied-none, no_objects, Emptied-step, all_objects-taken, total-taken,
}
use s3cpp.ListAllObjects.Process.{ClientApi, Page, Ending, finished, process_prefix, work}
use s3cpp.ListAllObjects.Process.Pages.{
  Absorbed, all_contents, all_prefixes, Delivers, process_prefix_complete,
}

module _ (c : ClientApi) (bucket : Text) (version : ListObjectsApiVersion) (b : Bucket) where
  -- Whatever the state of the network, the server delivers at most `most` pages for a prefix, which
  -- hold what the bucket has under it.
  abbrev pub Serves : ℕ → Type 0
  Serves most =
      (p : CommonPrefix) (net : c.Net)
      → (pages : List Page) × (end : c.Net) × Delivers c bucket version p.prefix none net pages end
        × (length pages ≤ most)
        × Perm (all_contents pages) (b.contents p)
        × Perm (all_prefixes pages) (b.below p)

module _ (c : ClientApi) (bucket : Text) (version : ListObjectsApiVersion)
    (serialize : Object → Text) (format : OutputFormat) where
  open c use {Net}

  work-none :
      (fuel : ℕ) (s t : Shared) (net : Net)
      → get_next_prefix s ≡ (none, t)
      → is_done t ≡ true
      → work c bucket version serialize format (suc fuel) s net ≡ (finished, t, net)
  unfolding work
  work-none fuel s t net e d = rw (work, e, e, d) refl

  module _ (fuel : ℕ) (s t r : Shared) (p : CommonPrefix) (d : ℕ) (net end : Net)
      (e : get_next_prefix s ≡ (some (p, d), t))
      (q : process_prefix c bucket version serialize format fuel p d none t net
        ≡ (finished, r, end)) where
    work-is_done :
        is_done r ≡ true
        → work c bucket version serialize format (suc fuel) s net ≡ (finished, r, end)
    unfolding work
    work-is_done done = rw (work, e, e, q, done) refl

    work-goes_on :
        is_done r ≡ false
        → should_terminate_early r ≡ false
        → work c bucket version serialize format (suc fuel) s net
          ≡ work c bucket version serialize format fuel r end
    unfolding work
    work-goes_on more stay = rw (work, e, e, q, more, stay) refl

  -- A valid state whose queue is empty, in the counter's words.
  is_done-none_wait : (s : Shared) → IsValid s → waiting s ≡ [] → is_done s ≡ true
  unfolding is_done
  is_done-none_wait s v e = let zero_length = ap length e in ground arith

  stays :
      (s : Shared)
      → s.metrics.active_workers ≤ s.metrics.target_workers
      → should_terminate_early s ≡ false
  unfolding should_terminate_early
  stays s h = ground arith

  none_wait-is_done :
      (s : Shared) → IsValid s → length (waiting s) < size_max → is_done s ≡ true → waiting s ≡ []
  unfolding is_done
  none_wait-is_done s v few e =
      length-zero (waiting s)
        (Counts-zero s.metrics.total_queue_length (length (waiting s)) few v.counted (ground arith))

  module _ (b : Bucket) (tree : IsTree b) where
    -- What a run promises: it ends, and lists the objects under the prefixes that wait, in some
    -- order.
    abbrev pub Lists : Shared → Ending × Shared × Net → Type 0
    Lists s out =
        (out.0 ≡ finished)
        × (objects : List Object) × Emptied serialize format objects s out.1
        × Perm objects (all_objects b (waiting s))

    -- A run from behind a prefix that was taken and absorbed lists what the run from before it
    -- does.
    Lists-taken :
        (s t r : Shared) (p : CommonPrefix) (pages : List Page) (out : Ending × Shared × Net)
        → Perm (waiting s) (p ∷ waiting t)
        → Absorbed serialize format (all_contents pages) (all_prefixes pages) t r
        → Perm (all_contents pages) (b.contents p)
        → Perm (all_prefixes pages) (b.below p)
        → t.write_stack ≡ s.write_stack
        → t.metrics.total_objects_found ≡ s.metrics.total_objects_found
        → Lists r out
        → Lists s out
    Lists-taken s t r p pages out taken a contents below stack found (ended, objects, m, listed) = (
      ended,
      all_contents pages ++ objects,
      Emptied-step serialize format b tree s t r out.1 p pages objects a m stack found,
      all_objects-taken serialize format b tree (waiting s) (waiting t) (waiting r) p pages objects
          taken a.queued contents below listed,
    )

    -- A worker that is alone, on a valid state, with a target of no fewer workers than there are
    -- and a server that serves a tree of fewer than 2 ^ 64 prefixes, ends if its fuel is above the
    -- tree's weight and the most pages together. Then no prefix waits, and the objects written and
    -- counted are, in some order, those under the prefixes that waited.
    pub work-Lists :
        (most : ℕ)
        → Serves c bucket version b most
        → (fuel : ℕ) (s : Shared) (net : Net) → IsValid s
        → s.metrics.active_workers ≤ s.metrics.target_workers
        → total b (waiting s) < size_max
        → most + total b (waiting s) < fuel
        → Lists s (work c bucket version serialize format fuel s net)
    work-Lists most serves zero s net v stay few h = absurd (omega arith)
    work-Lists most serves (suc fuel) s net v stay few h =
        by_fetch (work-Lists most serves fuel) (get_next_prefix s) refl
          (get_next_prefix-Fetches s v)
      where
        by_fetch :
            ((r : Shared) (end : Net)
              → IsValid r
              → r.metrics.active_workers ≤ r.metrics.target_workers
              → total b (waiting r) < size_max
              → most + total b (waiting r) < fuel
              → Lists r (work c bucket version serialize format fuel r end))
            → (got : Option (CommonPrefix × ℕ) × Shared) → get_next_prefix s ≡ got
            → Fetches s got
            → Lists s (work c bucket version serialize format (suc fuel) s net)
        by_fetch ih (none, t) e (w, w', vt, (stack, ops, found, act, tgt)) =
            rw (work-none fuel s t net e (is_done-none_wait t vt w')) (
              refl,
              [],
              Emptied-none serialize format b tree s t vt w' stack found,
              no_objects serialize format b tree s w,
            )
        by_fetch ih (some (p, d), t) e (taken, least, vt, (stack, ops, found, act, tgt)) =
            let (pages, end, delivers, bound, contents, below) = serves p net in
            let (r, q, a) =
              process_prefix_complete c bucket version serialize format p d pages fuel none t net
                end vt (omega arith) delivers in
            let less =
              total-taken serialize format b tree (waiting s) (waiting t) (waiting r) p pages taken
                a.queued below in
            elim (Bool-cases (is_done r)) [
              | inl done ↦
                  let ended : waiting r ≡ [] =
                    none_wait-is_done r a.valid (omega (arith, length-le-total b tree (waiting r)))
                      done in
                  rw (work-is_done fuel s t r p d net end e q done) (
                    Lists-taken s t r p pages (finished, r, end) taken a contents below stack found
                      (
                        refl,
                        [],
                        Emptied-none serialize format b tree r r a.valid ended refl refl,
                        no_objects serialize format b tree r ended,
                      ))
              | inr more ↦
                  rw
                    (work-goes_on fuel s t r p d net end e q more
                      (stays r (omega (arith, a.active, a.target))))
                    (Lists-taken s t r p pages (work c bucket version serialize format fuel r end)
                      taken a contents below stack found
                      (ih r end a.valid (omega (arith, a.active, a.target)) (omega arith)
                        (omega arith)))
            ]
