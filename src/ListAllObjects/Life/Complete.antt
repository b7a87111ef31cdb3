-- ===== src/ListAllObjects/Life/Complete.antt =====
-- What holds when the destructor has joined the pool.
use mathlib.Core.List.Perm
use s3cpp.ListAllObjects.Queue.Pending.{pending}
use s3cpp.Prelude.{
  ◌⊎◌, ℕ, ◌<◌, ◌≡◌, ◌≢◌, refl, ap, sym, subst, ◌∙◌, inl, inr, List, [], ◌++◌, append-nil, length,
  arith, Text, Perm,
}
use s3cpp.Std.Decimal.{size_max}
use s3cpp.S3.Types.{Object, CommonPrefix}
use s3cpp.ListAllObjects.Misc.{OutputFormat, Shared}
use s3cpp.ListAllObjects.Manager.{start, poll, shut_down}
use s3cpp.ListAllObjects.Manager.Scaling.{ScalingFactors, Double}
use s3cpp.ListAllObjects.Manager.Writer.{WriterPhase, ended, raised}
use s3cpp.ListAllObjects.Manager.Writer.Conserve.{Balanced, Places, Reach-Balanced}
use s3cpp.ListAllObjects.Manager.Writer.Signal.{Unaborted, Step-Unaborted}
use s3cpp.ListAllObjects.Worker.Accounting.{waiting}
use s3cpp.ListAllObjects.Crew.{initial}
use s3cpp.ListAllObjects.Crew.Conserve.{Reach-Inv}
use s3cpp.ListAllObjects.Crew.Shutdown.{poll_complete}
use s3cpp.ListAllObjects.Life.{
  Life, Leaves, Joins, new_life, Step, Reach, here, next, works, starts, scales, writes, waits,
  leaves, cancels_scaling, cancels_writing, joins, polling, writer_of,
}
use s3cpp.ListAllObjects.Life.Parts.{Reach-crew}
use s3cpp.ListAllObjects.Life.Written.{Reach-writer}
use s3cpp.ListAllObjects.Life.Closed.{Closed, Reach-Closed}

-- While the destructor is in its loop, nothing was reported and no signal was emitted.
abbrev Open : {f : Double} → Life f → Type 0
Open l = l.destructor ≡ polling → (l.crew.reported ≡ []) × Unaborted l.writing

-- A loop that ends leaves an empty queue.
poll-empty :
    (s : Shared) (left : List CommonPrefix)
    → (poll s).0 ≡ shut_down left
    → (poll s).1.prefix_queue ≡ []
unfolding poll
poll-empty s left e = ground arith

ended_writer : (w : WriterPhase) → (w ≡ ended) ⊎ (w ≡ raised) → w ≢ raised → w ≡ ended
ended_writer w (inl e) fine = e
ended_writer w (inr e) fine = absurd (fine e)

-- A writer that has ended over an empty stack has placed each text.
in_file :
    {f : Double} (l : Life f)
    → Balanced (writer_of l)
    → l.writing ≡ ended
    → l.crew.shared.write_stack ≡ []
    → Perm l.pushed (l.failed ++ l.file)
in_file l b over dry =
    subst (λ file. Perm l.pushed (l.failed ++ file)) (append-nil l.file)
      (subst (Places (writer_of l) ended) dry
        (subst (λ w. Places (writer_of l) w l.crew.shared.write_stack) over b))

module _ {f : Double} (rolling_mean : List ℕ → f.D) (config : ScalingFactors f)
    (serialize : Object → Text) (format : OutputFormat) where
  Step-Open : {l t : Life f} → Step rolling_mean config serialize format l t → Open l → Open t
  Step-Open (works _ _ _ _ _ _ _ _ _ _ _ h) o = rw h o
  Step-Open (starts _ _ h) o = rw h o
  Step-Open (scales _ _ h) o = rw h o
  Step-Open (writes w x _ h) o = rw h (λ e. ((o e).0, Step-Unaborted x (o e).1))
  Step-Open (waits _ e h) o = rw h o
  Step-Open (leaves left x) o = rw x.behind (λ e. cc)
  Step-Open (cancels_scaling _ _ _ h) o = rw h (λ e. cc)
  Step-Open (cancels_writing _ _ _ h) o = rw h (λ e. cc)
  Step-Open (joins _ h) o = rw h (λ e. cc)

  Reach-Open : {l : Life f} → Reach rolling_mean config serialize format new_life l → Open l
  unfolding new_life initial
  Reach-Open here = λ e. (refl, tt)
  Reach-Open (next r s) = Step-Open s (Reach-Open r)

  Reach-trans :
      {l m n : Life f}
      → Reach rolling_mean config serialize format l m
      → Reach rolling_mean config serialize format m n
      → Reach rolling_mean config serialize format l n
  Reach-trans r here = r
  Reach-trans r (next q s) = next (Reach-trans r q) s

  -- In the life of a manager, each text that was pushed is in one place.
  writer_of-Balanced :
      {l : Life f} → Reach rolling_mean config serialize format new_life l → Balanced (writer_of l)
  unfolding new_life initial start
  writer_of-Balanced r =
      Reach-Balanced (Reach-writer rolling_mean config serialize format r) (Perm.refl _)

  -- The loop ends over a crew with nothing to do.
  pub Leaves-Closed :
      {l m : Life f} (left : List CommonPrefix)
      → Reach rolling_mean config serialize format new_life l
      → Leaves l left m
      → length (waiting l.crew.shared) < size_max
      → length l.crew.workers < size_max
      → (left ≡ []) × Perm m.crew.found m.crew.taken × Closed m m
  unfolding new_life pending
  Leaves-Closed {l} {m} left r x few_paths few_workers =
      let (none_reported, unaborted) = Reach-Open r x.was_polling in
      let c = Reach-crew serialize format rolling_mean config r in
      let (no_worker, none_left, all_taken) =
        poll_complete serialize format l.crew left c few_paths few_workers none_reported x.answer in
      let i =
        Reach-Inv serialize format
          (Reach-crew serialize format rolling_mean config (next r (leaves left x))) in
      (
        none_left,
        rw x.behind all_taken,
        record {
          inv = i;
          none_waiting =
              ap (λ l. pending l.crew.shared.prefix_queue) x.behind
              ∙ ap pending (poll-empty l.crew.shared left x.answer);
          idle = rw (x.behind, no_worker) tt;
          none_reported = rw (x.behind, none_left, none_reported) refl;
          same_found = refl;
          same_taken = refl;
          same_pushed = refl;
          dried = λ e. absurd (subst Unaborted (sym (ap (λ l. l.writing) x.behind) ∙ e) unaborted);
          past = λ e. let y = sym (ap (λ l. l.destructor) x.behind) ∙ e in cc;
        },
      )

  -- In the life of a manager, the destructor leaves its loop at `l` for `m` with fewer than 2 ^ 64
  -- prefixes waiting and fewer than 2 ^ 64 workers, and at `n` its join of the pool returns. Then
  -- no prefix was reported as left behind, each prefix that was ever found was handed out to a
  -- worker, as often as it was found; nothing was found, handed out or pushed since the loop ended,
  -- whichever workers started late; and unless the writer ended by an exception, the file and the
  -- texts whose write failed are all texts that were ever pushed.
  pub joins_complete :
      {l m n : Life f} (left : List CommonPrefix)
      → Reach rolling_mean config serialize format new_life l
      → Leaves l left m
      → length (waiting l.crew.shared) < size_max
      → length l.crew.workers < size_max
      → Reach rolling_mean config serialize format m n
      → Joins n
      → (left ≡ [])
        × (waiting n.crew.shared ≡ [])
        × Perm n.crew.found n.crew.taken
        × ((n.crew.found ≡ m.crew.found) × (n.crew.taken ≡ m.crew.taken) × (n.pushed ≡ m.pushed))
        × (n.writing ≢ raised → Perm n.pushed (n.failed ++ n.file))
  joins_complete {n = n} left r x few_paths few_workers q j =
      let (none_left, all_taken, closed) = Leaves-Closed left r x few_paths few_workers in
      let c = Reach-Closed serialize format rolling_mean config q closed in
      (
        none_left,
        c.none_waiting,
        rw (c.same_found, c.same_taken) all_taken,
        (c.same_found, c.same_taken, c.same_pushed),
        λ fine.
            let over = ended_writer n.writing j.writing_over fine in
            in_file n (writer_of-Balanced (Reach-trans (next r (leaves left x)) q)) over
              (c.dried over),
      )
