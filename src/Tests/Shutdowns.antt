-- ===== src/Tests/Shutdowns.antt =====
-- The theorems on the life of a manager at one life, and a life whose signal is lost.
use s3cpp.Prelude.{
  ◌+◌, ◌≤◌, ◌⊎◌, inl, inr, ◌++◌, ◌≡◌, ◌≢◌, refl, false, none, some, List, [], arith, Perm, codes,
}
use s3cpp.Std.SizeT.{plus, minus}
use s3cpp.S3.Types.{CommonPrefix}
use s3cpp.ListAllObjects.Misc.{plain}
use s3cpp.ListAllObjects.Queue.{take_top, drop_empty}
use s3cpp.ListAllObjects.Manager.{start, worker_starts, worker_stops}
use s3cpp.ListAllObjects.Manager.Scaling.{scaling_round}
use s3cpp.ListAllObjects.Manager.Scaling.Steps.{
  Scaler, abort, ended as stopped, raised as thrown, Acts, waiting as sleeping,
}
use s3cpp.ListAllObjects.Manager.Writer.{
  draining, raised, go_on, break, elapse as expires, miss as lost, pop, write as writes_out,
}
use s3cpp.ListAllObjects.Crew.{seeking, miss, finish, leave, leaving, checking, initial}
use s3cpp.ListAllObjects.Life.{
  leaves, Life, Step, new_life, here, next, works, starts, writes, cancels_scaling, cancels_writing,
  Joins, returned,
}
use s3cpp.ListAllObjects.Worker.{get_next_prefix, is_done}
use s3cpp.ListAllObjects.Life.Complete.{joins_complete}
use s3cpp.ListAllObjects.Life.Lost.{lost_signals}
use s3cpp.ListAllObjects.Life.Left.{steps_left}
use s3cpp.ListAllObjects.Life.Ends.{join_returns, stop}
use s3cpp.ListAllObjects.Worker.Accounting.{waiting}
use s3cpp.ListAllObjects.Manager.Writer.Signal.{Unaborted}
use s3cpp.ListAllObjects.Manager.Scaling.Rounds.{scaling_round-Acts}
use s3cpp.Tests.Listing.{whole, factors}
use s3cpp.Tests.Lives.{
  mean, no_json, Reaches, left_loop, signalled, all_over, after, lists_root, quits_loop,
  few_waiting, signals_both, ends_all,
}

over : Joins all_over
over = record {
  was_joining = refl;
  no_worker = refl;
  none_posted = refl;
  scaling_over = inl refl;
  writing_over = inl refl;
}

joins_complete_example :
    (◌≡◌ {A = List CommonPrefix} [] [])
    × (waiting all_over.crew.shared ≡ [])
    × Perm all_over.crew.found all_over.crew.taken
    × ((all_over.crew.found ≡ left_loop.crew.found)
        × (all_over.crew.taken ≡ left_loop.crew.taken)
        × (all_over.pushed ≡ left_loop.pushed))
    × (all_over.writing ≢ raised → Perm all_over.pushed (all_over.failed ++ all_over.file))
joins_complete_example =
    joins_complete mean factors no_json plain [] lists_root quits_loop few_waiting (omega arith)
      (after signals_both ends_all) over

join_returns_example :
    (0 ≤ steps_left signalled)
    × ((signalled.destructor ≡ returned)
        ⊎ ((t : Life whole) × Step mean factors no_json plain signalled t))
join_returns_example =
    join_returns mean factors no_json plain [] lists_root quits_loop few_waiting (omega arith)
      signals_both refl tt refl stop

-- The writer is still emptying the stack when its signal comes, which it can be.
abbrev missed : Life whole
missed = record signalled { writing = draining false }

misses_signal : Reaches new_life missed
unfolding new_life initial start worker_starts plus
misses_signal =
    next
      (next
        (next (next (next lists_root (leaves [] quits_loop)) (starts 0 refl refl))
          (cancels_scaling _ refl (abort refl refl refl) refl))
        (writes _ (expires refl refl refl) refl refl))
      (cancels_writing _ refl (lost refl (λ e. cc) refl) refl)

abbrev thrown_out : Life whole
thrown_out = record all_over { writing = raised }

ends_raised : Reaches missed thrown_out
unfolding worker_starts worker_stops get_next_prefix is_done drop_empty take_top plus minus new_life
    start
ends_raised =
    next
      (next
        (next
          (next
            (next
              (next
                (next here (
                  works [] [] seeking (some checking) _ [] [] [] refl
                    (miss refl refl refl refl refl) refl refl))
                (works [] [] checking (some leaving) _ [] [] [] refl
                  (finish refl refl refl refl refl refl) refl refl))
              (works [] [] leaving none _ [] [] [] refl (leave refl refl refl refl refl) refl refl))
            (writes _ (pop false (codes "a\n") [] refl refl refl refl) refl refl))
          (writes _ (writes_out false (codes "a\n") refl refl refl) refl refl))
        (writes _ (go_on refl refl refl refl) refl refl))
      (writes _ (break refl refl refl) refl refl)

over_raised : Joins thrown_out
over_raised = record {
  was_joining = refl;
  no_worker = refl;
  none_posted = refl;
  scaling_over = inl refl;
  writing_over = inr refl;
}

lost_signals_example :
    (Unaborted missed.writing → thrown_out.writing ≡ raised)
    × (missed.scaling ≢ stopped → thrown_out.scaling ≡ thrown)
lost_signals_example =
    lost_signals mean factors no_json plain {l = missed} {n = thrown_out} refl ends_raised
      over_raised

abbrev asleep : Scaler whole
asleep = record {
  phase = sleeping;
  previous_ops = 0;
  samples = [];
  metrics = start.metrics;
  posted = 0;
}

scaling_round-Acts_example :
    let r = scaling_round whole mean factors asleep.previous_ops asleep.samples asleep.metrics in
    Acts whole mean factors asleep (record {
      phase = sleeping;
      previous_ops = r.previous_ops;
      samples = r.samples;
      metrics = r.metrics;
      posted = r.to_spawn + asleep.posted;
    })
scaling_round-Acts_example = scaling_round-Acts whole mean factors asleep refl
