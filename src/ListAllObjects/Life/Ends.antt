-- ===== src/ListAllObjects/Life/Ends.antt =====
-- The runs of a manager whose destructor joins the pool.
use s3cpp.ListAllObjects.Life.Progress.{joins_on, writes_on, works_on, GoesOn}
use s3cpp.ListAllObjects.Life.Left.{
  is_over, writer-shortens, no_own_step, destructor_left, Aborted, writer_left, Over, steps_left,
}
use s3cpp.ListAllObjects.Manager.{worker_starts}
use s3cpp.Prelude.{
  ℕ, zero, suc, ◌+◌, ◌≤◌, ◌<◌, ◌≡◌, ◌⊎◌, inl, inr, refl, ap, sym, subst, List, [], ◌∷◌, ◌++◌, arith,
  length, Text, All, All-parts,
}
use s3cpp.Std.Decimal.{size_max}
use s3cpp.S3.Types.{Object, CommonPrefix}
use s3cpp.ListAllObjects.Misc.{OutputFormat, Shared}
use s3cpp.ListAllObjects.Worker.Accounting.{waiting}
use s3cpp.ListAllObjects.Manager.Scaling.{ScalingFactors, Double}
use s3cpp.ListAllObjects.Crew.{acted, Phase, Act, to_list}
use s3cpp.ListAllObjects.Crew.Idle.{Idle, idle-Rests}
use s3cpp.ListAllObjects.Crew.Ends.{all_left, all_left-append, Act-shortens}
use s3cpp.ListAllObjects.Life.{
  Option, Life, Leaves, new_life, Step, Reach, works, starts, scales, writes, waits, leaves,
  cancels_scaling, cancels_writing, joins, joining, returned,
}
use s3cpp.ListAllObjects.Life.Closed.{Closed, Step-Closed, Reach-Closed}
use s3cpp.ListAllObjects.Life.Complete.{Leaves-Closed}
use s3cpp.ListAllObjects.Life.Lost.{After, Step-Quiet}

-- What holds of a life at its end: the loop has ended at `m`, and the coroutines were reached.
record Ending {f : Double} (m l : Life f) : Type 0 where
  closed : Closed m l
  after : After l.destructor
  scaling_over : Over l.scaling
  aborted : Aborted l.writing

module _ {f : Double} (rolling_mean : List ℕ → f.D) (config : ScalingFactors f)
    (serialize : Object → Text) (format : OutputFormat) where
  -- `k` steps, one after the other.
  pub data Run (l : Life f) : ℕ → Life f → Type 0 where
    stop : Run l 0 l
    go :
        {k : ℕ} {t u : Life f}
        → Run l k t
        → Step rolling_mean config serialize format t u
        → Run l (suc k) u

  works-shortens :
      (m l : Life f) (before after : List Phase) (w : Phase) (w' : Option Phase) (s' : Shared)
      (took found : List CommonPrefix) (new : List Text)
      → l.crew.workers ≡ before ++ w ∷ after
      → Act serialize format w l.crew.shared w' s' took found
      → Closed m l
      → steps_left
          (record l { crew = acted l.crew before after w' s' took found; pushed = new ++ l.pushed })
        < steps_left l
  unfolding steps_left all_left
  works-shortens m l before after w w' s' took found new e a c =
      let idle = (All-parts Idle before (w ∷ after) (subst (All Idle) e c.idle)).1.0 in
      let r = idle-Rests a idle c.inv.valid c.none_waiting in
      let shorter = Act-shortens a idle c.inv.valid c.none_waiting in
      omega (
        arith,
        shorter,
        ap all_left e,
        all_left-append before (w ∷ after),
        all_left-append before (to_list w' ++ after),
        all_left-append (to_list w') after,
        ap (λ ts. writer_left l.writing (length ts)) r.same_stack,
      )

  Step-shortens :
      {m l t : Life f}
      → Step rolling_mean config serialize format l t
      → Ending m l
      → (steps_left t < steps_left l) × Over t.scaling × Aborted t.writing
  unfolding steps_left all_left worker_starts destructor_left
  Step-shortens {m} {l} (works before after w w' s' took found new e a _ h) x = rw h (
    works-shortens m l before after w w' s' took found new e a x.closed,
    x.scaling_over,
    x.aborted,
  )
  Step-shortens {m} {l} (starts n e h) x = rw h (omega arith, x.scaling_over, x.aborted)
  Step-shortens (scales _ y _) x = absurd (no_own_step y refl x.scaling_over)
  Step-shortens (writes _ y same h) x =
      let (shorter, aborted) = writer-shortens y refl same x.aborted in
      rw h (omega arith, x.scaling_over, aborted)
  Step-shortens (waits e _ _) x = absurd (subst After e x.after)
  Step-shortens (leaves _ y) x = absurd (subst After y.was_polling x.after)
  Step-shortens (cancels_scaling _ e _ _) x = absurd (subst After e x.after)
  Step-shortens (cancels_writing _ e _ _) x = absurd (subst After e x.after)
  Step-shortens (joins j h) x = rw (h, j.was_joining) (omega arith, x.scaling_over, x.aborted)

  Step-Ending :
      {m l t : Life f} → Step rolling_mean config serialize format l t → Ending m l → Ending m t
  Step-Ending step x =
      let (_, scaling_over, aborted) = Step-shortens step x in
      record {
        closed = Step-Closed serialize format rolling_mean config step x.closed;
        after = (Step-Quiet rolling_mean config serialize format step x.after).0;
        scaling_over = scaling_over;
        aborted = aborted;
      }

  Run-shortens :
      {m l t : Life f} {k : ℕ}
      → Run l k t
      → Ending m l
      → (k + steps_left t ≤ steps_left l) × Ending m t
  Run-shortens stop x = (omega arith, x)
  Run-shortens (go r step) x =
      let (bound, y) = Run-shortens r x in
      let (shorter, _, _) = Step-shortens step y in (omega arith, Step-Ending step y)

  -- Until the destructor returns, something can happen.
  Ending-GoesOn :
      (m l : Life f) (ws : List Phase) (n : ℕ)
      → l.crew.workers ≡ ws
      → l.posted ≡ n
      → Ending m l
      → (l.destructor ≡ returned) ⊎ GoesOn rolling_mean config serialize format l
  Ending-GoesOn m l (w ∷ ws) n e p x =
      inr (works_on rolling_mean config serialize format m l w ws e x.closed)
  Ending-GoesOn m l [] (suc n) e p x = inr (_, starts n p refl)
  Ending-GoesOn m l [] zero e p x =
      elim (writes_on rolling_mean config serialize format l l.writing refl x.aborted) [
        | inl on ↦ inr on
        | inr over ↦ joins_on rolling_mean config serialize format l l.destructor refl x.after (λ j.
            (
              _,
              joins
                  (record {
                    was_joining = j;
                    no_worker = e;
                    none_posted = p;
                    scaling_over = is_over l.scaling x.scaling_over;
                    writing_over = over;
                  })
                  refl,
            ))
      ]

  -- In the life of a manager, the destructor leaves its loop at `l` for `m` with fewer than 2 ^ 64
  -- prefixes waiting and fewer than 2 ^ 64 workers, and joins the pool at `n`, where the scaling
  -- coroutine is over, and the writer is over or the signal has reached it. Then a run of steps from
  -- `n` has at most `steps_left n` of them, and as long as the destructor has not returned, a step is
  -- possible: the join returns.
  pub join_returns :
      {l m n u : Life f} {k : ℕ} (left : List CommonPrefix)
      → Reach rolling_mean config serialize format new_life l
      → Leaves l left m
      → length (waiting l.crew.shared) < size_max
      → length l.crew.workers < size_max
      → Reach rolling_mean config serialize format m n
      → n.destructor ≡ joining
      → Over n.scaling
      → Aborted n.writing
      → Run n k u
      → (k ≤ steps_left n)
        × ((u.destructor ≡ returned) ⊎ GoesOn rolling_mean config serialize format u)
  join_returns {m = m} {n = n} {u = u} left r x few_paths few_workers q j over aborted run =
      let (_, _, closed) =
        Leaves-Closed rolling_mean config serialize format left r x few_paths few_workers in
      let ending : Ending m n = record {
        closed = Reach-Closed serialize format rolling_mean config q closed;
        after = subst After (sym j) tt;
        scaling_over = over;
        aborted = aborted;
      } in
      let (bound, end) = Run-shortens run ending in
      (omega arith, Ending-GoesOn m u u.crew.workers u.posted refl refl end)
