-- ===== src/ListAllObjects/Life/Parts.antt =====
-- The crew and the writer of a manager are those of the modules about them.
use s3cpp.ListAllObjects.Manager.Scaling.{set_target}
use s3cpp.ListAllObjects.Misc.{Metrics}
use s3cpp.Prelude.{subst, ℕ, ◌≡◌, refl, ap, sym, ◌⊎◌, inl, inr, List, ◌∷◌, ◌++◌, Text}
use s3cpp.ListAllObjects.Crew.{
  polls, retargets, left_behind, pops, spawns, acts, Crew, Step as CrewStep, Reach as CrewReach,
  here as still, next as then,
}
use s3cpp.ListAllObjects.Manager.Writer.{Event}
use s3cpp.ListAllObjects.Manager.{shut_down, keep_waiting, poll, Poll}
use s3cpp.S3.Types.{Object}
use s3cpp.ListAllObjects.Misc.{OutputFormat}
use s3cpp.ListAllObjects.Manager.Scaling.{ScalingFactors, Double}
use s3cpp.ListAllObjects.Manager.Scaling.Steps.{
  begin, elapse, break, sample, see_none, see_some, read_active, align, decide, keep, differ,
  change, count, post, settle, abort, miss, Scales, Scaler,
}
use s3cpp.ListAllObjects.Manager.Writer.Drains.{Step-Drains, signal-pushed}
use s3cpp.ListAllObjects.Life.{
  Life, Step, Reach, here, next, works, starts, scales, writes, waits, leaves, cancels_scaling,
  cancels_writing, joins,
}

-- All that the scaling coroutine changes in the counters is the target.
module _ {f : Double} {rolling_mean : List ℕ → f.D} {config : ScalingFactors f} where
  Scales-metrics :
      {e : Event} {s t : Scaler f}
      → Scales f rolling_mean config e s t
      → (n : ℕ) × (t.metrics ≡ set_target f s.metrics n)
  Scales-metrics {s} (begin _ _ e) = (s.metrics.target_workers, ap (λ s. s.metrics) e)
  Scales-metrics {s} (elapse _ _ e) = (s.metrics.target_workers, ap (λ s. s.metrics) e)
  Scales-metrics {s} (break _ _ e) = (s.metrics.target_workers, ap (λ s. s.metrics) e)
  Scales-metrics {s} (sample _ _ _ _ e) = (s.metrics.target_workers, ap (λ s. s.metrics) e)
  Scales-metrics {s} (see_none _ _ _ _ e) = (s.metrics.target_workers, ap (λ s. s.metrics) e)
  Scales-metrics {s} (see_some _ _ _ _ e) = (s.metrics.target_workers, ap (λ s. s.metrics) e)
  Scales-metrics {s} (read_active _ _ e) = (s.metrics.target_workers, ap (λ s. s.metrics) e)
  Scales-metrics (align n _ _ e) = (n, ap (λ s. s.metrics) e)
  Scales-metrics {s} (decide _ _ _ e) = (s.metrics.target_workers, ap (λ s. s.metrics) e)
  Scales-metrics {s} (keep _ _ _ _ e) = (s.metrics.target_workers, ap (λ s. s.metrics) e)
  Scales-metrics {s} (differ _ _ _ _ e) = (s.metrics.target_workers, ap (λ s. s.metrics) e)
  Scales-metrics (change n _ _ e) = (n, ap (λ s. s.metrics) e)
  Scales-metrics {s} (count _ _ _ e) = (s.metrics.target_workers, ap (λ s. s.metrics) e)
  Scales-metrics {s} (post _ _ _ e) = (s.metrics.target_workers, ap (λ s. s.metrics) e)
  Scales-metrics {s} (settle _ _ e) = (s.metrics.target_workers, ap (λ s. s.metrics) e)
  Scales-metrics {s} (abort _ _ e) = (s.metrics.target_workers, ap (λ s. s.metrics) e)
  Scales-metrics {s} (miss _ _ e) = (s.metrics.target_workers, ap (λ s. s.metrics) e)

module _ (serialize : Object → Text) (format : OutputFormat) where
  CrewReach-trans :
      {c d e : Crew}
      → CrewReach serialize format c d
      → CrewReach serialize format d e
      → CrewReach serialize format c e
  CrewReach-trans r still = r
  CrewReach-trans r (then q s) = then (CrewReach-trans r q) s

  module _ {f : Double} (rolling_mean : List ℕ → f.D) (config : ScalingFactors f) where
    retargets-crew :
        (c : Crew) (m : Metrics) (n : ℕ)
        → m ≡ set_target f c.shared.metrics n
        → CrewStep serialize format c (record c { shared = record c.shared { metrics = m } })
    retargets-crew c m n e =
        retargets n (ap (λ m. record c { shared = record c.shared { metrics = m } }) e)

    drains-crew :
        (c : Crew) (ts : List Text)
        → (ts ≡ c.shared.write_stack) ⊎ ((text : Text) × (c.shared.write_stack ≡ text ∷ ts))
        → CrewReach serialize format c (record c { shared = record c.shared { write_stack = ts } })
    drains-crew c ts (inl e) =
        subst
          (λ ts.
            CrewReach serialize format c
              (record c { shared = record c.shared { write_stack = ts } }))
          (sym e) still
    drains-crew c ts (inr (text, e)) = then still (pops text ts e refl)

    polls-crew :
        (c : Crew) (answer : Poll)
        → (poll c.shared).0 ≡ answer
        → CrewStep serialize format c
            (record c { shared = (poll c.shared).1; reported = left_behind answer ++ c.reported })
    polls-crew c answer e = polls answer (poll c.shared).1 (ap (λ a. (a, (poll c.shared).1)) e) refl

    -- What the manager does to its crew are steps of a crew.
    pub Step-crew :
        {l t : Life f}
        → Step rolling_mean config serialize format l t
        → CrewReach serialize format l.crew t.crew
    Step-crew {l} (works before after w w' s' took found new e a _ h) =
        rw h (then still (acts before after w w' s' took found e a refl))
    Step-crew {l} (starts n e h) = rw h (then still (spawns refl))
    Step-crew {l} (scales s x h) =
        let (n, m) = Scales-metrics x in rw h (then still (retargets-crew l.crew s.metrics n m))
    Step-crew {l} (writes w x same h) = rw h (drains-crew l.crew w.write_stack (Step-Drains x same))
    Step-crew {l} (waits _ e h) = rw h (then still (polls-crew l.crew keep_waiting e))
    Step-crew {l} (leaves left x) =
        rw x.behind (then still (polls-crew l.crew (shut_down left) x.answer))
    Step-crew {l} (cancels_scaling s _ x h) =
        let (n, m) = Scales-metrics x in rw h (then still (retargets-crew l.crew s.metrics n m))
    Step-crew {l} (cancels_writing w _ x h) =
        rw h (drains-crew l.crew w.write_stack (Step-Drains x (signal-pushed x refl)))
    Step-crew {l} (joins _ h) = rw h still

    pub Reach-crew :
        {l t : Life f}
        → Reach rolling_mean config serialize format l t
        → CrewReach serialize format l.crew t.crew
    Reach-crew here = still
    Reach-crew (next r s) = CrewReach-trans (Reach-crew r) (Step-crew s)
