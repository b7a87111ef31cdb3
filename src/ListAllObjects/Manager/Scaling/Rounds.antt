-- ===== src/ListAllObjects/Manager/Scaling/Rounds.antt =====
-- A round of `scaling_worker` with nothing between its accesses.
use s3cpp.ListAllObjects.Manager.Writer.{own}
use s3cpp.ListAllObjects.Misc.{Metrics}
use s3cpp.ListAllObjects.Manager.Scaling.Steps.{
  count, change, differ, keep, decide, see_some, align, read_active, see_none, lacking, post,
  settle, sample, Scales, elapse, sampled, still, waiting, posting, Acts, acts, Scaler,
}
use s3cpp.ListAllObjects.Manager.Scaling.{
  minus, set_target, calculate_desired_workers, retarget, Round, scaling_round, ScalingFactors,
  Double,
}
use s3cpp.Prelude.{inr, ◌∷◌, ◌≢◌, sym, subst, ◌⊎◌, inl, ℕ, zero, suc, ◌+◌, ◌≡◌, refl, List, arith}

module _ (f : Double) (rolling_mean : List ℕ → f.D) (config : ScalingFactors f) where
  abbrev Runs : Scaler f → Scaler f → Type 0
  Runs = Acts f rolling_mean config

  Runs-trans : {s t u : Scaler f} → Runs s t → Runs t u → Runs s u
  Runs-trans r still = r
  Runs-trans r (acts q x) = acts (Runs-trans r q) x

  then : {s t u : Scaler f} → Scales f rolling_mean config own s t → Runs t u → Runs s u
  then x r = Runs-trans (acts still x) r

  -- All workers that are lacking are posted.
  posts :
      (k n : ℕ) (s : Scaler f)
      → s.phase ≡ posting k
      → n ≡ k + s.posted
      → Runs s (record s { phase = waiting; posted = n })
  posts zero n s e same =
      subst (λ n. Runs s (record s { phase = waiting; posted = n })) (omega arith)
        (acts still (settle refl e refl))
  posts (suc k) n s e same =
      then (post k refl e refl)
        (posts k n (record s { phase = posting k; posted = suc s.posted }) refl (omega arith))

  -- What `retarget` gives, by the tests that it makes.
  retarget-cases :
      (m : Metrics) (rate : f.D)
      → let desired = calculate_desired_workers f config m rate in
        ((m.total_queue_length ≡ 0)
          × (retarget f config m rate ≡ (set_target f m m.active_workers, 0)))
        ⊎ (((m.total_queue_length ≢ 0)
              × (desired ≡ m.target_workers)
              × (retarget f config m rate ≡ (m, 0)))
            ⊎ ((m.total_queue_length ≢ 0)
                × (desired ≢ m.target_workers)
                × (retarget f config m rate
                    ≡ (set_target f m desired, lacking f m.active_workers desired))))
  unfolding retarget
  retarget-cases m rate = ground arith

  -- The coroutine after a round that retargets to `r`.
  abbrev settled : Scaler f → Metrics × ℕ → Scaler f
  settled s r = record s { phase = waiting; metrics = r.0; posted = r.1 + s.posted }

  none_posted :
      (s : Scaler f) (m : Metrics)
      → Runs s (record s { phase = waiting; metrics = m })
      → Runs s (settled s (m, 0))
  none_posted s m =
      subst (λ n. Runs s (record s { phase = waiting; metrics = m; posted = n })) (omega arith)

  retargets :
      (rate : f.D) (s : Scaler f)
      → s.phase ≡ sampled rate
      → Runs s (settled s (retarget f config s.metrics rate))
  retargets rate s e = elim (retarget-cases s.metrics rate) [
    | inl (none_queued, r) ↦
        subst (λ r. Runs s (settled s r)) (sym r)
          (none_posted s _ (
            then (see_none rate refl e none_queued refl) (
              then (read_active refl refl refl)
                (then (align s.metrics.active_workers refl refl refl) still))))
    | inr (inl (queued, same, r)) ↦
        subst (λ r. Runs s (settled s r)) (sym r)
          (none_posted s _ (
            then (see_some rate refl e queued refl)
              (then (decide rate refl refl refl) (then (keep _ refl refl same refl) still))))
    | inr (inr (queued, differs, r)) ↦
        subst (λ r. Runs s (settled s r)) (sym r)
          (then (see_some rate refl e queued refl) (
            then (decide rate refl refl refl) (
              then (differ _ refl refl differs refl) (
                then (change _ refl refl refl)
                  (then (count _ refl refl refl) (posts _ _ _ refl refl))))))
  ]

  -- The round of a coroutine that finds `m` in the counters.
  abbrev round_of : Metrics → Scaler f → Round f
  round_of m s = scaling_round f rolling_mean config s.previous_ops s.samples m

  -- From a wait that elapses, the accesses of one round, if nothing comes between them, are the
  -- function `scaling_round`: they leave its metrics, its samples and its count of operations, and
  -- have posted as many workers as it asks for.
  pub scaling_round-Acts :
      (s : Scaler f)
      → s.phase ≡ waiting
      → let r = round_of s.metrics s in
        Acts f rolling_mean config s (record {
          phase = waiting;
          previous_ops = r.previous_ops;
          samples = r.samples;
          metrics = r.metrics;
          posted = r.to_spawn + s.posted;
        })
  unfolding scaling_round
  scaling_round-Acts s e = then (elapse refl e refl) (
      then (sample _ refl refl refl refl)
        (retargets (rolling_mean (minus s.metrics.total_ops s.previous_ops ∷ s.samples)) _ refl))
