-- ===== src/ListAllObjects/Manager/Scaling/Stall.antt =====
-- A crew with no worker left, prefixes queued and a target of ten is never started again.
use s3cpp.Prelude.{ℕ, zero, suc, ◌+◌, ◌<◌, ◌≡◌, refl, sym, subst, ◌≢◌, true, List, ◌∷◌, arith}
use s3cpp.Std.Decimal.{size_max}
use s3cpp.Std.SizeT.{minus}
use s3cpp.ListAllObjects.Misc.{Metrics}
use s3cpp.ListAllObjects.Manager.Scaling.{
  Double, ScalingFactors, max_size, calculate_desired_workers, retarget, scaling_round,
  scaling_rounds, Round,
}

abbrev pub zeros : ℕ → List ℕ → List ℕ
zeros zero samples = samples
zeros (suc n) samples = 0 ∷ zeros n samples

-- No worker runs, prefixes wait, and the target is ten.
pub record IsStranded (m : Metrics) : Type 0 where
  pub idle : m.active_workers ≡ 0
  pub queued : m.total_queue_length ≢ 0
  pub target : m.target_workers ≡ 10
  pub ops : m.total_ops < size_max

minus_self : (n : ℕ) → n < size_max → minus n n ≡ 0
unfolding minus
minus_self n h = omega arith

module _ (f : Double) where
  retarget-stranded :
      (config : ScalingFactors f) (m : Metrics) (rate : f.D)
      → IsStranded m
      → f.less rate f.one ≡ true
      → retarget f config m rate ≡ (m, 0)
  unfolding retarget calculate_desired_workers max_size
  retarget-stranded config m rate s slow = ground arith

  abbrev resting : Metrics → List ℕ → ℕ → Round f
  resting m samples spawns = record {
    metrics = m;
    previous_ops = m.total_ops;
    samples = samples;
    to_spawn = spawns;
  }

  abbrev Rests : (List ℕ → f.D) → ScalingFactors f → Metrics → ℕ → Round f → ℕ → Type 0
  Rests rolling_mean config m n r spawned =
      let behind = scaling_rounds f rolling_mean config n r spawned in
      (behind.0.metrics ≡ m) × (behind.1 ≡ 0)

  scaling_round-resting :
      (rolling_mean : List ℕ → f.D) (config : ScalingFactors f) (m : Metrics) (samples : List ℕ)
      → IsStranded m
      → f.less (rolling_mean (0 ∷ samples)) f.one ≡ true
      → scaling_round f rolling_mean config m.total_ops samples m ≡ resting m (0 ∷ samples) 0
  unfolding scaling_round
  scaling_round-resting rolling_mean config m samples s slow =
      rw (minus_self m.total_ops s.ops, retarget-stranded config m _ s slow)

  scaling_rounds-zeros :
      (rolling_mean : List ℕ → f.D) (config : ScalingFactors f) (m : Metrics) (samples : List ℕ)
      → IsStranded m
      → ((k : ℕ) → f.less (rolling_mean (zeros k samples)) f.one ≡ true)
      → (n k spawns : ℕ) → Rests rolling_mean config m n (resting m (zeros k samples) spawns) 0
  unfolding scaling_rounds
  scaling_rounds-zeros rolling_mean config m samples s slow zero k spawns = (refl, refl)
  scaling_rounds-zeros rolling_mean config m samples s slow (suc n) k spawns =
      subst (λ r. Rests rolling_mean config m n r (0 + r.to_spawn))
        (sym (scaling_round-resting rolling_mean config m (zeros k samples) s (slow (suc k))))
        (scaling_rounds-zeros rolling_mean config m samples s slow n (suc k) 0)

  -- With no worker running, prefixes queued, the target at ten and a rolling mean that stays below
  -- one operation a second while nothing happens, no number of rounds spawns a worker or changes
  -- a counter.
  pub scaling_rounds-stall :
      (rolling_mean : List ℕ → f.D) (config : ScalingFactors f) (m : Metrics) (samples : List ℕ)
      → IsStranded m
      → ((k : ℕ) → f.less (rolling_mean (zeros k samples)) f.one ≡ true)
      → (n : ℕ)
      → let r =
          scaling_rounds f rolling_mean config n
            (record { metrics = m; previous_ops = m.total_ops; samples = samples; to_spawn = 0 })
            0 in
        (r.0.metrics ≡ m) × (r.1 ≡ 0)
  scaling_rounds-stall rolling_mean config m samples s slow n =
      scaling_rounds-zeros rolling_mean config m samples s slow n 0 0
