-- ===== src/ListAllObjects/Manager/Scaling/Floor.antt =====
-- How many workers a round of scaling asks for.
use s3cpp.Prelude.{ℕ, ◌+◌, ◌≤◌, ◌≡◌, ◌≢◌, ◌⊎◌, false, List, arith}
use s3cpp.ListAllObjects.Misc.{Metrics}
use s3cpp.ListAllObjects.Manager.Scaling.{
  Double, ScalingFactors, max_size, calculate_desired_workers, retarget, scaling_round,
}

module _ (f : Double) where
  -- At least one worker is wanted, and while the rate is below one operation a second at least ten
  -- and no fewer than are running.
  pub calculate_desired_workers_bounds :
      (config : ScalingFactors f) (m : Metrics) (rate : f.D)
      → (1 ≤ calculate_desired_workers f config m rate)
        × ((f.less rate f.one ≡ false)
            ⊎ ((10 ≤ calculate_desired_workers f config m rate)
                × (m.active_workers ≤ calculate_desired_workers f config m rate)))
  unfolding calculate_desired_workers max_size
  calculate_desired_workers_bounds config m rate = ground arith

  retarget-targets :
      (config : ScalingFactors f) (m : Metrics) (rate : f.D)
      → let r = retarget f config m rate in
        ((m.total_queue_length ≡ 0) × (r.1 ≡ 0) × (r.0.target_workers ≡ m.active_workers))
        ⊎ ((m.total_queue_length ≢ 0)
            × (1 ≤ r.0.target_workers)
            × ((r.1 ≡ 0) ⊎ (m.active_workers + r.1 ≡ r.0.target_workers)))
  unfolding retarget
  retarget-targets config m rate = ground (arith, calculate_desired_workers_bounds config m rate)

  -- While no prefix is queued, a round spawns no worker and the target is what runs. Else the
  -- target is at least one, and the round spawns none or as many as the target lacks.
  pub scaling_round_targets :
      (rolling_mean : List ℕ → f.D) (config : ScalingFactors f) (previous_ops : ℕ)
      (samples : List ℕ) (m : Metrics)
      → let r = scaling_round f rolling_mean config previous_ops samples m in
        ((m.total_queue_length ≡ 0)
          × (r.to_spawn ≡ 0)
          × (r.metrics.target_workers ≡ m.active_workers))
        ⊎ ((m.total_queue_length ≢ 0)
            × (1 ≤ r.metrics.target_workers)
            × ((r.to_spawn ≡ 0) ⊎ (m.active_workers + r.to_spawn ≡ r.metrics.target_workers)))
  unfolding scaling_round
  scaling_round_targets rolling_mean config previous_ops samples m = retarget-targets config m _
