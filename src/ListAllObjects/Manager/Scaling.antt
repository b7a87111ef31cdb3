-- ===== src/ListAllObjects/Manager/Scaling.antt =====
-- `WorkerManager::calculate_desired_workers` and one round of `scaling_worker`.
pub mod Stall
pub mod Floor
pub mod Steps
pub mod Rounds
use s3cpp.Prelude.{ℕ, zero, suc, ◌+◌, ◌-◌, Bool, List, ◌∷◌, ltb, ◌==◌, if◌then◌else◌}
use s3cpp.Std.SizeT.{minus}
use s3cpp.ListAllObjects.Misc.{Metrics}

-- `double`, its operations and the constants of the source. `ceil_to_size` is the conversion of
-- `std::ceil` of a value to `std::size_t`.
pub record Double : Type 1 where
  pub D : Type 0
  pub of_size : ℕ → D
  pub one : D
  pub one_and_half : D
  pub times : D → D → D
  pub larger : D → D → D
  pub less : D → D → Bool
  pub ceil_to_size : D → ℕ

unfoldable pub max_size : ℕ → ℕ → ℕ
max_size a b = if ltb a b then b else a

module _ (f : Double) where
  open f use {D, of_size, one, one_and_half, times, larger, less, ceil_to_size}

  -- `scaling_interval` is the period of the rounds and does not enter one.
  pub record ScalingFactors : Type 0 where
    pub scale_up_factor : D
    pub scale_down_factor : D

  unfoldable pub scaled : ScalingFactors → ℕ → D → ℕ
  scaled config current rate =
      if less (of_size current) rate
      then ceil_to_size (larger (times (of_size current) config.scale_up_factor) rate)
      else (if less (times rate one_and_half) (of_size current)
          then ceil_to_size (larger (times (of_size current) config.scale_down_factor) rate)
          else current)

  unfoldable pub calculate_desired_workers : ScalingFactors → Metrics → D → ℕ
  calculate_desired_workers config m rate =
      if less rate one
      then max_size m.active_workers 10
      else max_size (scaled config m.active_workers rate) 1

  -- What a round leaves behind: the metrics, the operations that it has seen, the samples of the
  -- rolling window and the number of workers to spawn.
  pub record Round : Type 0 where
    pub metrics : Metrics
    pub previous_ops : ℕ
    pub samples : List ℕ
    pub to_spawn : ℕ

  abbrev pub set_target : Metrics → ℕ → Metrics
  set_target m n = record m { target_workers = n }

  -- The round once the rate is known.
  pub retarget : ScalingFactors → Metrics → D → Metrics × ℕ
  retarget config m rate =
      if m.total_queue_length == 0
      then (set_target m m.active_workers, 0)
      else (let desired = calculate_desired_workers config m rate in
          if desired == m.target_workers then (m, 0) else (
            set_target m desired,
            (if ltb m.active_workers desired then desired - m.active_workers else 0),
          ))

  -- `rolling_mean` over the accumulator's samples, the newest first, is the library's.
  pub scaling_round : (List ℕ → D) → ScalingFactors → ℕ → List ℕ → Metrics → Round
  scaling_round rolling_mean config previous_ops samples m =
      let samples' = minus m.total_ops previous_ops ∷ samples in
      let next = retarget config m (rolling_mean samples') in
      record { metrics = next.0; previous_ops = m.total_ops; samples = samples'; to_spawn = next.1 }

  -- The loop of `scaling_worker`, over rounds between which nothing else happens, and the number of
  -- workers spawned so far.
  pub scaling_rounds : (List ℕ → D) → ScalingFactors → ℕ → Round → ℕ → Round × ℕ
  scaling_rounds rolling_mean config zero r spawned = (r, spawned)
  scaling_rounds rolling_mean config (suc n) r spawned =
      let next = scaling_round rolling_mean config r.previous_ops r.samples r.metrics in
      scaling_rounds rolling_mean config n next (spawned + next.to_spawn)
