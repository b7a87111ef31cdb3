-- ===== src/ListAllObjects/Manager/Scaling/Steps.antt =====
-- worker_manager.cpp: the coroutine that scales the crew, at single accesses of the counters. The
-- signal that the destructor emits reaches it only while it waits for its timer.
use s3cpp.Prelude.{ℕ, suc, ◌-◌, ◌≡◌, ◌≢◌, List, ◌∷◌, ltb, if◌then◌else◌}
use s3cpp.Std.SizeT.{minus}
use s3cpp.ListAllObjects.Misc.{Metrics}
use s3cpp.ListAllObjects.Manager.Writer.{Event, own, signal}
use s3cpp.ListAllObjects.Manager.Scaling.{
  Double, ScalingFactors, calculate_desired_workers, set_target,
}

module _ (f : Double) where
  open f use {D}

  -- Where the coroutine stands: posted to the pool; waiting for the timer; woken; holding the rate,
  -- about to read `total_queue_length`; with none queued, about to read `active_workers` and then
  -- to store what it read as the target; else about to ask how many workers are wanted; holding
  -- that number, about to compare it with the target, to store it as the target, and to read
  -- `active_workers`; posting as many workers; ended; or ended by an exception.
  pub data ScalerPhase : Type 0 where
    starting waiting woken : ScalerPhase
    sampled : D → ScalerPhase
    idling : ScalerPhase
    idled : ℕ → ScalerPhase
    deciding : D → ScalerPhase
    wanting changing counting : ℕ → ScalerPhase
    posting : ℕ → ScalerPhase
    ended raised : ScalerPhase

  -- `posted` counts the workers that were given to the pool and have not started.
  pub record Scaler : Type 0 where
    pub phase : ScalerPhase
    pub previous_ops : ℕ
    pub samples : List ℕ
    pub metrics : Metrics
    pub posted : ℕ

  abbrev pub lacking : ℕ → ℕ → ℕ
  lacking active desired = if ltb active desired then desired - active else 0

  -- The coroutine's own steps, and the signal.
  pub data Scales (rolling_mean : List ℕ → D) (config : ScalingFactors f) (e : Event) (s t : Scaler)
      : Type 0 where
    begin :
        e ≡ own
        → s.phase ≡ starting
        → t ≡ record s { phase = waiting }
        → Scales rolling_mean config e s t
    elapse :
        e ≡ own
        → s.phase ≡ waiting
        → t ≡ record s { phase = woken }
        → Scales rolling_mean config e s t
    break :
        e ≡ own
        → s.phase ≡ waiting
        → t ≡ record s { phase = raised }
        → Scales rolling_mean config e s t
    sample :
        (samples : List ℕ)
        → e ≡ own
        → s.phase ≡ woken
        → samples ≡ minus s.metrics.total_ops s.previous_ops ∷ s.samples
        → t ≡ record s {
          phase = sampled (rolling_mean samples);
          previous_ops = s.metrics.total_ops;
          samples = samples;
        }
        → Scales rolling_mean config e s t
    see_none :
        (rate : D)
        → e ≡ own
        → s.phase ≡ sampled rate
        → s.metrics.total_queue_length ≡ 0
        → t ≡ record s { phase = idling }
        → Scales rolling_mean config e s t
    see_some :
        (rate : D)
        → e ≡ own
        → s.phase ≡ sampled rate
        → s.metrics.total_queue_length ≢ 0
        → t ≡ record s { phase = deciding rate }
        → Scales rolling_mean config e s t
    read_active :
        e ≡ own
        → s.phase ≡ idling
        → t ≡ record s { phase = idled s.metrics.active_workers }
        → Scales rolling_mean config e s t
    align :
        (n : ℕ)
        → e ≡ own
        → s.phase ≡ idled n
        → t ≡ record s { phase = waiting; metrics = set_target f s.metrics n }
        → Scales rolling_mean config e s t
    decide :
        (rate : D)
        → e ≡ own
        → s.phase ≡ deciding rate
        → t ≡ record s { phase = wanting (calculate_desired_workers f config s.metrics rate) }
        → Scales rolling_mean config e s t
    keep :
        (n : ℕ)
        → e ≡ own
        → s.phase ≡ wanting n
        → n ≡ s.metrics.target_workers
        → t ≡ record s { phase = waiting }
        → Scales rolling_mean config e s t
    differ :
        (n : ℕ)
        → e ≡ own
        → s.phase ≡ wanting n
        → n ≢ s.metrics.target_workers
        → t ≡ record s { phase = changing n }
        → Scales rolling_mean config e s t
    change :
        (n : ℕ)
        → e ≡ own
        → s.phase ≡ changing n
        → t ≡ record s { phase = counting n; metrics = set_target f s.metrics n }
        → Scales rolling_mean config e s t
    count :
        (n : ℕ)
        → e ≡ own
        → s.phase ≡ counting n
        → t ≡ record s { phase = posting (lacking s.metrics.active_workers n) }
        → Scales rolling_mean config e s t
    post :
        (k : ℕ)
        → e ≡ own
        → s.phase ≡ posting (suc k)
        → t ≡ record s { phase = posting k; posted = suc s.posted }
        → Scales rolling_mean config e s t
    settle :
        e ≡ own
        → s.phase ≡ posting 0
        → t ≡ record s { phase = waiting }
        → Scales rolling_mean config e s t
    abort :
        e ≡ signal
        → s.phase ≡ waiting
        → t ≡ record s { phase = ended }
        → Scales rolling_mean config e s t
    miss : e ≡ signal → s.phase ≢ waiting → t ≡ s → Scales rolling_mean config e s t

  -- Own steps, one after the other.
  pub data Acts (rolling_mean : List ℕ → D) (config : ScalingFactors f) (s : Scaler)
      : Scaler → Type 0 where
    still : Acts rolling_mean config s s
    acts :
        {t u : Scaler}
        → Acts rolling_mean config s t
        → Scales rolling_mean config own t u
        → Acts rolling_mean config s u
