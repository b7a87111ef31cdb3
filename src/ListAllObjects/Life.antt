-- ===== src/ListAllObjects/Life.antt =====
-- worker_manager.cpp: the life of a `WorkerManager`, from its constructor to the end of its
-- destructor: the crew, the coroutine that scales it, the coroutine that writes, and the
-- destructor, interleaved at their accesses of what they share.
pub mod Parts
pub mod Written
pub mod Closed
pub mod Complete
pub mod Lost
pub mod Left
pub mod Progress
pub mod Ends
use s3cpp.Prelude.{ℕ, suc, ◌≡◌, ◌⊎◌, List, [], ◌∷◌, ◌++◌, Option, Text}
use s3cpp.S3.Types.{Object, CommonPrefix}
use s3cpp.ListAllObjects.Misc.{OutputFormat, Shared}
use s3cpp.ListAllObjects.Manager.{worker_starts, keep_waiting, shut_down, poll}
use s3cpp.ListAllObjects.Manager.Scaling.{Double, ScalingFactors}
use s3cpp.ListAllObjects.Manager.Scaling.Steps.{
  ScalerPhase, starting as unstarted, ended as stopped, raised as thrown, Scaler, Scales,
}
use s3cpp.ListAllObjects.Manager.Writer.{
  WriterPhase, starting, ended, raised, Writer, own, signal, Step as Writes,
}
use s3cpp.ListAllObjects.Crew.{Phase, seeking, Crew, Act, acted, initial}

-- Where the destructor stands: in its loop, about to emit the first signal, about to emit the
-- second, joining the pool, or returned.
pub data Destructor : Type 0 where
  polling cancelling_scaling cancelling_writing joining returned : Destructor

-- `posted` counts the workers that wait for a thread of the pool. `file`, `failed` and `pushed` are
-- those of the writer.
pub record Life (f : Double) : Type 0 where
  pub crew : Crew
  pub posted : ℕ
  pub scaling : ScalerPhase f
  pub previous_ops : ℕ
  pub samples : List ℕ
  pub writing : WriterPhase
  pub file : List Text
  pub failed : List Text
  pub pushed : List Text
  pub destructor : Destructor

module _ {f : Double} where
  -- The two coroutines and what they share with the crew: the counters, and the stack.
  abbrev pub scaler_of : Life f → Scaler f
  scaler_of l = record {
    phase = l.scaling;
    previous_ops = l.previous_ops;
    samples = l.samples;
    metrics = l.crew.shared.metrics;
    posted = l.posted;
  }

  abbrev pub put_scaler : Scaler f → Life f → Life f
  put_scaler s l = record l {
    crew = record l.crew { shared = record l.crew.shared { metrics = s.metrics } };
    posted = s.posted;
    scaling = s.phase;
    previous_ops = s.previous_ops;
    samples = s.samples;
  }

  abbrev pub writer_of : Life f → Writer
  writer_of l = record {
    phase = l.writing;
    write_stack = l.crew.shared.write_stack;
    file = l.file;
    failed = l.failed;
    pushed = l.pushed;
  }

  abbrev pub put_writer : Writer → Life f → Life f
  put_writer w l = record l {
    crew = record l.crew { shared = record l.crew.shared { write_stack = w.write_stack } };
    writing = w.phase;
    file = w.file;
    failed = w.failed;
    pushed = w.pushed;
  }

  -- The destructor leaves its loop, and reports and drops what is left.
  pub record Leaves (l : Life f) (left : List CommonPrefix) (t : Life f) : Type 0 where
    pub was_polling : l.destructor ≡ polling
    pub answer : (poll l.crew.shared).0 ≡ shut_down left
    pub behind : t ≡ record l {
      crew = record l.crew { shared = (poll l.crew.shared).1; reported = left ++ l.crew.reported };
      destructor = cancelling_scaling;
    }

  -- Nothing is left to run in the pool, so `join` returns.
  pub record Joins (l : Life f) : Type 0 where
    pub was_joining : l.destructor ≡ joining
    pub no_worker : l.crew.workers ≡ []
    pub none_posted : l.posted ≡ 0
    pub scaling_over : (l.scaling ≡ stopped) ⊎ (l.scaling ≡ thrown)
    pub writing_over : (l.writing ≡ ended) ⊎ (l.writing ≡ raised)

-- What the constructor leaves: the two coroutines posted, and no worker.
unfoldable pub new_life : {f : Double} → Life f
new_life = record {
  crew = initial;
  posted = 0;
  scaling = unstarted;
  previous_ops = 0;
  samples = [];
  writing = starting;
  file = [];
  failed = [];
  pushed = [];
  destructor = polling;
}

module _ {f : Double} (rolling_mean : List ℕ → f.D) (config : ScalingFactors f)
    (serialize : Object → Text) (format : OutputFormat) where
  -- A worker makes an access and pushes the texts `new`; a posted worker starts; a coroutine makes
  -- a step of its own, the writing one pushing nothing; or the destructor goes on.
  pub data Step (l t : Life f) : Type 0 where
    works :
        (before after : List Phase) (w : Phase) (w' : Option Phase) (s' : Shared)
        (took found : List CommonPrefix) (new : List Text)
        → l.crew.workers ≡ before ++ w ∷ after
        → Act serialize format w l.crew.shared w' s' took found
        → s'.write_stack ≡ new ++ l.crew.shared.write_stack
        → t
          ≡ record l { crew = acted l.crew before after w' s' took found; pushed = new ++ l.pushed }
        → Step l t
    starts :
        (n : ℕ)
        → l.posted ≡ suc n
        → t ≡ record l {
          crew = record l.crew {
            shared = worker_starts l.crew.shared;
            workers = seeking ∷ l.crew.workers;
          };
          posted = n;
        }
        → Step l t
    scales :
        (s : Scaler f)
        → Scales f rolling_mean config own (scaler_of l) s
        → t ≡ put_scaler s l
        → Step l t
    writes :
        (w : Writer)
        → Writes own (writer_of l) w
        → w.pushed ≡ l.pushed
        → t ≡ put_writer w l
        → Step l t
    waits :
        l.destructor ≡ polling
        → (poll l.crew.shared).0 ≡ keep_waiting
        → t ≡ record l { crew = record l.crew { shared = (poll l.crew.shared).1 } }
        → Step l t
    leaves : (left : List CommonPrefix) → Leaves l left t → Step l t
    cancels_scaling :
        (s : Scaler f)
        → l.destructor ≡ cancelling_scaling
        → Scales f rolling_mean config signal (scaler_of l) s
        → t ≡ record (put_scaler s l) { destructor = cancelling_writing }
        → Step l t
    cancels_writing :
        (w : Writer)
        → l.destructor ≡ cancelling_writing
        → Writes signal (writer_of l) w
        → t ≡ record (put_writer w l) { destructor = joining }
        → Step l t
    joins : Joins l → t ≡ record l { destructor = returned } → Step l t

  pub data Reach (l : Life f) : Life f → Type 0 where
    here : Reach l l
    next : {t u : Life f} → Reach l t → Step t u → Reach l u
