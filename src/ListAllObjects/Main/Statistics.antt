-- ===== src/ListAllObjects/Main/Statistics.antt =====
-- list_all_objects.cpp: the thread that prints statistics once a second. A counter is read at
-- single moments, so each reading is a value of its own; the rolling mean, over the newest sample
-- first, is the library's.
use s3cpp.Prelude.{ℕ, List, [], ◌∷◌}
use s3cpp.Std.SizeT.{minus}
use s3cpp.ListAllObjects.Misc.{Metrics}

-- What one round reads: before its second of sleep, after it, and for the line that it prints.
pub record Readings : Type 0 where
  pub before : Metrics
  pub after : Metrics
  pub shown : Metrics

pub record Samples : Type 0 where
  pub objects : List ℕ
  pub ops : List ℕ

pub record Line (D : Type 0) : Type 0 where
  pub active_workers : ℕ
  pub queued_ops : ℕ
  pub total_ops : ℕ
  pub total_objects : ℕ
  pub objects_rate : D
  pub ops_rate : D

unfoldable pub take_samples : Readings → Samples → Samples
take_samples r s = record {
  objects = minus r.after.total_objects_found r.before.total_objects_found ∷ s.objects;
  ops = minus r.after.total_ops r.before.total_ops ∷ s.ops;
}

module _ {D : Type 0} (rolling_mean : List ℕ → D) where
  unfoldable pub print_line : Metrics → Samples → Line D
  print_line m s = record {
    active_workers = m.active_workers;
    queued_ops = m.total_queue_length;
    total_ops = m.total_ops;
    total_objects = m.total_objects_found;
    objects_rate = rolling_mean s.objects;
    ops_rate = rolling_mean s.ops;
  }

  -- The rounds until a stop is requested, with the samples taken so far: the lines printed, in
  -- order.
  unfoldable pub print_statistics : List Readings → Samples → List (Line D) × Samples
  print_statistics [] s = ([], s)
  print_statistics (r ∷ rs) s =
      let samples = take_samples r s in
      let rest = print_statistics rs samples in (print_line r.shown samples ∷ rest.0, rest.1)

abbrev pub no_samples : Samples
no_samples = record { objects = []; ops = [] }
