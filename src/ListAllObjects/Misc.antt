-- ===== src/ListAllObjects/Misc.antt =====
-- The types that workers and their manager share (misc.hpp), and the state that they share: the
-- queue, the counters and the stack of texts to be written, whose top is the head of the list.
use s3cpp.Prelude.{ℕ, List, Text}
use s3cpp.S3.Types.{CommonPrefix}

pub data OutputFormat : Type 0 where
  plain json : OutputFormat

pub data ListObjectsApiVersion : Type 0 where
  v1 v2 : ListObjectsApiVersion

pub record PrefixQueueEntry : Type 0 where
  pub depth : ℕ
  pub paths : List CommonPrefix

pub record Metrics : Type 0 where
  pub total_ops : ℕ
  pub total_queue_length : ℕ
  pub total_objects_found : ℕ
  pub active_workers : ℕ
  pub target_workers : ℕ

pub record Shared : Type 0 where
  pub metrics : Metrics
  pub prefix_queue : List PrefixQueueEntry
  pub write_stack : List Text

abbrev pub zero_metrics : Metrics
zero_metrics = record {
  total_ops = 0;
  total_queue_length = 0;
  total_objects_found = 0;
  active_workers = 0;
  target_workers = 0;
}
