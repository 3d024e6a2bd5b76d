-- ===== src/ScanAggregator/Types.antt =====
-- The records, the state and the result of an aggregation.
use trekker.Prelude.{ℕ, Bool, Option, List}
use trekker.Text.{Text}

pub data EntryKind : Type 0 where
  directory file other : EntryKind

pub record AggregatedEntry : Type 0 where
  pub path : Text
  pub bytes : ℕ
  pub parent_path : Text
  pub depth : ℕ
  pub kind : EntryKind

pub record LargestFile : Type 0 where
  pub path : Text
  pub bytes : ℕ

pub record DuplicateCandidate : Type 0 where
  pub bytes : ℕ
  pub paths : List Text

pub record Parent : Type 0 where
  pub bytes : ℕ
  pub depth : ℕ
  pub top : List AggregatedEntry

pub record AggregatorOptions : Type 0 where
  pub root : Text
  pub depth : ℕ
  pub has_time : Bool
  pub has_files : Bool
  pub now : ℕ

pub record DuRecord : Type 0 where
  pub bytes : ℕ
  pub mtime_ms : Option ℕ
  pub path : Text

pub record Aggregator : Type 0 where
  pub parents : List (Text × Parent)
  pub previous_path : Option Text
  pub root_bytes : Option ℕ
  pub inodes : ℕ
  pub truncated : Bool
  pub largest : Option LargestFile
  pub old_file_count : ℕ
  pub old_file_bytes : ℕ
  pub by_size : List (ℕ × List Text)
  pub duplicates_dropped : ℕ

pub record AggregateResult : Type 0 where
  pub total_bytes : Option ℕ
  pub inodes : Option ℕ
  pub entries : List AggregatedEntry
  pub largest : Option LargestFile
  pub old_file_count : ℕ
  pub old_file_bytes : ℕ
  pub duplicate_candidates : List DuplicateCandidate
  pub duplicates_dropped : ℕ
  pub truncated : Bool
