-- ===== src/CompareTree/Types.antt =====
-- The entries, verdicts and state of a comparison.
use trekker.Prelude.{ℕ, Bool, Option, List}
use trekker.Text.{Text}

pub data FileKind : Type 0 where
  file directory symlink block character fifo socket unknown : FileKind

pub data Verdict : Type 0 where
  only_a only_b differs identical inconclusive : Verdict

pub data Reason : Type 0 where
  name kind size mtime link hash depth : Reason

pub record FileEntry : Type 0 where
  pub name : Text
  pub kind : FileKind
  pub size : ℕ
  pub mtime_ms : ℕ
  pub link_target : Option Text

pub record SideFacts : Type 0 where
  pub kind : FileKind
  pub size : ℕ
  pub mtime_ms : ℕ
  pub link_target : Option Text

pub record CompareEntry : Type 0 where
  pub path : Text
  pub depth : ℕ
  pub a : Option SideFacts
  pub b : Option SideFacts
  pub verdict : Verdict
  pub reason : Reason

pub record CompareWalk : Type 0 where
  pub entries : List CompareEntry
  pub truncated : Bool
  pub unreadable : List Text
  pub unreadable_count : ℕ

pub record CompareDeps : Type 0 where
  pub root_a : Text
  pub root_b : Text
  pub list_a : Text → Option (List FileEntry)
  pub list_b : Text → Option (List FileEntry)
  pub depth : ℕ
  pub ceiling : ℕ
