-- ===== src/TransferPlan/Types.antt =====
-- The items, decisions and stored options of a transfer.
use trekker.Prelude.{ℕ, Bool, Option}
use trekker.Text.{Text}

pub data ConflictStrategy : Type 0 where
  ask overwrite skip keep_both : ConflictStrategy

pub data ConflictDecision : Type 0 where
  ask overwrite skip rename : ConflictDecision

pub record EntryFacts : Type 0 where
  pub size : ℕ
  pub mtime_ms : ℕ
  pub kind : Option Text

pub record PlannedItem : Type 0 where
  pub name : Text
  pub kind : Text
  pub bytes : ℕ
  pub mode : Option ℕ
  pub mtime_ms : Option ℕ
  pub source : EntryFacts
  pub target : Option EntryFacts
  pub conflict : Bool

-- What the walk of nest-api/src/fs/tree-walk.ts found, as far as a plan reads it.
pub record WalkedEntry : Type 0 where
  pub kind : Text
  pub size : ℕ
  pub mode : ℕ
  pub mtime_ms : ℕ

mutual
  -- A value of a JSON column; what stands in numbers and arrays is not read.
  pub data Json : Type 0 where
    null boolean number array : Json
    text : Text → Json
    object : Members → Json

  pub data Members : Type 0 where
    no_members : Members
    with_member : Text → Json → Members → Members

-- A name at the destination, or a function of `Object.prototype` in its place.
pub data Landed : Type 0 where
  at_name : Text → Landed
  inherited : Landed
