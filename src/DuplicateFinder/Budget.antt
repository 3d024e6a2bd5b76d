-- ===== src/DuplicateFinder/Budget.antt =====
-- nest-api/src/scans/duplicate-finder.ts: what is spent and what is promised back.
use trekker.Prelude.{ℕ, ◌+◌, ◌≤◌, Option, none, some, List, [], ◌∷◌, length}
use trekker.Text.{Text}
use trekker.Sha256Sum.{Digests}
use trekker.DuplicateFinder.{SumOutcome, digests, absent, failed, Finder, Pass, hash_budget_bytes}

abbrev pub size_of : SumOutcome → ℕ
size_of (digests ds) = length ds
size_of absent = 0
size_of failed = 0

unfoldable pub total : List (Text × ℕ) → ℕ
total [] = 0
total (c ∷ counts) = c.1 + total counts

-- What a group gives at most.
abbrev IsSized : ℕ → Option Digests × ℕ → Type 0
IsSized n (none, looks) = Unit
IsSized n (some ds, looks) = length ds ≤ n

module _ (finder : Finder)
    (honest : (looks : ℕ) (chunk : List Text)
      → size_of (finder.sum_chunk looks chunk) ≤ length chunk) where
  -- What is promised was paid for, within the budget.
  abbrev IsPaid : Pass → Type 0
  IsPaid pass = (pass.reclaimable ≤ pass.spent) × (pass.spent ≤ hash_budget_bytes)
