-- ===== src/DuplicateFinder.antt =====
-- nest-api/src/scans/duplicate-finder.ts: which groups of files of one size are read, under what budget,
-- and what their digests say. The signal and the runs of `sha256sum` are arguments, which are looked at
-- by the number of looks before.
pub mod Account
pub mod Budget
pub mod Counting
mod Tests
use trekker.Prelude.{
  ℕ, zero, suc, ◌+◌, ◌*◌, ◌-◌, Bool, true, false, Option, none, some, List, [], ◌∷◌, ◌++◌,
  if◌then◌else◌, ltb, length,
}
use trekker.Text.{Text, text_eq}
use trekker.ScanAggregator.{DuplicateCandidate}
use trekker.Sha256Sum.{Digests, chunk_paths, set_digest}

abbrev pub max_dup_groups : ℕ
max_dup_groups = 200

abbrev pub max_hash_bytes : ℕ
max_hash_bytes = 2147483648

abbrev pub hash_budget_bytes : ℕ
hash_budget_bytes = 21474836480

pub record DuplicateReport : Type 0 where
  pub candidates : ℕ
  pub confirmed : ℕ
  pub skipped : ℕ
  pub reclaimable_bytes : ℕ

pub data SumOutcome : Type 0 where
  digests : Digests → SumOutcome
  absent failed : SumOutcome

pub record Finder : Type 0 where
  pub aborted : ℕ → Bool
  pub sum_chunk : ℕ → List Text → SumOutcome

-- What the loop of `confirmDuplicates` keeps; `progress` has what was reported, in order.
pub record Pass : Type 0 where
  pub confirmed : ℕ
  pub skipped : ℕ
  pub reclaimable : ℕ
  pub spent : ℕ
  pub looks : ℕ
  pub progress : List ℕ

unfoldable pub set_all : Digests → Digests → Digests
unfolding set_digest
set_all [] into = into
set_all (d ∷ ds) into = set_all ds (set_digest d.0 d.1 into)

-- The digests of a group, or none when the host did not give them, with the looks that it took.
unfoldable pub hash_chunks : Finder → ℕ → List (List Text) → Digests → Option Digests × ℕ
unfolding set_all
hash_chunks finder looks [] into = (some into, looks)
hash_chunks finder looks (chunk ∷ chunks) into = elim (finder.aborted looks) [
  | true ↦ (none, looks + 1)
  | false ↦ elim (finder.sum_chunk looks chunk) [
    | digests ds ↦ hash_chunks finder (looks + 1) chunks (set_all ds into)
    | absent ↦ (none, looks + 1)
    | failed ↦ (none, looks + 1)
  ]
]

unfoldable pub hash_group : Finder → ℕ → List Text → Option Digests × ℕ
unfolding hash_chunks chunk_paths
hash_group finder looks paths = hash_chunks finder looks (chunk_paths paths) []

-- One more of a digest.
unfoldable pub count_digest : Text → List (Text × ℕ) → List (Text × ℕ)
unfolding text_eq
count_digest digest [] = (digest, 1) ∷ []
count_digest digest (c ∷ counts) =
    let rest = count_digest digest counts in
    if text_eq c.0 digest then (c.0, c.1 + 1) ∷ counts else c ∷ rest

unfoldable pub by_digest : Digests → List (Text × ℕ) → List (Text × ℕ)
unfolding count_digest
by_digest [] counts = counts
by_digest (d ∷ ds) counts = by_digest ds (count_digest d.1 counts)

-- Whether a digest stands for more than one file.
unfoldable pub has_copies : List (Text × ℕ) → Bool
has_copies [] = false
has_copies (c ∷ counts) = if ltb c.1 2 then has_copies counts else true

-- What deleting the copies of each digest but one would give back.
unfoldable pub reclaim : ℕ → List (Text × ℕ) → ℕ
reclaim bytes [] = 0
reclaim bytes (c ∷ counts) =
    let rest = reclaim bytes counts in if ltb c.1 2 then rest else bytes * (c.1 - 1) + rest

abbrev pub skip : Pass → Pass
skip pass = record pass { skipped = pass.skipped + 1 }

-- A group that was read.
unfoldable pub tally : ℕ → ℕ → Digests → Pass → Pass
unfolding by_digest has_copies reclaim
tally bytes cost ds pass =
    let counts = by_digest ds [] in
    record pass {
      spent = pass.spent + cost;
      progress = pass.progress ++ ((pass.spent + cost) ∷ []);
      reclaimable = pass.reclaimable + reclaim bytes counts;
      confirmed = if has_copies counts then pass.confirmed + 1 else pass.confirmed;
    }

abbrev pub after_hash : ℕ → ℕ → Option Digests × ℕ → Pass → Pass
after_hash bytes cost (none, looks) pass = record (skip pass) { looks = looks }
after_hash bytes cost (some ds, looks) pass = record (tally bytes cost ds pass) { looks = looks }

abbrev pub cost_of_group : DuplicateCandidate → ℕ
cost_of_group group = group.bytes * length group.paths

-- The body of the loop.
unfoldable pub confirm_group : Finder → DuplicateCandidate → Pass → Pass
unfolding hash_group tally
confirm_group finder group pass =
    let looked = record pass { looks = pass.looks + 1 } in
    if finder.aborted pass.looks
    then skip looked
    else if ltb max_hash_bytes group.bytes
    then skip looked
    else if ltb hash_budget_bytes (pass.spent + cost_of_group group)
    then skip looked
    else after_hash group.bytes (cost_of_group group) (hash_group finder looked.looks group.paths)
        looked

unfoldable pub confirm_each : Finder → List DuplicateCandidate → Pass → Pass
unfolding confirm_group
confirm_each finder [] pass = pass
confirm_each finder (group ∷ groups) pass =
    confirm_each finder groups (confirm_group finder group pass)

-- `slice(0, n)`
unfoldable pub first : ℕ → List DuplicateCandidate → List DuplicateCandidate
first zero groups = []
first (suc n) [] = []
first (suc n) (g ∷ groups) = g ∷ first n groups

abbrev pub start_pass : ℕ → Pass
start_pass skipped = record {
  confirmed = 0;
  skipped = skipped;
  reclaimable = 0;
  spent = 0;
  looks = 0;
  progress = [];
}

unfoldable pub run_pass : Finder → List DuplicateCandidate → ℕ → Pass
unfolding confirm_each first
run_pass finder candidates dropped =
    let affordable = first max_dup_groups candidates in
    confirm_each finder affordable (start_pass (dropped + (length candidates - length affordable)))

unfoldable pub confirm_duplicates : Finder → List DuplicateCandidate → ℕ → DuplicateReport
unfolding run_pass
confirm_duplicates finder [] dropped = record {
  candidates = 0;
  confirmed = 0;
  skipped = dropped;
  reclaimable_bytes = 0;
}
confirm_duplicates finder (g ∷ groups) dropped =
    let pass = run_pass finder (g ∷ groups) dropped in
    record {
      candidates = length (g ∷ groups);
      confirmed = pass.confirmed;
      skipped = pass.skipped;
      reclaimable_bytes = pass.reclaimable;
    }
