-- ===== src/DuplicateFinder/Counting.antt =====
-- nest-api/src/scans/duplicate-finder.ts: every candidate is confirmed, left alone or counted as skipped.
use trekker.Prelude.{
  ℕ, zero, suc, ◌+◌, ◌-◌, ◌≤◌, min, ◌≡◌, refl, Option, none, some, List, [], ◌∷◌, arith, ltb,
  length, if_either,
}
use trekker.ScanAggregator.{DuplicateCandidate}
use trekker.Sha256Sum.{Digests}
use trekker.DuplicateFinder.{
  Finder, Pass, hash_group, by_digest, has_copies, tally, skip, after_hash, cost_of_group,
  confirm_group, confirm_each, first, start_pass, run_pass, confirm_duplicates, hash_budget_bytes,
  max_hash_bytes, max_dup_groups,
}

-- A group adds one to what is confirmed or skipped, or nothing.
abbrev Adds : Pass → ℕ → Pass → Type 0
Adds before n after =
    (after.confirmed + after.skipped ≤ before.confirmed + before.skipped + n)
    × (before.skipped ≤ after.skipped)

tally-Adds : (bytes cost : ℕ) (ds : Digests) (pass : Pass) → Adds pass 1 (tally bytes cost ds pass)
unfolding tally
tally-Adds bytes cost ds pass = (
  if_either (λ n. n + pass.skipped ≤ pass.confirmed + pass.skipped + 1)
      (has_copies (by_digest ds [])) {x = pass.confirmed + 1} {y = pass.confirmed}
      (λ _. omega arith) (λ _. omega arith),
  omega arith,
)

after_hash-Adds :
    (bytes cost : ℕ) (result : Option Digests × ℕ) (pass : Pass)
    → Adds pass 1 (after_hash bytes cost result pass)
after_hash-Adds bytes cost (none, looks) pass = (omega arith, omega arith)
after_hash-Adds bytes cost (some ds, looks) pass = tally-Adds bytes cost ds pass

confirm_group-Adds :
    (finder : Finder) (group : DuplicateCandidate) (pass : Pass)
    → Adds pass 1 (confirm_group finder group pass)
unfolding confirm_group
confirm_group-Adds finder group pass =
    let skipped : Adds pass 1 (skip (record pass { looks = pass.looks + 1 })) =
      (omega arith, omega arith) in
    if_either (Adds pass 1) (finder.aborted pass.looks) (λ _. skipped)
      (λ _.
        if_either (Adds pass 1) (ltb max_hash_bytes group.bytes) (λ _. skipped)
          (λ _.
            if_either (Adds pass 1) (ltb hash_budget_bytes (pass.spent + cost_of_group group))
              (λ _. skipped)
              (λ _.
                after_hash-Adds group.bytes (cost_of_group group)
                  (hash_group finder (pass.looks + 1) group.paths)
                  (record pass { looks = pass.looks + 1 }))))

confirm_each-Adds :
    (finder : Finder) (groups : List DuplicateCandidate) (pass : Pass)
    → Adds pass (length groups) (confirm_each finder groups pass)
unfolding confirm_each
confirm_each-Adds finder [] pass = (omega arith, omega arith)
confirm_each-Adds finder (g ∷ groups) pass =
    let one = confirm_group-Adds finder g pass in
    let more = confirm_each-Adds finder groups (confirm_group finder g pass) in
    (omega (arith, one.0, more.0), omega (arith, one.1, more.1))

length-first :
    (n : ℕ) (groups : List DuplicateCandidate) → length (first n groups) ≡ min n (length groups)
unfolding first
length-first zero groups = omega arith
length-first (suc n) [] = omega arith
length-first (suc n) (g ∷ groups) = omega (arith, length-first n groups)

run_pass-counts :
    (finder : Finder) (candidates : List DuplicateCandidate) (dropped : ℕ)
    → let pass = run_pass finder candidates dropped in
      (pass.confirmed + pass.skipped ≤ length candidates + dropped)
      × (dropped + (length candidates - max_dup_groups) ≤ pass.skipped)
unfolding run_pass
run_pass-counts finder candidates dropped =
    let affordable = first max_dup_groups candidates in
    let size = length-first max_dup_groups candidates in
    let counted =
      confirm_each-Adds finder affordable
        (start_pass (dropped + (length candidates - length affordable))) in
    (omega (arith, counted.0, size), omega (arith, counted.1, size))

-- A report counts each candidate at most once: what is confirmed and what is skipped are together no
-- more than the candidates and the groups that were dropped before; and those, with the candidates
-- beyond the first 200, are among the skipped.
pub confirm_duplicates-counts :
    (finder : Finder) (candidates : List DuplicateCandidate) (dropped : ℕ)
    → let report = confirm_duplicates finder candidates dropped in
      (report.candidates ≡ length candidates)
      × (report.confirmed + report.skipped ≤ length candidates + dropped)
      × (dropped + (length candidates - max_dup_groups) ≤ report.skipped)
unfolding confirm_duplicates
confirm_duplicates-counts finder [] dropped = (refl, omega arith, omega arith)
confirm_duplicates-counts finder (g ∷ gs) dropped =
    let counts = run_pass-counts finder (g ∷ gs) dropped in (refl, counts.0, counts.1)
