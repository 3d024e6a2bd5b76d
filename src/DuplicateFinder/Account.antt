-- ===== src/DuplicateFinder/Account.antt =====
-- nest-api/src/scans/duplicate-finder.ts: what a pass spends, group by group.
use trekker.Prelude.{
  ℕ, ◌+◌, ◌*◌, ◌≤◌, ◌<◌, ◌⊎◌, refl, true, ◌≡◌, inl, inr, Option, none, some, List, [], ◌∷◌, arith,
  ltb, length, if_either,
}
use trekker.ScanAggregator.{DuplicateCandidate}
use trekker.Sha256Sum.{Digests}
use trekker.DuplicateFinder.{
  Finder, Pass, hash_group, tally, after_hash, cost_of_group, confirm_group, confirm_each, first,
  hash_budget_bytes, max_hash_bytes, max_dup_groups,
}

module _ (finder : Finder) where
  -- The host gave the digests of the whole group, at some moment of the pass.
  abbrev pub IsRead : DuplicateCandidate → Type 0
  IsRead g = (looks : ℕ) × (ds : Digests) × ((hash_group finder looks g.paths).0 ≡ some ds)

  -- Why a group is left out when so much has been spent: the pass was called off, its files are too
  -- large, the budget does not cover it, or the host did not give its digests.
  abbrev pub IsLeftOut : ℕ → DuplicateCandidate → Type 0
  IsLeftOut spent g =
      ((looks : ℕ) × (finder.aborted looks ≡ true))
      ⊎ (max_hash_bytes < g.bytes)
      ⊎ (hash_budget_bytes < spent + g.bytes * length g.paths)
      ⊎ ((looks : ℕ) × ((hash_group finder looks g.paths).0 ≡ none))

  -- From what was spent before the groups to what was spent behind them.
  pub data Spends : ℕ → List DuplicateCandidate → ℕ → Type 0 where
    spent_all : (spent : ℕ) → Spends spent [] spent
    spent_on :
        {spent last : ℕ} {g : DuplicateCandidate} {gs : List DuplicateCandidate}
        → IsRead g
        → g.bytes ≤ max_hash_bytes
        → spent + g.bytes * length g.paths ≤ hash_budget_bytes
        → Spends (spent + g.bytes * length g.paths) gs last
        → Spends spent (g ∷ gs) last
    left_out :
        {spent last : ℕ} {g : DuplicateCandidate} {gs : List DuplicateCandidate}
        → IsLeftOut spent g
        → Spends spent gs last
        → Spends spent (g ∷ gs) last

  abbrev pub IsAccounted : List DuplicateCandidate → Pass → Type 0
  IsAccounted candidates pass =
      Spends 0 (first max_dup_groups candidates) pass.spent
      × (pass.reclaimable ≤ pass.spent)
      × (pass.spent ≤ hash_budget_bytes)

  after_hash-Spends :
      (looks last : ℕ) (group : DuplicateCandidate) (groups : List DuplicateCandidate) (pass : Pass)
      (result : Option Digests × ℕ)
      → hash_group finder looks group.paths ≡ result
      → group.bytes ≤ max_hash_bytes
      → pass.spent + cost_of_group group ≤ hash_budget_bytes
      → Spends (after_hash group.bytes (cost_of_group group) result pass).spent groups last
      → Spends pass.spent (group ∷ groups) last
  unfolding tally
  after_hash-Spends looks last group groups pass (none, after) e small room s =
      left_out (inr (inr (inr (looks, rw (e) refl)))) s
  after_hash-Spends looks last group groups pass (some ds, after) e small room s =
      spent_on (looks, ds, rw (e) refl) small room s

  confirm_group-Spends :
      (last : ℕ) (group : DuplicateCandidate) (groups : List DuplicateCandidate) (pass : Pass)
      → Spends (confirm_group finder group pass).spent groups last
      → Spends pass.spent (group ∷ groups) last
  unfolding confirm_group
  confirm_group-Spends last group groups pass =
      if_either Q (finder.aborted pass.looks) (λ e s. left_out (inl (pass.looks, e)) s)
        (λ _.
          if_either Q (ltb max_hash_bytes group.bytes)
            (λ e s. left_out (inr (inl (ground (arith, e)))) s)
            (λ small.
              if_either Q (ltb hash_budget_bytes (pass.spent + cost_of_group group))
                (λ e s. left_out (inr (inr (inl (ground (arith, e))))) s)
                (λ room s.
                  after_hash-Spends (pass.looks + 1) last group groups
                    (record pass { looks = pass.looks + 1 }) _ refl (ground (arith, small))
                    (ground (arith, room)) s)))
    where
      Q : Pass → Type 0
      Q p = Spends p.spent groups last → Spends pass.spent (group ∷ groups) last

  pub confirm_each-Spends :
      (groups : List DuplicateCandidate) (pass : Pass)
      → Spends pass.spent groups (confirm_each finder groups pass).spent
  unfolding confirm_each
  confirm_each-Spends [] pass = spent_all pass.spent
  confirm_each-Spends (g ∷ groups) pass =
      confirm_group-Spends (confirm_each finder groups (confirm_group finder g pass)).spent g groups
        pass (confirm_each-Spends groups (confirm_group finder g pass))
