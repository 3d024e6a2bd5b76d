-- ===== src/TreeWalk/Bounds.antt =====
-- nest-api/src/fs/tree-walk.ts: the ceiling of the walk, and the details beside its paths.
use trekker.Prelude.{
  ℕ, zero, suc, ◌≤◌, ◌≡◌, refl, ap, ap₂, ◌∙◌, inl, inr, ◌⊎◌, Bool, true, false, not, ◌&&◌, List, [],
  ◌∷◌, ◌++◌, map, arith, ltb, length, length-append, if_either, if◌then◌else◌, Bool-cases,
  Option-cases,
}
use mathlib.Core.List.{map-append}
use trekker.Text.{Text}
use trekker.TreeWalk.{
  FileEntry, WalkedEntry, Walked, Listing, listed, not_directory, unlisted, Driver, join_name,
  walked_of, is_symlink, is_directory, record_entry, count_link, go_in, visit, visit_each,
  after_list, descend, describe_root, nothing_walked, add_root, walk_tree,
}

abbrev pub paths_of : List WalkedEntry → List Text
paths_of details = map (λ (d : WalkedEntry). d.path) details

-- A detail beside each path; and the ceiling is held until it is passed by one, which ends the walk.
abbrev pub IsWithin : ℕ → Walked → Type 0
IsWithin ceiling walk =
    (paths_of walk.details ≡ walk.paths)
    × (((walk.exceeded ≡ false) × (length walk.paths ≤ ceiling))
        ⊎ ((walk.exceeded ≡ true) × (length walk.paths ≡ suc ceiling)))

module _ (ceiling : ℕ) (include_links : Bool) where
  count_link-IsWithin :
      (entry : FileEntry) (walk : Walked)
      → IsWithin ceiling walk
      → IsWithin ceiling (count_link entry walk)
  count_link-IsWithin entry walk h =
      if_either (IsWithin ceiling) (is_symlink entry) (λ _. h) (λ _. h)

  record_entry-IsWithin :
      (full : Text) (entry : FileEntry) (walk : Walked)
      → walk.exceeded ≡ false
      → IsWithin ceiling walk
      → IsWithin ceiling (record_entry ceiling full entry walk)
  unfolding record_entry
  record_entry-IsWithin full entry walk going (same, inr (over, n)) = absurd (cc (going, over))
  record_entry-IsWithin full entry walk going (same, inl (e, n)) = (
    map-append (λ (d : WalkedEntry). d.path) walk.details (walked_of full entry ∷ [])
        ∙ ap (λ ps. ps ++ (full ∷ [])) same,
    ends (Bool-cases (ltb ceiling (length (walk.paths ++ (full ∷ []))))),
  )
    where
      ends :
          (ltb ceiling (length (walk.paths ++ (full ∷ []))) ≡ true)
            ⊎ (ltb ceiling (length (walk.paths ++ (full ∷ []))) ≡ false)
          → (((if ltb ceiling (length (walk.paths ++ (full ∷ []))) then true else walk.exceeded)
                ≡ false)
              × (length (walk.paths ++ (full ∷ [])) ≤ ceiling))
            ⊎ (((if ltb ceiling (length (walk.paths ++ (full ∷ []))) then true else walk.exceeded)
                  ≡ true)
                × (length (walk.paths ++ (full ∷ [])) ≡ suc ceiling))
      ends (inl over) =
          inr (rw (over) refl, ground (arith, over, n, length-append walk.paths (full ∷ [])))
      ends (inr under) = inl (rw (under) going, ground (arith, under))

  module _ (deeper : Text → Walked → Walked)
      (below : (directory : Text) (walk : Walked)
        → IsWithin ceiling walk
        → IsWithin ceiling (deeper directory walk)) where
    visit-IsWithin :
        (directory : Text) (entry : FileEntry) (walk : Walked)
        → IsWithin ceiling walk
        → IsWithin ceiling (visit deeper ceiling include_links directory entry walk)
    unfolding visit
    visit-IsWithin directory entry walk h =
        let counted = count_link-IsWithin entry walk h in
        let full = join_name directory entry.name in
        let walked = go_in deeper full entry (count_link entry walk) in
        let inside : IsWithin ceiling walked =
          if_either (IsWithin ceiling) (is_directory entry)
            (λ _. below full (count_link entry walk) counted) (λ _. counted) in
        if_either (IsWithin ceiling) walk.exceeded (λ _. h)
          (λ _.
            if_either (IsWithin ceiling) (is_symlink entry && not include_links) (λ _. counted)
              (λ _.
                if_either (IsWithin ceiling) walked.exceeded (λ _. inside)
                  (λ going. record_entry-IsWithin full entry walked going inside)))

    visit_each-IsWithin :
        (directory : Text) (es : List FileEntry) (walk : Walked)
        → IsWithin ceiling walk
        → IsWithin ceiling (visit_each deeper ceiling include_links directory es walk)
    unfolding visit_each
    visit_each-IsWithin directory [] walk h = h
    visit_each-IsWithin directory (e ∷ es) walk h =
        visit_each-IsWithin directory es (visit deeper ceiling include_links directory e walk)
          (visit-IsWithin directory e walk h)

    after_list-IsWithin :
        (directory : Text) (listing : Listing) (walk : Walked)
        → IsWithin ceiling walk
        → IsWithin ceiling (after_list deeper ceiling include_links directory listing walk)
    after_list-IsWithin directory (listed es) walk h = visit_each-IsWithin directory es walk h
    after_list-IsWithin directory not_directory walk h = h
    after_list-IsWithin directory unlisted walk h = h

  descend-IsWithin :
      (driver : Driver) (levels : ℕ) (directory : Text) (walk : Walked)
      → IsWithin ceiling walk
      → IsWithin ceiling (descend driver ceiling include_links levels directory walk)
  unfolding descend
  descend-IsWithin driver zero directory walk h =
      if_either (IsWithin ceiling) walk.exceeded (λ _. h)
        (λ _. after_list-IsWithin (λ _ w. w) (λ _ w k. k) directory (driver.list directory) walk h)
  descend-IsWithin driver (suc levels) directory walk h =
      if_either (IsWithin ceiling) walk.exceeded (λ _. h)
        (λ _.
          after_list-IsWithin (descend driver ceiling include_links levels)
            (descend-IsWithin driver levels) directory (driver.list directory) walk h)

describe_root-path : (driver : Driver) (root : Text) → (describe_root driver root).path ≡ root
unfolding describe_root
describe_root-path driver root = elim (Option-cases (driver.stat root)) [
  | inl e ↦ rw (describe_root, e) refl
  | inr (stat, e) ↦ rw (describe_root, e) refl
]

abbrev IsBounded : ℕ → Walked → Type 0
IsBounded ceiling walk =
    (paths_of walk.details ≡ walk.paths)
    × (length walk.paths ≤ suc ceiling)
    × ((walk.exceeded ≡ false) ⊎ (length walk.paths ≡ suc ceiling))

over-IsBounded :
    (ceiling : ℕ) (walk : Walked)
    → walk.exceeded ≡ true
    → IsWithin ceiling walk
    → IsBounded ceiling walk
over-IsBounded ceiling walk e (same, inl (going, n)) = absurd (cc (e, going))
over-IsBounded ceiling walk e (same, inr (_, n)) = (same, omega (arith, n), inr n)

add_root-IsBounded :
    (driver : Driver) (root : Text) (ceiling : ℕ) (walk : Walked)
    → walk.exceeded ≡ false
    → IsWithin ceiling walk
    → IsBounded ceiling (add_root driver root walk)
add_root-IsBounded driver root ceiling walk e (same, inr (over, n)) = absurd (cc (e, over))
add_root-IsBounded driver root ceiling walk e (same, inl (going, n)) = (
  map-append (λ (d : WalkedEntry). d.path) walk.details (describe_root driver root ∷ [])
      ∙ ap₂ (λ ps p. ps ++ (p ∷ [])) same (describe_root-path driver root),
  omega (arith, n, length-append walk.paths (root ∷ [])),
  inl going,
)

-- A walk has a detail for each of its paths, in their order; if it passed the ceiling it stopped at the
-- first path over it, and if it did not, the paths below the root are no more than the ceiling and the
-- root comes after them.
pub walk_tree-IsBounded :
    (driver : Driver) (root : Text) (ceiling : ℕ) (include_links : Bool)
    → let walk = walk_tree driver root ceiling include_links in
      (paths_of walk.details ≡ walk.paths)
      × (length walk.paths ≤ suc ceiling)
      × ((walk.exceeded ≡ false) ⊎ (length walk.paths ≡ suc ceiling))
unfolding walk_tree
walk_tree-IsBounded driver root ceiling include_links =
    let walk = descend driver ceiling include_links 63 root nothing_walked in
    let h : IsWithin ceiling walk =
      descend-IsWithin ceiling include_links driver 63 root nothing_walked
        (refl, inl (refl, omega arith)) in
    if_either (IsBounded ceiling) walk.exceeded (λ e. over-IsBounded ceiling walk e h)
      (λ e. add_root-IsBounded driver root ceiling walk e h)
