-- ===== src/CompareTree/Rows.antt =====
-- Which rows a walk produces, and an induction over its steps.
use trekker.Prelude.{
  ℕ, zero, suc, ◌-◌, ◌≤◌, ◌≡◌, refl, ◌⊎◌, inl, inr, true, false, Option, none, some, List, [], ◌∷◌,
  arith, leb, length, All, All-append, if_either,
}
use trekker.Text.{Text}
use trekker.Posix.{posix_join}
use trekker.CompareTree.{
  inconclusive, Reason, Verdict, FileEntry, CompareEntry, CompareWalk, CompareDeps, decide,
  facts_of_found, find, note_unreadable, truncate, push, child, are_directories, open_directory,
  compare_name, compare_names, listed, note_missing, visit, descend, no_walk, compare_trees,
}

-- What a listing of a directory of either tree has under a name.
abbrev pub left_at : CompareDeps → Text → Text → Option FileEntry
left_at deps relative n = find n (listed (deps.list_a (posix_join deps.root_a relative)))

abbrev pub right_at : CompareDeps → Text → Text → Option FileEntry
right_at deps relative n = find n (listed (deps.list_b (posix_join deps.root_b relative)))

-- The verdict on a row: that of the pair, or that a directory on both sides was too deep to open.
abbrev pub IsVerdict : ℕ → ℕ → Option FileEntry → Option FileEntry → Verdict × Reason → Type 0
IsVerdict bound depth a b v =
    ((are_directories a b ≡ false) × (v ≡ decide a b))
    ⊎ ((are_directories a b ≡ true) × (bound ≤ depth) × (v ≡ (inconclusive, Reason.depth)))

-- A row tells of one name in the two listings of one directory.
abbrev pub IsRow : CompareDeps → CompareEntry → Type 0
IsRow deps e =
    (relative : Text) × (n : Text) × (e.path ≡ child relative n)
    × (e.a ≡ facts_of_found (left_at deps relative n))
    × (e.b ≡ facts_of_found (right_at deps relative n))
    × IsVerdict deps.depth e.depth (left_at deps relative n) (right_at deps relative n)
        (e.verdict, e.reason)

-- What every step of a walk keeps, the whole walk keeps.
module _ (deps : CompareDeps) (Inv : CompareWalk → Type 0)
    (noted : (relative : Text) (w : CompareWalk) → Inv w → Inv (note_unreadable relative w))
    (truncated : (w : CompareWalk) → Inv w → Inv (truncate w))
    (pushed : (e : CompareEntry) (w : CompareWalk)
      → IsRow deps e
      → Inv w
      → Inv (push deps.ceiling e w)) where
  Opens : ℕ → Option (Text → ℕ → CompareWalk → CompareWalk) → Type 0
  Opens depth none = deps.depth ≤ depth
  Opens depth (some go) = (path : Text) (w : CompareWalk) → Inv w → Inv (go path (suc depth) w)

  compare_name-keeps :
      (deeper : Option (Text → ℕ → CompareWalk → CompareWalk)) (relative : Text) (depth : ℕ)
      (n : Text) (w : CompareWalk)
      → Opens depth deeper
      → Inv w
      → Inv (
          compare_name deps.ceiling deeper
            (child relative n)
            depth
            (left_at deps relative n)
            (right_at deps relative n)
            w)
  unfolding compare_name open_directory Opens
  compare_name-keeps deeper relative depth n w opens h =
      if_either Inv (are_directories (left_at deps relative n) (right_at deps relative n))
        (λ e. opened deeper opens e)
        (λ e. pushed _ w (relative, n, refl, refl, refl, inl (e, refl)) h)
    where
      opened :
          (deeper : Option (Text → ℕ → CompareWalk → CompareWalk))
          → Opens depth deeper
          → are_directories (left_at deps relative n) (right_at deps relative n) ≡ true
          → Inv (
              open_directory deps.ceiling deeper
                (child relative n)
                depth
                (left_at deps relative n)
                (right_at deps relative n)
                w)
      opened none o e = truncated _ (pushed _ w (relative, n, refl, refl, refl, inr (e, o, refl)) h)
      opened (some go) o e = o (child relative n) w h

  compare_names-keeps :
      (deeper : Option (Text → ℕ → CompareWalk → CompareWalk)) (relative : Text) (depth : ℕ)
      (names : List Text) (w : CompareWalk)
      → Opens depth deeper
      → Inv w
      → Inv (
          compare_names deps.ceiling deeper relative depth
            (listed (deps.list_a (posix_join deps.root_a relative)))
            (listed (deps.list_b (posix_join deps.root_b relative)))
            names
            w)
  unfolding compare_names
  compare_names-keeps deeper relative depth [] w opens h = h
  compare_names-keeps deeper relative depth (n ∷ names) w opens h =
      if_either Inv w.truncated (λ _. h)
        (λ _.
          compare_names-keeps deeper relative depth names _ opens
            (compare_name-keeps deeper relative depth n w opens h))

  note_missing-keeps :
      (l : Option (List FileEntry)) (relative : Text) (w : CompareWalk)
      → Inv w
      → Inv (note_missing l relative w)
  note_missing-keeps none relative w h = noted relative w h
  note_missing-keeps (some es) relative w h = h

  visit-keeps :
      (deeper : Option (Text → ℕ → CompareWalk → CompareWalk)) (relative : Text) (depth : ℕ)
      (w : CompareWalk)
      → Opens depth deeper
      → Inv w
      → Inv (visit deps deeper relative depth w)
  unfolding visit
  visit-keeps deeper relative depth w opens h =
      if_either Inv w.truncated (λ _. h)
        (λ _.
          compare_names-keeps deeper relative depth _ _ opens
            (note_missing-keeps _ relative _ (note_missing-keeps _ relative w h)))

  pub descend-keeps :
      (left : ℕ) (relative : Text) (depth : ℕ) (w : CompareWalk)
      → left ≡ deps.depth - depth
      → Inv w
      → Inv (descend deps left relative depth w)
  unfolding descend Opens
  descend-keeps zero relative depth w l h = visit-keeps none relative depth w (omega (arith, l)) h
  descend-keeps (suc left) relative depth w l h =
      visit-keeps (some (descend deps left)) relative depth w
        (λ path v k. descend-keeps left path (suc depth) v (omega (arith, l)) k) h

-- Every row of a comparison tells of one name in the two listings of one directory: its two sides
-- are what the listings have under the name, and its verdict is that of the pair, or that a
-- directory on both sides lay at the depth bound.
pub compare_trees-AreRows : (deps : CompareDeps) → All (IsRow deps) (compare_trees deps).entries
unfolding compare_trees push truncate note_unreadable
compare_trees-AreRows deps =
    descend-keeps deps (λ w. All (IsRow deps) w.entries) (λ r w h. h) (λ w h. h)
      (λ e w row h.
        if_either (λ (v : CompareWalk). All (IsRow deps) v.entries)
          (leb deps.ceiling (length w.entries)) (λ _. h)
          (λ _. All-append (IsRow deps) w.entries (e ∷ []) h (row, tt)))
      (deps.depth - 1) [] 1 no_walk refl tt
