-- ===== src/CompareTree/Covering.antt =====
-- The loop over the names covers them all, where it ends without a truncation.
use trekker.Prelude.{
  ℕ, zero, suc, ◌-◌, ◌≡◌, refl, subst, inl, inr, true, false, Option, none, some, List, [], ◌∷◌,
  arith, leb, length, if_either, Bool-cases,
}
use trekker.Text.{Text, text_eq, member}
use trekker.Text.Laws.{eq_of_text_eq}
use trekker.Posix.{posix_join}
use trekker.CompareTree.{
  FileEntry, CompareEntry, CompareWalk, CompareDeps, truncate, push, child, are_directories,
  open_directory, compare_name, compare_names, listed, visit, descend, no_walk, compare_trees,
}
use trekker.CompareTree.Rows.{left_at, right_at}
use trekker.CompareTree.Coverage.{
  HasRow, Extends, Extends-trans, push-Extends, descend-Extends, Some-append_last, IsCovered,
  IsListed, Covers, IsCovered-later, Covers-later, member-names_of,
}

push-HasRow :
    (ceiling : ℕ) (e : CompareEntry) (w : CompareWalk)
    → (push ceiling e w).truncated ≡ false
    → HasRow e.path (push ceiling e w)
unfolding push truncate
push-HasRow ceiling e w =
    if_either (λ (v : CompareWalk). v.truncated ≡ false → HasRow e.path v)
      (leb ceiling (length w.entries)) (λ _ h. cc) (λ _ _. Some-append_last _ w.entries e refl)

module _ (deps : CompareDeps) (deeper : Option (Text → ℕ → CompareWalk → CompareWalk)) (depth : ℕ)
    (Below : Text → CompareWalk → Type 0)
    (later : (path : Text) (v w : CompareWalk) → Extends v w → Below path v → Below path w)
    (ext : (path : Text) (a b : Option FileEntry) (w : CompareWalk)
      → Extends w (open_directory deps.ceiling deeper path depth a b w))
    (opened : (path : Text) (a b : Option FileEntry) (w : CompareWalk)
      → (open_directory deps.ceiling deeper path depth a b w).truncated ≡ false
      → Below path (open_directory deps.ceiling deeper path depth a b w)) where
  abbrev step : Text → Text → CompareWalk → CompareWalk
  step relative n w =
      compare_name deps.ceiling deeper (child relative n) depth (left_at deps relative n)
        (right_at deps relative n) w

  abbrev loop : Text → List Text → CompareWalk → CompareWalk
  loop relative names w =
      compare_names deps.ceiling deeper relative depth
        (listed (deps.list_a (posix_join deps.root_a relative)))
        (listed (deps.list_b (posix_join deps.root_b relative))) names w

  compare_name-Extends : (relative n : Text) (w : CompareWalk) → Extends w (step relative n w)
  unfolding compare_name
  compare_name-Extends relative n w =
      if_either (Extends w) (are_directories (left_at deps relative n) (right_at deps relative n))
        (λ _. ext (child relative n) _ _ w)
        (λ _. push-Extends deps.ceiling _ w w (λ h. h, λ p h. h))

  compare_names-Extends :
      (relative : Text) (names : List Text) (w : CompareWalk) → Extends w (loop relative names w)
  unfolding compare_names
  compare_names-Extends relative [] w = (λ h. h, λ p h. h)
  compare_names-Extends relative (n ∷ names) w =
      if_either (Extends w) w.truncated (λ _. (λ h. h, λ p h. h))
        (λ _.
          Extends-trans w (step relative n w) (loop relative names (step relative n w))
            (compare_name-Extends relative n w)
            (compare_names-Extends relative names (step relative n w)))

  compare_name_covers :
      (relative n : Text) (w : CompareWalk)
      → (step relative n w).truncated ≡ false
      → IsCovered deps relative n (Below (child relative n) (step relative n w)) (step relative n w)
  unfolding compare_name
  compare_name_covers relative n w =
      if_either
        (λ (v : CompareWalk).
          v.truncated ≡ false → IsCovered deps relative n (Below (child relative n) v) v)
        (are_directories (left_at deps relative n) (right_at deps relative n))
        (λ e h. inr (e, opened (child relative n) _ _ w h))
        (λ e h. inl (e, push-HasRow deps.ceiling _ w h))

  compare_names_covers :
      (relative : Text) (names : List Text) (w : CompareWalk)
      → (loop relative names w).truncated ≡ false
      → (n : Text) → member n names ≡ true
      → IsCovered deps relative n
          (Below (child relative n) (loop relative names w))
          (loop relative names w)
  unfolding compare_names member
  compare_names_covers relative [] w h n m = cc
  compare_names_covers relative (k ∷ names) w h n m =
      if_either
        (λ (v : CompareWalk).
          v.truncated ≡ false → IsCovered deps relative n (Below (child relative n) v) v)
        w.truncated (λ e h. absurd (cc (e, h)))
        (λ _ h. elim (Bool-cases (text_eq k n)) [
          | inl same ↦
              subst
                (λ x.
                  IsCovered deps relative x
                    (Below (child relative x) (loop relative names (step relative k w)))
                    (loop relative names (step relative k w)))
                (eq_of_text_eq k n same) (first h)
          | inr other ↦
              compare_names_covers relative names (step relative k w) h n (ground (arith, m, other))
        ])
        h
    where
      first :
          (loop relative names (step relative k w)).truncated ≡ false
          → IsCovered deps relative k
              (Below (child relative k) (loop relative names (step relative k w)))
              (loop relative names (step relative k w))
      first h =
          let v = step relative k w in
          let e = compare_names-Extends relative names v in
          IsCovered-later deps relative k (Below (child relative k) v)
            (Below (child relative k) (loop relative names v)) v (loop relative names v) e
            (later (child relative k) v (loop relative names v) e)
            (compare_name_covers relative k w (e.0 h))

  pub visit_covers :
      (relative : Text) (w : CompareWalk)
      → (visit deps deeper relative depth w).truncated ≡ false
      → (n : Text) → IsListed deps relative n
      → IsCovered deps relative n
          (Below (child relative n) (visit deps deeper relative depth w))
          (visit deps deeper relative depth w)
  unfolding visit
  visit_covers relative w h n l =
      if_either
        (λ (v : CompareWalk).
          v.truncated ≡ false → IsCovered deps relative n (Below (child relative n) v) v)
        w.truncated (λ e h. absurd (cc (e, h)))
        (λ _ h. compare_names_covers relative _ _ h n (member-names_of n _ l)) h

descend-Covers :
    (deps : CompareDeps) (left : ℕ) (relative : Text) (depth : ℕ) (w : CompareWalk)
    → left ≡ deps.depth - depth
    → (descend deps left relative depth w).truncated ≡ false
    → Covers deps left relative (descend deps left relative depth w)
unfolding descend open_directory truncate
descend-Covers deps zero relative depth w l h =
    visit_covers deps none depth (λ path v. ⊥) (λ p v w e b. b)
      (λ p a b w. (λ h. cc, (push-Extends deps.ceiling _ w w (λ h. h, λ p h. h)).1))
      (λ p a b w h. cc) relative w h
descend-Covers deps (suc left) relative depth w l h =
    visit_covers deps (some (descend deps left)) depth (Covers deps left) (Covers-later deps left)
      (λ p a b w. descend-Extends deps left p (suc depth) w (omega (arith, l)))
      (λ p a b w h. descend-Covers deps left p (suc depth) w (omega (arith, l)) h) relative w h

-- A comparison that does not say it was truncated has looked at everything: each name that either
-- listing has is a row, or a directory on both sides that was opened, of whose names the same holds.
pub compare_trees-Covers :
    (deps : CompareDeps)
    → (compare_trees deps).truncated ≡ false
    → Covers deps (deps.depth - 1) [] (compare_trees deps)
unfolding compare_trees
compare_trees-Covers deps h = descend-Covers deps (deps.depth - 1) [] 1 no_walk refl h
