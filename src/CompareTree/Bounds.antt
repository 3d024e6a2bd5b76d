-- ===== src/CompareTree/Bounds.antt =====
-- The bounds that a comparison keeps to.
use trekker.Prelude.{
  ℕ, suc, ◌-◌, ◌≤◌, ◌<◌, refl, List, [], ◌∷◌, ◌++◌, arith, ltb, leb, if◌then◌else◌, length,
  if_either, length-append,
}
use trekker.Text.{Text, codes, is_empty}
use trekker.CompareTree.{
  CompareEntry, CompareWalk, CompareDeps, max_unreadable_named, note_unreadable, truncate, push,
  no_walk, compare_trees,
}
use trekker.CompareTree.Rows.{descend-keeps}

-- At most `ceiling` rows, at most twenty names of what could not be listed, and no more names than
-- the count.
abbrev pub IsBounded : CompareDeps → CompareWalk → Type 0
IsBounded deps w =
    (length w.entries ≤ deps.ceiling)
    × (length w.unreadable ≤ max_unreadable_named)
    × (length w.unreadable ≤ w.unreadable_count)

named_more :
    (t : Text) (ts : List Text) (count : ℕ)
    → length ts ≤ 20
    → length ts ≤ count
    → let more = if ltb (length ts) 20 then ts ++ (t ∷ []) else ts in
      (length more ≤ 20) × (length more ≤ suc count)
named_more t ts count h k =
    if_either (λ (xs : List Text). (length xs ≤ 20) × (length xs ≤ suc count)) (ltb (length ts) 20)
      {x = ts ++ (t ∷ [])} {y = ts}
      (λ e.
        let room : length ts < 20 = ground (arith, e) in
        (omega (arith, length-append ts (t ∷ [])), omega (arith, length-append ts (t ∷ []))))
      (λ _. (h, omega arith))

note-IsBounded :
    (deps : CompareDeps) (relative : Text) (w : CompareWalk)
    → IsBounded deps w
    → IsBounded deps (note_unreadable relative w)
unfolding note_unreadable
note-IsBounded deps relative w (rows, named, counted) =
    let more =
      named_more (if is_empty relative then codes "." else relative) w.unreadable w.unreadable_count
        named counted in
    (rows, more.0, more.1)

push-IsBounded :
    (deps : CompareDeps) (e : CompareEntry) (w : CompareWalk)
    → IsBounded deps w
    → IsBounded deps (push deps.ceiling e w)
unfolding push truncate
push-IsBounded deps e w h =
    if_either (IsBounded deps) (leb deps.ceiling (length w.entries)) (λ _. h)
      (λ below.
        let room : length w.entries < deps.ceiling = ground (arith, below) in
        (omega (arith, length-append w.entries (e ∷ [])), h.1, h.2))

-- Whatever the trees, a comparison has at most `ceiling` rows, names at most twenty directories
-- that could not be listed, and counts at least those it names.
pub compare_trees-IsBounded : (deps : CompareDeps) → IsBounded deps (compare_trees deps)
unfolding compare_trees truncate
compare_trees-IsBounded deps =
    descend-keeps deps (IsBounded deps) (note-IsBounded deps) (λ w h. h)
      (λ e w _ h. push-IsBounded deps e w h) (deps.depth - 1) [] 1 no_walk refl
      (omega arith, omega arith, omega arith)
