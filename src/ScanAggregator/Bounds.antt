-- ===== src/ScanAggregator/Bounds.antt =====
-- What an aggregator holds, however many records it is given.
use trekker.Prelude.{
  ℕ, zero, suc, ◌≤◌, ◌<◌, ◌≡◌, refl, ap, inl, inr, Bool, true, false, ◌&&◌, Option, none, some,
  List, [], ◌∷◌, arith, if◌then◌else◌, ltb, leb, ◌==◌, if_either, Option-cases, All, All-append,
  length, length-append,
}
use trekker.Text.{Text, text_eq}
use trekker.ScanAggregator.{
  AggregatedEntry, Parent, AggregatorOptions, DuRecord, Aggregator, max_parents, max_size_keys,
  max_paths_per_size, min_dup_bytes, no_records, find_parent, update_parent, with_bytes, new_parent,
  close_parent, offer_top, with_offer, offer, find_size, push_path, record_size, record_facts,
  offer_at, add_inside, add_at, add, add_all, root_of, normalise, is_directory, depth_of,
}
use trekker.ScanAggregator.Largest.{IsTop, Step-offer}

abbrev pub HasTop : Text × Parent → Type 0
HasTop p = IsTop p.1.top

abbrev pub IsShort : ℕ × List Text → Type 0
IsShort g = length g.1 ≤ max_paths_per_size

-- At most 20000 parents, each with at most 24 children, the largest first; at most 200000 sizes, each
-- with at most 32 paths.
abbrev pub IsWithin : Aggregator → Type 0
IsWithin s =
    (length s.parents ≤ max_parents)
    × All HasTop s.parents
    × (length s.by_size ≤ max_size_keys)
    × All IsShort s.by_size

update-IsWithin :
    (path : Text) (f : Parent → Parent) (ps : List (Text × Parent))
    → ((p : Parent) → IsTop p.top → IsTop (f p).top)
    → All HasTop ps
    → (length (update_parent path f ps) ≡ length ps) × All HasTop (update_parent path f ps)
unfolding update_parent
update-IsWithin path f [] g h = (refl, tt)
update-IsWithin path f ((p, parent) ∷ ps) g h =
    let ih = update-IsWithin path f ps g h.1 in
    if_either (λ (l : List (Text × Parent)). (length l ≡ suc (length ps)) × All HasTop l)
      (text_eq p path) (λ _. (refl, (g parent h.0, h.1))) (λ _. (ap suc ih.0, (h.0, ih.1)))

new_parent-IsWithin :
    (path : Text) (parent : Parent) (s : Aggregator)
    → IsTop parent.top
    → IsWithin s
    → IsWithin (new_parent path parent s)
unfolding new_parent
new_parent-IsWithin path parent s t h =
    if_either IsWithin (leb max_parents (length s.parents)) (λ _. h)
      (λ e.
        let room : length s.parents < max_parents = ground (arith, e) in
        (
          omega (arith, room, length-append s.parents ((path, parent) ∷ [])),
          All-append HasTop s.parents ((path, parent) ∷ []) h.1 (t, tt),
          h.2,
          h.3,
        ))

close_parent-IsWithin :
    (path : Text) (bytes depth : ℕ) (s : Aggregator)
    → IsWithin s
    → IsWithin (close_parent path bytes depth s)
unfolding close_parent
close_parent-IsWithin path bytes depth s h =
    elim (find_parent path s.parents)
      as (λ o. IsWithin (elim o [
        | some _ ↦ record s { parents = update_parent path (with_bytes bytes) s.parents }
        | none ↦ new_parent path (record { bytes = bytes; depth = depth; top = [] }) s
      ])) [
        | some _ ↦
            let u = update-IsWithin path (with_bytes bytes) s.parents (λ p t. t) h.1 in
            (omega (arith, u.0, h.0), u.1, h.2, h.3)
        | none ↦ new_parent-IsWithin path _ s (tt, omega arith) h
      ]

offer-IsWithin :
    (path : Text) (depth : ℕ) (entry : AggregatedEntry) (s : Aggregator)
    → IsWithin s
    → IsWithin (offer path depth entry s)
unfolding offer
offer-IsWithin path depth entry s h =
    elim (find_parent path s.parents)
      as (λ o. IsWithin (elim o [
        | some _ ↦ record s { parents = update_parent path (with_offer entry) s.parents }
        | none ↦ new_parent path (record { bytes = 0; depth = depth; top = offer_top entry [] }) s
      ])) [
        | some _ ↦
            let u =
              update-IsWithin path (with_offer entry) s.parents
                (λ p t. (Step-offer entry p.top t).0) h.1 in
            (omega (arith, u.0, h.0), u.1, h.2, h.3)
        | none ↦ new_parent-IsWithin path _ s (Step-offer entry [] (tt, omega arith)).0 h
      ]

push_path-IsShort :
    (bytes : ℕ) (path : Text) (paths : List Text) (sizes : List (ℕ × List Text))
    → find_size bytes sizes ≡ some paths
    → length paths < max_paths_per_size
    → All IsShort sizes
    → (length (push_path bytes path sizes) ≡ length sizes)
      × All IsShort (push_path bytes path sizes)
unfolding push_path find_size
push_path-IsShort bytes path paths [] e l h = cc
push_path-IsShort bytes path paths ((b, ps) ∷ sizes) e l h =
    if_either (λ (r : List (ℕ × List Text)). (length r ≡ suc (length sizes)) × All IsShort r)
      (b == bytes)
      (λ same.
        let here : ps ≡ paths = cc (found same) in
        let short : length ps < max_paths_per_size = omega (arith, ap length here, l) in
        (refl, (omega (arith, short, length-append ps (path ∷ [])), h.1)))
      (λ other.
        let ih = push_path-IsShort bytes path paths sizes (missed other) l h.1 in
        (ap suc ih.0, (h.0, ih.1)))
  where
    found : (b == bytes) ≡ true → some ps ≡ some paths
    found same =
        if_either (λ o. o ≡ some paths → some ps ≡ some paths) (b == bytes) (λ _ h. h)
          (λ other. absurd (cc (same, other))) e

    missed : (b == bytes) ≡ false → find_size bytes sizes ≡ some paths
    missed other =
        if_either (λ o. o ≡ some paths → find_size bytes sizes ≡ some paths) (b == bytes)
          (λ same. absurd (cc (same, other))) (λ _ h. h) e

record_size-IsWithin :
    (path : Text) (bytes : ℕ) (s : Aggregator) → IsWithin s → IsWithin (record_size path bytes s)
unfolding record_size
record_size-IsWithin path bytes s h = elim (Option-cases (find_size bytes s.by_size)) [
  | inl e ↦
      rw (record_size, e)
        (if_either IsWithin (leb max_size_keys (length s.by_size)) (λ _. h)
          (λ f.
            let room : length s.by_size < max_size_keys = ground (arith, f) in
            (
              h.0,
              h.1,
              omega (arith, room, length-append s.by_size ((bytes, path ∷ []) ∷ [])),
              All-append IsShort s.by_size ((bytes, path ∷ []) ∷ []) h.3 (omega arith, tt),
            )))
  | inr (paths, e) ↦
      rw (record_size, e)
        (if_either IsWithin (ltb (length paths) max_paths_per_size)
          (λ f.
            let room : length paths < max_paths_per_size = ground (arith, f) in
            let u = push_path-IsShort bytes path paths s.by_size e room h.3 in
            (h.0, h.1, omega (arith, u.0, h.2), u.1))
          (λ _. h))
]

record_facts-IsWithin :
    (options : AggregatorOptions) (path : Text) (r : DuRecord) (s : Aggregator)
    → IsWithin s
    → IsWithin (record_facts options path r s)
unfolding record_facts
record_facts-IsWithin options path r s h =
    if_either IsWithin options.has_files
      (λ _.
        if_either IsWithin (ltb r.bytes min_dup_bytes) (λ _. h)
          (λ _. record_size-IsWithin path r.bytes _ h))
      (λ _. h)

offer_at-IsWithin :
    (depth : ℕ) (path : Text) (entry : AggregatedEntry) (s : Aggregator)
    → IsWithin s
    → IsWithin (offer_at depth path entry s)
offer_at-IsWithin zero path entry s h = h
offer_at-IsWithin (suc d) path entry s h = offer-IsWithin _ d entry s h

add_inside-IsWithin :
    (options : AggregatorOptions) (path : Text) (directory : Bool) (depth : ℕ) (r : DuRecord)
    (s : Aggregator)
    → IsWithin s
    → IsWithin (add_inside options path directory depth r s)
unfolding add_inside
add_inside-IsWithin options path directory depth r s h =
    let facts =
      if_either IsWithin directory {x = s} {y = record_facts options path r s} (λ _. h)
        (λ _. record_facts-IsWithin options path r s h) in
    let closed =
      if_either IsWithin (directory && ltb depth options.depth)
        {x = close_parent path r.bytes depth
          (if directory then s else record_facts options path r s)}
        {y = if directory then s else record_facts options path r s}
        (λ _. close_parent-IsWithin path r.bytes depth _ facts) (λ _. facts) in
    if_either IsWithin (leb depth options.depth) (λ _. offer_at-IsWithin depth path _ _ closed)
      (λ _. closed)

add-IsWithin :
    (options : AggregatorOptions) (r : DuRecord) (s : Aggregator)
    → IsWithin s
    → IsWithin (add options r s)
unfolding add
add-IsWithin options r s h =
    if_either IsWithin (text_eq (normalise r.path) (root_of options))
      (λ _. close_parent-IsWithin (root_of options) r.bytes 0 _ h)
      (λ _. inside (depth_of (root_of options) (normalise r.path)))
  where
    inside :
        (d : Option ℕ)
        → IsWithin (
            add_at options
              (normalise r.path)
              (is_directory (root_of options) s.previous_path (normalise r.path))
              d
              r
              (record s { previous_path = some (normalise r.path); inodes = suc s.inodes }))
    inside none = h
    inside (some d) =
        add_inside-IsWithin options (normalise r.path)
          (is_directory (root_of options) s.previous_path (normalise r.path)) d r
          (record s { previous_path = some (normalise r.path); inodes = suc s.inodes }) h

add_all-from :
    (options : AggregatorOptions) (rs : List DuRecord) (s : Aggregator)
    → IsWithin s
    → IsWithin (add_all options rs s)
unfolding add_all
add_all-from options [] s h = h
add_all-from options (r ∷ rs) s h =
    add_all-from options rs (add options r s) (add-IsWithin options r s h)

-- After any records, the aggregator holds at most 20000 parents, each with at most 24 children, the
-- largest first, and at most 200000 sizes, each with at most 32 paths.
pub add_all-IsWithin :
    (options : AggregatorOptions) (rs : List DuRecord) → IsWithin (add_all options rs no_records)
add_all-IsWithin options rs = add_all-from options rs no_records (omega arith, tt, omega arith, tt)
