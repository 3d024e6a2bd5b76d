-- ===== src/ScanAggregator/Treemap.antt =====
-- nest-api/src/scans/scan-aggregator.ts: what the rows of a treemap are, and the loop that
-- emits them.
use trekker.Prelude.{
  true, ℕ, zero, suc, ◌+◌, ◌-◌, ◌≤◌, ◌<◌, All, append-nil, append_assoc, ◌≡◌, refl, sym, ap, ◌∙◌,
  inl, inr, ◌⊎◌, Bool-cases, Bool, false, ◌||◌, Option, none, some, List, [], ◌∷◌, ◌++◌, arith, map,
  filter, if◌then◌else◌, ltb, leb, ◌==◌, if_either, Option-cases, ==_iff, length, length-append,
  length-filter,
}
use trekker.Text.{Text}
use trekker.ScanAggregator.{
  AggregatedEntry, Parent, AggregatorOptions, max_entries, root_of, find_parent,
}
use trekker.ScanAggregator.Emit.{sum_bytes, other_entry, level_of, opens, emit_levels, root_entry}

sum-append : (xs ys : List AggregatedEntry) → sum_bytes (xs ++ ys) ≡ sum_bytes xs + sum_bytes ys
unfolding sum_bytes
sum-append [] ys = omega arith
sum-append (x ∷ xs) ys = omega (arith, sum-append xs ys)

module _ (child_floor : ℕ → ℕ) (options : AggregatorOptions) (parents : List (Text × Parent))
    (total : ℕ) where
  -- The children of a parent that are large enough for a rectangle of their own.
  abbrev pub kept : Parent → List AggregatedEntry
  kept parent =
      filter (λ (e : AggregatedEntry). leb (if ltb 0 total then child_floor total else 0) e.bytes)
        parent.top

  -- The level of a parent adds up to it: its large children, and one more row where they leave a rest.
  abbrev pub IsLevel : Text → Parent → List AggregatedEntry → Type 0
  IsLevel p parent level =
      (sum_bytes level ≡ parent.bytes)
      × ((level ≡ kept parent)
          ⊎ ((rest : ℕ) × (level ≡ kept parent ++ (other_entry p parent rest ∷ []))))

  abbrev pub HasLevelOf : List AggregatedEntry → Text → Option Parent → Type 0
  HasLevelOf es p none = Unit
  HasLevelOf es p (some parent) =
      (before : List AggregatedEntry) × (level : List AggregatedEntry) × (after : List
        AggregatedEntry)
      × (es ≡ before ++ level ++ after)
      × IsLevel p parent level

  -- Where the path is a parent, its level stands among the rows.
  abbrev pub HasLevel : List AggregatedEntry → Text → Type 0
  HasLevel es p = HasLevelOf es p (find_parent p parents)

  -- The root, and behind it levels of parents.
  pub data AreLevels : List AggregatedEntry → Type 0 where
    top_level : AreLevels (root_entry options total ∷ [])
    next_level :
        (es level : List AggregatedEntry) (p : Text) (parent : Parent)
        → AreLevels es
        → find_parent p parents ≡ some parent
        → IsLevel p parent level
        → AreLevels (es ++ level)

  -- The children of some parent add up to more than the parent.
  abbrev pub IsOverfull : Type 0
  IsOverfull =
      (p : Text) × (parent : Parent) × (find_parent p parents ≡ some parent)
      × (parent.bytes < sum_bytes (kept parent))

  -- The level of some parent has no room behind the rows.
  abbrev pub IsOutOfRoom : List AggregatedEntry → Type 0
  IsOutOfRoom es =
      (p : Text) × (parent : Parent) × (find_parent p parents ≡ some parent)
      × (max_entries < length es + suc (length (kept parent)))

  -- The directories among the rows that are not as deep as the walk goes.
  abbrev pub opened : List AggregatedEntry → List Text
  opened es = map (λ (e : AggregatedEntry). e.path) (filter (opens options) es)

  level_of-IsLevel :
      (p : Text) (parent : Parent)
      → (length (level_of child_floor parent p total).0 ≤ suc (length (kept parent)))
        × ((((level_of child_floor parent p total).1 ≡ false)
              × IsLevel p parent (level_of child_floor parent p total).0)
            ⊎ (((level_of child_floor parent p total).1 ≡ true)
                × (parent.bytes < sum_bytes (kept parent))))
  unfolding level_of
  level_of-IsLevel p parent =
      if_either P (ltb parent.bytes (sum_bytes (kept parent)))
        (λ over. (omega arith, inr (refl, ground (arith, over))))
        (λ n.
          if_either P (parent.bytes == sum_bytes (kept parent))
            (λ e. (
              omega arith,
              inl (refl, (sym ((==_iff parent.bytes (sum_bytes (kept parent))).0 e), inl refl)),
            ))
            (λ _.
              let l : sum_bytes (kept parent) ≤ parent.bytes = ground (arith, n) in
              (
                omega (
                  arith,
                  length-append (kept parent)
                      (other_entry p parent (parent.bytes - sum_bytes (kept parent)) ∷ []),
                ),
                inl (refl, (remainder l, inr (parent.bytes - sum_bytes (kept parent), refl))),
              )))
    where
      P : List AggregatedEntry × Bool → Type 0
      P v =
          (length v.0 ≤ suc (length (kept parent)))
          × (((v.1 ≡ false) × IsLevel p parent v.0)
              ⊎ ((v.1 ≡ true) × (parent.bytes < sum_bytes (kept parent))))

      remainder :
          sum_bytes (kept parent) ≤ parent.bytes
          → sum_bytes
              (kept parent ++ (other_entry p parent (parent.bytes - sum_bytes (kept parent)) ∷ []))
            ≡ parent.bytes
      remainder l = omega (
        arith,
        l,
        sum-append (kept parent)
            (other_entry p parent (parent.bytes - sum_bytes (kept parent)) ∷ []),
        last,
      )
        where
          last :
              sum_bytes (other_entry p parent (parent.bytes - sum_bytes (kept parent)) ∷ [])
              ≡ parent.bytes - sum_bytes (kept parent)
          last = omega arith

  length-opened :
      (queue : List Text) (level : List AggregatedEntry)
      → length (queue ++ opened level) ≤ length queue + length level
  length-opened queue level = omega (
    arith,
    length-append queue (opened level),
    length-filter (opens options) level,
    length_map (filter (opens options) level),
  )
    where
      length_map :
          (es : List AggregatedEntry)
          → length (map (λ (e : AggregatedEntry). e.path) es) ≡ length es
      length_map [] = refl
      length_map (e ∷ es) = ap suc (length_map es)

  opened-append :
      (Q : Text → Type 0) (xs ys : List AggregatedEntry)
      → All Q (opened xs)
      → All Q (opened ys)
      → All Q (opened (xs ++ ys))
  opened-append Q [] ys hx hy = hy
  opened-append Q (x ∷ xs) ys hx hy = elim (Bool-cases (opens options x)) [
    | inl e ↦ let own = rw (e) at hx in rw (e) (own.0, opened-append Q xs ys own.1 hy)
    | inr e ↦ rw (e) (opened-append Q xs ys (rw (e) at hx) hy)
  ]

  All_parts : (Q : Text → Type 0) (xs ys : List Text) → All Q (xs ++ ys) → All Q xs × All Q ys
  All_parts Q [] ys h = (tt, h)
  All_parts Q (x ∷ xs) ys (h, hs) = let (a, b) = All_parts Q xs ys hs in ((h, a), b)

  -- The rows are the root and levels, with one for the root and each directory that is opened.
  abbrev pub IsTreemap : List AggregatedEntry → Type 0
  IsTreemap es =
      AreLevels es
      × (more : List AggregatedEntry) × (es ≡ (root_entry options total ∷ []) ++ more)
      × HasLevel es (root_of options)
      × All (HasLevel es) (opened more)

  module _ (cut : Bool) where
    -- Why rows were cut short before they ran out of room.
    abbrev pub IsCut : Type 0
    IsCut = (cut ≡ true) ⊎ IsOverfull

    -- What the rows are, and why they were cut short where they were.
    abbrev pub AreRows : List AggregatedEntry → Bool → Type 0
    AreRows es truncated =
        ((truncated ≡ false) × IsTreemap es) ⊎ ((truncated ≡ true) × (IsCut ⊎ IsOutOfRoom es))

    abbrev pub IsSoFar : List AggregatedEntry → Bool → Type 0
    IsSoFar es truncated = ((truncated ≡ false) × AreLevels es) ⊎ ((truncated ≡ true) × IsCut)

    -- The rows are levels, with one for each parent of the queue and each directory that was opened.
    abbrev pub IsWholeBehind :
        List Text → List AggregatedEntry → Bool → List AggregatedEntry × Bool → Type 0
    IsWholeBehind queue entries truncated r =
        (r.1 ≡ false)
        × (truncated ≡ false)
        × AreLevels r.0
        × (more : List AggregatedEntry) × (r.0 ≡ entries ++ more)
        × All (HasLevel r.0) queue
        × All (HasLevel r.0) (opened more)

    abbrev pub IsComplete :
        List Text → List AggregatedEntry → Bool → Option (List AggregatedEntry × Bool) → Type 0
    IsComplete queue entries truncated none = ⊥
    IsComplete queue entries truncated (some r) =
        (length r.0 ≤ max_entries)
        × (IsWholeBehind queue entries truncated r ⊎ ((r.1 ≡ true) × (IsCut ⊎ IsOutOfRoom r.0)))

    ended :
        (entries : List AggregatedEntry) (truncated : Bool)
        → length entries ≤ max_entries
        → IsSoFar entries truncated
        → IsComplete [] entries truncated (some (entries, truncated))
    ended entries truncated few (inl (e, levels)) =
        (few, inl (e, e, levels, [], sym (append-nil entries), tt, tt))
    ended entries truncated few (inr (e, why)) = (few, inr (e, inl why))

    skipped :
        (p : Text) (queue : List Text) (entries : List AggregatedEntry) (truncated : Bool)
        (o : Option (List AggregatedEntry × Bool))
        → find_parent p parents ≡ none
        → IsComplete queue entries truncated o
        → IsComplete (p ∷ queue) entries truncated o
    skipped p queue entries truncated none e h = absurd h
    skipped p queue entries truncated (some r) e (few, inr why) = (few, inr why)
    skipped p queue entries truncated (some r) e (few, inl (a, b, c, more, d, q, m)) =
        (few, inl (a, b, c, more, d, (rw (e) tt, q), m))

    level_added :
        (p : Text) (parent : Parent) (queue : List Text) (entries level : List AggregatedEntry)
        (truncated short : Bool) (o : Option (List AggregatedEntry × Bool))
        → find_parent p parents ≡ some parent
        → ((short ≡ false) × IsLevel p parent level) ⊎ (short ≡ true)
        → IsComplete (queue ++ opened level) (entries ++ level) (truncated || short) o
        → IsComplete (p ∷ queue) entries truncated o
    level_added p parent queue entries level truncated short none e l h = absurd h
    level_added p parent queue entries level truncated short (some r) e l (few, inr why) =
        (few, inr why)
    level_added p parent queue entries level truncated short (some r) e (inr s)
          (few, inl (a, b, c, more, d, q, m)) =
        absurd (ground (arith, b, s))
    level_added p parent queue entries level truncated short (some r) e (inl (s, l))
          (few, inl (a, b, c, more, d, q, m)) =
        let (left, right) = All_parts (HasLevel r.0) queue (opened level) q in
        let whole : r.0 ≡ entries ++ (level ++ more) = d ∙ append_assoc entries level more in
        (
          few,
          inl (
            a,
            ground (arith, b, s),
            c,
            level ++ more,
            whole,
            (rw (e) (entries, level, more, d, l), left),
            opened-append (HasLevel r.0) level more right m,
          ),
        )

    append-IsSoFar :
        (p : Text) (parent : Parent) (entries level : List AggregatedEntry) (truncated short : Bool)
        → find_parent p parents ≡ some parent
        → ((short ≡ false) × IsLevel p parent level)
          ⊎ ((short ≡ true) × (parent.bytes < sum_bytes (kept parent)))
        → IsSoFar entries truncated
        → IsSoFar (entries ++ level) (truncated || short)
    append-IsSoFar p parent entries level truncated short e l (inr (t, why)) =
        inr (ground (arith, t), why)
    append-IsSoFar p parent entries level truncated short e (inr (s, over)) (inl (t, levels)) =
        inr (ground (arith, t, s), inr (p, parent, e, over))
    append-IsSoFar p parent entries level truncated short e (inl (s, l)) (inl (t, levels)) =
        inl (ground (arith, t, s), next_level entries level p parent levels e l)

    pub emit_levels-IsComplete :
        (fuel : ℕ) (queue : List Text) (entries : List AggregatedEntry) (truncated : Bool)
        → length queue + max_entries ≤ fuel + length entries
        → length entries ≤ max_entries
        → IsSoFar entries truncated
        → IsComplete queue entries truncated
            (emit_levels child_floor options parents total fuel queue entries truncated)
    unfolding emit_levels
    emit_levels-IsComplete zero [] entries truncated enough few far =
        ended entries truncated few far
    emit_levels-IsComplete (suc fuel) [] entries truncated enough few far =
        ended entries truncated few far
    emit_levels-IsComplete zero (p ∷ queue) entries truncated enough few far = absurd (omega arith)
    emit_levels-IsComplete (suc fuel) (p ∷ queue) entries truncated enough few far =
        elim (Option-cases (find_parent p parents)) [
          | inl e ↦
              rw (emit_levels, e)
                (skipped p queue entries truncated _ e
                  (emit_levels-IsComplete fuel queue entries truncated (omega arith) few far))
          | inr (parent, e) ↦
              let level = (level_of child_floor parent p total).0 in
              let short = (level_of child_floor parent p total).1 in
              let (size, kind) = level_of-IsLevel p parent in
              rw (emit_levels, e)
                (if_either (IsComplete (p ∷ queue) entries truncated)
                  (ltb max_entries (length entries + length level))
                  (λ full. (few, inr (refl, inr (p, parent, e, ground (arith, full, size)))))
                  (λ fits.
                    let room : length entries + length level ≤ max_entries = ground (arith, fits) in
                    level_added p parent queue entries level truncated short _ e (kind_of kind) (
                      emit_levels-IsComplete fuel (queue ++ opened level) (entries ++ level)
                        (truncated || short)
                        (omega
                          (arith, length-opened queue level, length-append entries level, enough))
                        (omega (arith, length-append entries level, room))
                        (append-IsSoFar p parent entries level truncated short e kind far))))
        ]
      where
        kind_of : {A B C : Type 0} → A ⊎ (B × C) → A ⊎ B
        kind_of (inl a) = inl a
        kind_of (inr b) = inr b.0
