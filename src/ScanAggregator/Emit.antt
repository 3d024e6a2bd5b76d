-- ===== src/ScanAggregator/Emit.antt =====
-- `finish` of nest-api/src/scans/scan-aggregator.ts: the rows of the treemap, level by level.
use trekker.Prelude.{
  ℕ, zero, suc, ◌+◌, ◌-◌, ◌*◌, Bool, true, false, ◌&&◌, ◌||◌, Option, none, some, List, [], ◌∷◌,
  ◌++◌, map, if◌then◌else◌, ltb, leb, ◌==◌, length, filter,
}
use trekker.Text.{Text}
use trekker.ScanAggregator.{
  EntryKind, AggregatedEntry, DuplicateCandidate, Parent, AggregatorOptions, Aggregator,
  AggregateResult, max_entries, root_of, find_parent,
}

unfoldable pub sum_bytes : List AggregatedEntry → ℕ
sum_bytes [] = 0
sum_bytes (e ∷ es) = e.bytes + sum_bytes es

abbrev pub other_entry : Text → Parent → ℕ → AggregatedEntry
other_entry parent_path parent remainder = record {
  path = parent_path;
  bytes = remainder;
  parent_path = parent_path;
  depth = suc parent.depth;
  kind = EntryKind.other;
}

-- The rectangles of one parent, and whether they had to be cut short.
unfoldable pub level_of : (ℕ → ℕ) → Parent → Text → ℕ → List AggregatedEntry × Bool
unfolding sum_bytes
level_of child_floor parent parent_path total =
    let kept =
      filter (λ (e : AggregatedEntry). leb (if ltb 0 total then child_floor total else 0) e.bytes)
        parent.top in
    let kept_bytes = sum_bytes kept in
    if ltb parent.bytes kept_bytes
    then (kept, true)
    else if parent.bytes == kept_bytes
    then (kept, false)
    else (kept ++ (other_entry parent_path parent (parent.bytes - kept_bytes) ∷ []), false)

abbrev pub is_directory_kind : EntryKind → Bool
is_directory_kind EntryKind.directory = true
is_directory_kind _ = false

abbrev pub opens : AggregatorOptions → AggregatedEntry → Bool
opens options e = is_directory_kind e.kind && ltb e.depth options.depth

-- The loop over the queue of parents. A run out of fuel is `none`.
unfoldable pub emit_levels :
    (ℕ → ℕ)
    → AggregatorOptions
    → List (Text × Parent)
    → ℕ
    → ℕ
    → List Text
    → List AggregatedEntry
    → Bool
    → Option (List AggregatedEntry × Bool)
unfolding find_parent level_of
emit_levels child_floor options parents total zero [] entries truncated = some (entries, truncated)
emit_levels child_floor options parents total (suc fuel) [] entries truncated =
    some (entries, truncated)
emit_levels child_floor options parents total zero (p ∷ queue) entries truncated = none
emit_levels child_floor options parents total (suc fuel) (p ∷ queue) entries truncated =
    elim (find_parent p parents) [
      | none ↦ emit_levels child_floor options parents total fuel queue entries truncated
      | some parent ↦
          let (level, short) = level_of child_floor parent p total in
          let more =
            emit_levels child_floor options parents total fuel
              (queue ++ map (λ (e : AggregatedEntry). e.path) (filter (opens options) level))
              (entries ++ level) (truncated || short) in
          if ltb max_entries (length entries + length level) then some (entries, true) else more
    ]

unfoldable pub insert_candidate :
    DuplicateCandidate → List DuplicateCandidate → List DuplicateCandidate
insert_candidate g [] = g ∷ []
insert_candidate g (h ∷ hs) =
    let rest = insert_candidate g hs in
    if ltb (g.bytes * (length g.paths - 1)) (h.bytes * (length h.paths - 1))
    then h ∷ rest
    else g ∷ h ∷ hs

-- Sizes that two files or more share, those that could give back most first.
unfoldable pub rank_candidates : List (ℕ × List Text) → List DuplicateCandidate
unfolding insert_candidate
rank_candidates [] = []
rank_candidates ((bytes, paths) ∷ sizes) =
    let rest = rank_candidates sizes in
    if ltb (length paths) 2
    then rest
    else insert_candidate (record { bytes = bytes; paths = paths }) rest

abbrev pub root_entry : AggregatorOptions → ℕ → AggregatedEntry
root_entry options total = record {
  path = root_of options;
  bytes = total;
  parent_path = [];
  depth = 0;
  kind = EntryKind.directory;
}

-- The rows of a walk: none without the record of the root.
unfoldable pub levels_from :
    (ℕ → ℕ) → AggregatorOptions → Aggregator → Option ℕ → Option (List AggregatedEntry × Bool)
unfolding emit_levels
levels_from child_floor options s none = some ([], s.truncated)
levels_from child_floor options s (some total) =
    emit_levels child_floor options s.parents total max_entries (root_of options ∷ [])
      (root_entry options total ∷ []) s.truncated

abbrev pub result_of :
    AggregatorOptions → Aggregator → List AggregatedEntry × Bool → AggregateResult
result_of options s (entries, truncated) = record {
  total_bytes = s.root_bytes;
  inodes = if options.has_files then some s.inodes else none;
  entries = entries;
  largest = s.largest;
  old_file_count = s.old_file_count;
  old_file_bytes = s.old_file_bytes;
  duplicate_candidates = rank_candidates s.by_size;
  duplicates_dropped = s.duplicates_dropped;
  truncated = truncated;
}

unfoldable pub finish : (ℕ → ℕ) → AggregatorOptions → Aggregator → Option AggregateResult
unfolding levels_from rank_candidates
finish child_floor options s = elim (levels_from child_floor options s s.root_bytes) [
  | none ↦ none
  | some rows ↦ some (result_of options s rows)
]
