-- ===== src/ScanAggregator/Told.antt =====
-- nest-api/src/scans/scan-aggregator.ts: where the sizes of the parents come from.
use trekker.Prelude.{
  ℕ, zero, suc, ◌+◌, ◌≡◌, refl, sym, subst, inl, inr, ◌⊎◌, Bool, true, ◌&&◌, Option, none, some,
  List, [], ◌∷◌, ◌++◌, if◌then◌else◌, ltb, leb, if_either, Bool-cases, All, All-append, Some,
  length,
}
use trekker.Text.{Text, text_eq}
use trekker.Text.Laws.{eq_of_text_eq}
use trekker.ScanAggregator.{
  AggregatedEntry, Parent, AggregatorOptions, DuRecord, Aggregator, max_parents, max_size_keys,
  max_paths_per_size, min_dup_bytes, no_records, find_parent, update_parent, with_bytes, new_parent,
  close_parent, offer_top, with_offer, offer, find_size, push_path, record_size, record_facts,
  offer_at, add_inside, add_at, add, add_all, root_of, normalise, is_directory, depth_of, larger,
  is_old,
}

-- `du` printed this size for the path, in one of the records.
abbrev pub IsPrinted : List DuRecord → Text → ℕ → Type 0
IsPrinted records path bytes =
    Some (λ (r : DuRecord). (normalise r.path ≡ path) × (r.bytes ≡ bytes)) records

module _ (P : Text → ℕ → Type 0) where
  -- The size of a parent is 0, as it is until its own record comes, or one that was printed for it.
  abbrev pub IsTold : Text × Parent → Type 0
  IsTold p = (p.1.bytes ≡ 0) ⊎ P p.0 p.1.bytes

  abbrev pub IsToldRoot : Text → Option ℕ → Type 0
  IsToldRoot root none = Unit
  IsToldRoot root (some bytes) = P root bytes

  abbrev AreTold : AggregatorOptions → Aggregator → Type 0
  AreTold options s = All IsTold s.parents × IsToldRoot (root_of options) s.root_bytes

  update-AreTold :
      (path : Text) (f : Parent → Parent) (ps : List (Text × Parent))
      → ((p : Text) (parent : Parent) → p ≡ path → IsTold (p, parent) → IsTold (p, f parent))
      → All IsTold ps
      → All IsTold (update_parent path f ps)
  unfolding update_parent
  update-AreTold path f [] g h = tt
  update-AreTold path f ((p, parent) ∷ ps) g (h, hs) =
      if_either (All IsTold) (text_eq p path) (λ e. (g p parent (eq_of_text_eq p path e) h, hs))
        (λ _. (h, update-AreTold path f ps g hs))

  module _ (options : AggregatorOptions) where
    new_parent-AreTold :
        (path : Text) (parent : Parent) (s : Aggregator)
        → IsTold (path, parent)
        → AreTold options s
        → AreTold options (new_parent path parent s)
    unfolding new_parent
    new_parent-AreTold path parent s t h =
        if_either (AreTold options) (leb max_parents (length s.parents)) (λ _. h)
          (λ _. (All-append IsTold s.parents ((path, parent) ∷ []) h.0 (t, tt), h.1))

    close_parent-AreTold :
        (path : Text) (bytes depth : ℕ) (s : Aggregator)
        → P path bytes
        → AreTold options s
        → AreTold options (close_parent path bytes depth s)
    unfolding close_parent
    close_parent-AreTold path bytes depth s printed h =
        elim (find_parent path s.parents)
          as (λ o. AreTold options (elim o [
            | some _ ↦ record s { parents = update_parent path (with_bytes bytes) s.parents }
            | none ↦ new_parent path (record { bytes = bytes; depth = depth; top = [] }) s
          ])) [
            | some _ ↦ (
              update-AreTold path (with_bytes bytes) s.parents
                  (λ p parent e _. inr (subst (λ q. P q bytes) (sym e) printed)) h.0,
              h.1,
            )
            | none ↦ new_parent-AreTold path _ s (inr printed) h
          ]

    offer-AreTold :
        (path : Text) (depth : ℕ) (entry : AggregatedEntry) (s : Aggregator)
        → AreTold options s
        → AreTold options (offer path depth entry s)
    unfolding offer
    offer-AreTold path depth entry s h =
        elim (find_parent path s.parents)
          as (λ o. AreTold options (elim o [
            | some _ ↦ record s { parents = update_parent path (with_offer entry) s.parents }
            | none ↦
                new_parent path (record { bytes = 0; depth = depth; top = offer_top entry [] }) s
          ])) [
            | some _ ↦
                (update-AreTold path (with_offer entry) s.parents (λ p parent e t. t) h.0, h.1)
            | none ↦ new_parent-AreTold path _ s (inl refl) h
          ]

    record_size-AreTold :
        (path : Text) (bytes : ℕ) (s : Aggregator)
        → AreTold options s
        → AreTold options (record_size path bytes s)
    unfolding record_size
    record_size-AreTold path bytes s h =
        elim (find_size bytes s.by_size)
          as (λ o. AreTold options (elim o [
            | some paths ↦
                if ltb (length paths) max_paths_per_size
                then record s { by_size = push_path bytes path s.by_size }
                else record s { duplicates_dropped = suc s.duplicates_dropped }
            | none ↦
                if leb max_size_keys (length s.by_size)
                then record s { duplicates_dropped = suc s.duplicates_dropped; truncated = true }
                else record s { by_size = s.by_size ++ ((bytes, path ∷ []) ∷ []) }
          ])) [
            | some paths ↦
                if_either (AreTold options) (ltb (length paths) max_paths_per_size) (λ _. h)
                  (λ _. h)
            | none ↦
                if_either (AreTold options) (leb max_size_keys (length s.by_size)) (λ _. h) (λ _. h)
          ]

    record_facts-AreTold :
        (path : Text) (r : DuRecord) (s : Aggregator)
        → AreTold options s
        → AreTold options (record_facts options path r s)
    unfolding record_facts
    record_facts-AreTold path r s h =
        if_either (AreTold options) options.has_files
          (λ _.
            if_either (AreTold options) (ltb r.bytes min_dup_bytes) (λ _. h)
              (λ _.
                record_size-AreTold path r.bytes
                  (record s {
                    largest = larger path r.bytes s.largest;
                    old_file_count =
                        if is_old options r.mtime_ms
                        then suc s.old_file_count
                        else s.old_file_count;
                    old_file_bytes =
                        if is_old options r.mtime_ms
                        then s.old_file_bytes + r.bytes
                        else s.old_file_bytes;
                  })
                  h))
          (λ _. h)

    offer_at-AreTold :
        (depth : ℕ) (path : Text) (entry : AggregatedEntry) (s : Aggregator)
        → AreTold options s
        → AreTold options (offer_at depth path entry s)
    offer_at-AreTold zero path entry s h = h
    offer_at-AreTold (suc d) path entry s h = offer-AreTold _ d entry s h

    add_inside-AreTold :
        (path : Text) (directory : Bool) (depth : ℕ) (r : DuRecord) (s : Aggregator)
        → P path r.bytes
        → AreTold options s
        → AreTold options (add_inside options path directory depth r s)
    unfolding add_inside
    add_inside-AreTold path directory depth r s printed h =
        let seen = if directory then s else record_facts options path r s in
        let facts =
          if_either (AreTold options) directory {x = s} {y = record_facts options path r s} (λ _. h)
            (λ _. record_facts-AreTold path r s h) in
        let closed =
          if_either (AreTold options) (directory && ltb depth options.depth)
            {x = close_parent path r.bytes depth seen} {y = seen}
            (λ _. close_parent-AreTold path r.bytes depth _ printed facts) (λ _. facts) in
        if_either (AreTold options) (leb depth options.depth)
          (λ _. offer_at-AreTold depth path _ _ closed) (λ _. closed)

    add-AreTold :
        (r : DuRecord) (s : Aggregator)
        → P (normalise r.path) r.bytes
        → AreTold options s
        → AreTold options (add options r s)
    unfolding add
    add-AreTold r s printed h =
        let path = normalise r.path in
        if_either (AreTold options) (text_eq path (root_of options))
          (λ e.
            let own : P (root_of options) r.bytes =
              subst (λ p. P p r.bytes) (eq_of_text_eq path (root_of options) e) printed in
            close_parent-AreTold (root_of options) r.bytes 0 _ own (h.0, own))
          (λ _. inside (depth_of (root_of options) path))
      where
        inside :
            (d : Option ℕ)
            → AreTold options (
                add_at options
                  (normalise r.path)
                  (is_directory (root_of options) s.previous_path (normalise r.path))
                  d
                  r
                  (record s { previous_path = some (normalise r.path); inodes = suc s.inodes }))
        inside none = h
        inside (some d) =
            add_inside-AreTold (normalise r.path)
              (is_directory (root_of options) s.previous_path (normalise r.path)) d r
              (record s { previous_path = some (normalise r.path); inodes = suc s.inodes }) printed
              h

    add_all-AreTold :
        (rs : List DuRecord) (s : Aggregator)
        → All (λ (r : DuRecord). P (normalise r.path) r.bytes) rs
        → AreTold options s
        → AreTold options (add_all options rs s)
    unfolding add_all
    add_all-AreTold [] s all h = h
    add_all-AreTold (r ∷ rs) s (p, all) h =
        add_all-AreTold rs (add options r s) all (add-AreTold r s p h)

all-IsPrinted :
    (rs records : List DuRecord)
    → ((p : Text) (bytes : ℕ) → IsPrinted rs p bytes → IsPrinted records p bytes)
    → All (λ (r : DuRecord). IsPrinted records (normalise r.path) r.bytes) rs
all-IsPrinted [] records f = tt
all-IsPrinted (r ∷ rs) records f = (
  f (normalise r.path) r.bytes (inl (refl, refl)),
  all-IsPrinted rs records (λ p b i. f p b (inr i)),
)

-- After any records, the size of a parent is one that was printed for it, or 0, and the size of the root one
-- that was printed for the root.
pub add_all-IsPrinted :
    (options : AggregatorOptions) (records : List DuRecord)
    → let s : Aggregator = add_all options records no_records in
      All (IsTold (IsPrinted records)) s.parents
      × IsToldRoot (IsPrinted records) (root_of options) s.root_bytes
add_all-IsPrinted options records =
    add_all-AreTold (IsPrinted records) options records no_records
      (all-IsPrinted records records (λ p b i. i)) (tt, tt)

pub find_parent-IsTold :
    (P : Text → ℕ → Type 0) (path : Text) (parent : Parent) (ps : List (Text × Parent))
    → find_parent path ps ≡ some parent
    → All (IsTold P) ps
    → IsTold P (path, parent)
unfolding find_parent
find_parent-IsTold P path parent [] e h = cc
find_parent-IsTold P path parent ((p, other) ∷ ps) e (h, hs) = elim (Bool-cases (text_eq p path)) [
  | inl same ↦
      let this : other ≡ parent = cc (rw (same) at e) in
      subst (λ q. IsTold P (q, parent)) (eq_of_text_eq p path same)
        (subst (λ o. IsTold P (p, o)) this h)
  | inr not_it ↦ find_parent-IsTold P path parent ps (rw (not_it) at e) hs
]
