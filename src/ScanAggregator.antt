-- ===== src/ScanAggregator.antt =====
-- nest-api/src/scans/scan-aggregator.ts, with the bounds of nest-api/src/scans/scan-limits.ts: the
-- records of `du` folded into the levels of a treemap and three facts. `child_floor` is the share of
-- the total below which a child is left out, `Math.floor(Number(total) * MIN_CHILD_SHARE)`, which is
-- computed in floating point and of which nothing else is used.
pub mod Emit
pub mod Tops
pub mod Largest
pub mod Told
pub mod Treemap
pub mod Levels
pub mod Bounds
mod Tests
mod Types
pub use Types.{
  EntryKind, AggregatedEntry, LargestFile, DuplicateCandidate, Parent, AggregatorOptions, DuRecord,
  Aggregator, AggregateResult,
}
use trekker.Prelude.{
  ℕ, zero, suc, ◌+◌, ◌-◌, ◌*◌, Bool, true, false, not, ◌&&◌, ◌||◌, Option, none, some, List, [],
  ◌∷◌, ◌++◌, map, if◌then◌else◌, ltb, leb, ◌==◌, length, filter, all,
}
use trekker.Text.{Text, codes, text_eq, is_empty, starts_with, trim_end}
use trekker.Posix.{dirname}

abbrev pub top_per_parent : ℕ
top_per_parent = 24

abbrev pub max_parents : ℕ
max_parents = 20000

abbrev pub max_entries : ℕ
max_entries = 20000

-- Milliseconds: 365 days.
abbrev pub old_file_age_ms : ℕ
old_file_age_ms = 31536000000

abbrev pub min_dup_bytes : ℕ
min_dup_bytes = 1048576

abbrev pub max_size_keys : ℕ
max_size_keys = 200000

abbrev pub max_paths_per_size : ℕ
max_paths_per_size = 32

unfoldable pub normalise : Text → Text
unfolding text_eq trim_end
normalise path =
    let trimmed = trim_end 47 path in
    if text_eq path (codes "/") then path else if is_empty trimmed then codes "/" else trimmed

abbrev pub root_of : AggregatorOptions → Text
root_of options = normalise options.root

abbrev pub no_records : Aggregator
no_records = record {
  parents = [];
  previous_path = none;
  root_bytes = none;
  inodes = 0;
  truncated = false;
  largest = none;
  old_file_count = 0;
  old_file_bytes = 0;
  by_size = [];
  duplicates_dropped = 0;
}

abbrev pub is_parent_of : Text → Option Text → Bool
is_parent_of path none = false
is_parent_of path (some previous) = text_eq (dirname previous) path

-- A record is a directory's if the record before it was one of its children.
unfoldable pub is_directory : Text → Option Text → Text → Bool
unfolding text_eq dirname
is_directory root previous path = text_eq path root || is_parent_of path previous

-- What stands behind a prefix.
unfoldable pub after_prefix : Text → Text → Option Text
after_prefix [] s = some s
after_prefix (a ∷ p) [] = none
after_prefix (a ∷ p) (b ∷ s) = if a == b then after_prefix p s else none

unfoldable pub slashes : Text → ℕ
slashes [] = 0
slashes (c ∷ s) = let rest = slashes s in if c == 47 then suc rest else rest

-- `none` for the -1 of a path that is not under the root.
abbrev pub depth_behind : Option Text → Option ℕ
depth_behind none = none
depth_behind (some []) = some 0
depth_behind (some (c ∷ rest)) = some (suc (slashes (c ∷ rest)))

unfoldable pub depth_of : Text → Text → Option ℕ
unfolding text_eq after_prefix slashes
depth_of root path =
    if text_eq path root
    then some 0
    else depth_behind
        (after_prefix (if text_eq root (codes "/") then codes "/" else root ++ codes "/") path)

unfoldable pub find_parent : Text → List (Text × Parent) → Option Parent
unfolding text_eq
find_parent path [] = none
find_parent path ((p, parent) ∷ parents) =
    let rest = find_parent path parents in if text_eq p path then some parent else rest

-- Writes the parent that is there.
unfoldable pub update_parent :
    Text → (Parent → Parent) → List (Text × Parent) → List (Text × Parent)
unfolding text_eq
update_parent path f [] = []
update_parent path f ((p, parent) ∷ parents) =
    let rest = update_parent path f parents in
    if text_eq p path then (p, f parent) ∷ parents else (p, parent) ∷ rest

abbrev pub with_bytes : ℕ → Parent → Parent
with_bytes bytes parent = record parent { bytes = bytes }

-- `parents.set` of a path that is not there yet.
unfoldable pub new_parent : Text → Parent → Aggregator → Aggregator
new_parent path parent s =
    if leb max_parents (length s.parents)
    then record s { truncated = true }
    else record s { parents = s.parents ++ ((path, parent) ∷ []) }

unfoldable pub close_parent : Text → ℕ → ℕ → Aggregator → Aggregator
unfolding find_parent update_parent new_parent
close_parent path bytes depth s = elim (find_parent path s.parents) [
  | some _ ↦ record s { parents = update_parent path (with_bytes bytes) s.parents }
  | none ↦ new_parent path (record { bytes = bytes; depth = depth; top = [] }) s
]

-- The entry goes in front of the run of smaller ones at the end.
unfoldable pub splice : AggregatedEntry → List AggregatedEntry → List AggregatedEntry
splice entry [] = entry ∷ []
splice entry (e ∷ top) =
    let rest = splice entry top in
    if all (λ (x : AggregatedEntry). ltb x.bytes entry.bytes) (e ∷ top)
    then entry ∷ e ∷ top
    else e ∷ rest

-- `pop` of a list, with the last element.
unfoldable pub pop : List AggregatedEntry → Option (List AggregatedEntry × AggregatedEntry)
pop [] = none
pop (e ∷ top) = elim (pop top) [ none ↦ some ([], e) | some (rest, l) ↦ some (e ∷ rest, l) ]

abbrev pub replace_last :
    AggregatedEntry
    → List AggregatedEntry
    → Option (List AggregatedEntry × AggregatedEntry)
    → List AggregatedEntry
replace_last entry top none = splice entry top
replace_last entry top (some (rest, l)) = if leb entry.bytes l.bytes then top else splice entry rest

-- The largest children of a parent, with one more.
unfoldable pub offer_top : AggregatedEntry → List AggregatedEntry → List AggregatedEntry
unfolding pop splice
offer_top entry top =
    if leb top_per_parent (length top) then replace_last entry top (pop top) else splice entry top

abbrev pub with_offer : AggregatedEntry → Parent → Parent
with_offer entry parent = record parent { top = offer_top entry parent.top }

unfoldable pub offer : Text → ℕ → AggregatedEntry → Aggregator → Aggregator
unfolding find_parent update_parent new_parent offer_top
offer parent_path parent_depth entry s = elim (find_parent parent_path s.parents) [
  | some _ ↦ record s { parents = update_parent parent_path (with_offer entry) s.parents }
  | none ↦
      new_parent parent_path (record { bytes = 0; depth = parent_depth; top = offer_top entry [] })
        s
]

unfoldable pub find_size : ℕ → List (ℕ × List Text) → Option (List Text)
find_size bytes [] = none
find_size bytes ((b, paths) ∷ sizes) =
    let rest = find_size bytes sizes in if b == bytes then some paths else rest

unfoldable pub push_path : ℕ → Text → List (ℕ × List Text) → List (ℕ × List Text)
push_path bytes path [] = []
push_path bytes path ((b, paths) ∷ sizes) =
    let rest = push_path bytes path sizes in
    if b == bytes then (b, paths ++ (path ∷ [])) ∷ sizes else (b, paths) ∷ rest

unfoldable pub record_size : Text → ℕ → Aggregator → Aggregator
unfolding find_size push_path
record_size path bytes s = elim (find_size bytes s.by_size) [
  | some paths ↦
      if ltb (length paths) max_paths_per_size
      then record s { by_size = push_path bytes path s.by_size }
      else record s { duplicates_dropped = suc s.duplicates_dropped }
  | none ↦
      if leb max_size_keys (length s.by_size)
      then record s { duplicates_dropped = suc s.duplicates_dropped; truncated = true }
      else record s { by_size = s.by_size ++ ((bytes, path ∷ []) ∷ []) }
]

abbrev pub larger : Text → ℕ → Option LargestFile → Option LargestFile
larger path bytes none = some (record { path = path; bytes = bytes })
larger path bytes (some l) =
    if ltb l.bytes bytes then some (record { path = path; bytes = bytes }) else some l

-- `mtimeMs < now - OLD_FILE_AGE_MS`, the age on the other side.
abbrev pub is_old : AggregatorOptions → Option ℕ → Bool
is_old options none = false
is_old options (some mtime) = options.has_time && ltb (mtime + old_file_age_ms) options.now

unfoldable pub record_facts : AggregatorOptions → Text → DuRecord → Aggregator → Aggregator
unfolding record_size
record_facts options path r s =
    let seen = record s {
      largest = larger path r.bytes s.largest;
      old_file_count = if is_old options r.mtime_ms then suc s.old_file_count else s.old_file_count;
      old_file_bytes =
          if is_old options r.mtime_ms then s.old_file_bytes + r.bytes else s.old_file_bytes;
    } in
    if options.has_files
    then (if ltb r.bytes min_dup_bytes then seen else record_size path r.bytes seen)
    else s

abbrev pub entry_of : Text → ℕ → ℕ → Bool → AggregatedEntry
entry_of path bytes depth directory = record {
  path = path;
  bytes = bytes;
  parent_path = dirname path;
  depth = depth;
  kind = if directory then EntryKind.directory else EntryKind.file;
}

-- `if (parentDepth < 0) return` of `offer`, which a depth of 0 gives.
abbrev pub offer_at : ℕ → Text → AggregatedEntry → Aggregator → Aggregator
offer_at zero path entry s = s
offer_at (suc parent_depth) path entry s = offer (dirname path) parent_depth entry s

-- A record below the root, at a depth.
unfoldable pub add_inside : AggregatorOptions → Text → Bool → ℕ → DuRecord → Aggregator → Aggregator
unfolding record_facts close_parent offer
add_inside options path directory depth r s =
    let facts = if directory then s else record_facts options path r s in
    let closed =
      if directory && ltb depth options.depth
      then close_parent path r.bytes depth facts
      else facts in
    if leb depth options.depth
    then offer_at depth path (entry_of path r.bytes depth directory) closed
    else closed

abbrev pub add_at : AggregatorOptions → Text → Bool → Option ℕ → DuRecord → Aggregator → Aggregator
add_at options path directory none r s = s
add_at options path directory (some depth) r s = add_inside options path directory depth r s

unfoldable pub add : AggregatorOptions → DuRecord → Aggregator → Aggregator
unfolding normalise is_directory depth_of add_inside close_parent text_eq
add options r s =
    let path = normalise r.path in
    let directory = is_directory (root_of options) s.previous_path path in
    let counted = record s { previous_path = some path; inodes = suc s.inodes } in
    if text_eq path (root_of options)
    then close_parent (root_of options) r.bytes 0 (record counted { root_bytes = some r.bytes })
    else add_at options path directory (depth_of (root_of options) path) r counted

unfoldable pub add_all : AggregatorOptions → List DuRecord → Aggregator → Aggregator
unfolding add
add_all options [] s = s
add_all options (r ∷ rs) s = add_all options rs (add options r s)
