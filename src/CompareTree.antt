-- ===== src/CompareTree.antt =====
-- nest-api/src/compare/compare-tree.ts: the paired walk of two trees. A listing is a function that
-- gives no entries where the host could not list; the two trees do not change during the walk.
pub mod Verdicts
pub mod Rows
pub mod Bounds
pub mod Coverage
pub mod Covering
mod Tests
mod Types
pub use Types.{
  FileKind, Verdict, only_a, only_b, differs, identical, inconclusive, Reason, FileEntry, SideFacts,
  CompareEntry, CompareWalk, CompareDeps,
}
use trekker.Prelude.{
  ℕ, zero, suc, ◌+◌, ◌-◌, Bool, true, false, ◌&&◌, Option, none, some, List, [], ◌∷◌, ◌++◌, map,
  if◌then◌else◌, ltb, leb, ◌==◌, length, filter,
}
use trekker.Text.{Text, codes, text_eq, is_empty}
use trekker.Posix.{posix_join}

abbrev pub kind_code : FileKind → ℕ
kind_code FileKind.file = 0
kind_code FileKind.directory = 1
kind_code FileKind.symlink = 2
kind_code FileKind.block = 3
kind_code FileKind.character = 4
kind_code FileKind.fifo = 5
kind_code FileKind.socket = 6
kind_code FileKind.unknown = 7

abbrev pub kind_eq : FileKind → FileKind → Bool
kind_eq k l = kind_code k == kind_code l

abbrev pub is_kind : FileKind → Option FileEntry → Bool
is_kind k none = false
is_kind k (some e) = kind_eq e.kind k

-- Two links, by what they point at.
unfoldable pub decide_links : Option Text → Option Text → Verdict × Reason
unfolding text_eq
decide_links (some s) (some t) =
    if text_eq s t then (identical, Reason.link) else (differs, Reason.link)
decide_links _ _ = (inconclusive, Reason.link)

unfoldable pub decide : Option FileEntry → Option FileEntry → Verdict × Reason
unfolding decide_links
decide (some a) none = (only_a, Reason.name)
decide none (some b) = (only_b, Reason.name)
decide none none = (inconclusive, Reason.name)
decide (some a) (some b) =
    if kind_eq a.kind b.kind
    then (if kind_eq a.kind FileKind.symlink
        then decide_links a.link_target b.link_target
        else if a.size == b.size
        then (if a.mtime_ms == b.mtime_ms
            then (inconclusive, Reason.hash)
            else (differs, Reason.mtime))
        else (differs, Reason.size))
    else (differs, Reason.kind)

unfoldable pub facts_of : FileEntry → SideFacts
facts_of e = record {
  kind = e.kind;
  size = e.size;
  mtime_ms = e.mtime_ms;
  link_target = e.link_target;
}

unfoldable pub facts_of_found : Option FileEntry → Option SideFacts
unfolding facts_of
facts_of_found none = none
facts_of_found (some e) = some (facts_of e)

-- The map that `index` builds: a later entry replaces an earlier one of its name.
unfoldable pub find : Text → List FileEntry → Option FileEntry
unfolding text_eq
find n [] = none
find n (e ∷ es) = elim (find n es) [
  | some later ↦ some later
  | none ↦ if text_eq e.name n then some e else none
]

-- The order of `sort()`: by code units.
unfoldable pub text_lt : Text → Text → Bool
text_lt s [] = false
text_lt [] (d ∷ t) = true
text_lt (c ∷ s) (d ∷ t) = let rest = text_lt s t in if c == d then rest else ltb c d

unfoldable pub insert_name : Text → List Text → List Text
unfolding text_eq text_lt
insert_name n [] = n ∷ []
insert_name n (m ∷ ms) =
    let rest = insert_name n ms in
    if text_eq m n then m ∷ ms else if text_lt n m then n ∷ m ∷ ms else m ∷ rest

-- The names of the entries, sorted, each once.
unfoldable pub names_of : List FileEntry → List Text
unfolding insert_name
names_of [] = []
names_of (e ∷ es) = insert_name e.name (names_of es)

abbrev pub max_unreadable_named : ℕ
max_unreadable_named = 20

unfoldable pub note_unreadable : Text → CompareWalk → CompareWalk
note_unreadable relative walk = record {
  entries = walk.entries;
  truncated = walk.truncated;
  unreadable =
      if ltb (length walk.unreadable) max_unreadable_named
      then walk.unreadable ++ ((if is_empty relative then codes "." else relative) ∷ [])
      else walk.unreadable;
  unreadable_count = suc walk.unreadable_count;
}

unfoldable pub truncate : CompareWalk → CompareWalk
truncate walk = record {
  entries = walk.entries;
  truncated = true;
  unreadable = walk.unreadable;
  unreadable_count = walk.unreadable_count;
}

unfoldable pub push : ℕ → CompareEntry → CompareWalk → CompareWalk
unfolding truncate
push ceiling entry walk = if leb ceiling (length walk.entries) then truncate walk else record {
  entries = walk.entries ++ (entry ∷ []);
  truncated = walk.truncated;
  unreadable = walk.unreadable;
  unreadable_count = walk.unreadable_count;
}

unfoldable pub child : Text → Text → Text
child relative n = if is_empty relative then n else relative ++ (47 ∷ n)

abbrev pub row_of : Text → ℕ → Option FileEntry → Option FileEntry → Verdict × Reason → CompareEntry
row_of path depth a b decided = record {
  path = path;
  depth = depth;
  a = facts_of_found a;
  b = facts_of_found b;
  verdict = decided.0;
  reason = decided.1;
}

abbrev pub are_directories : Option FileEntry → Option FileEntry → Bool
are_directories a b = is_kind FileKind.directory a && is_kind FileKind.directory b

-- A directory on both sides: opened where the depth allows, else a row that nobody compared.
unfoldable pub open_directory :
    ℕ
    → Option (Text → ℕ → CompareWalk → CompareWalk)
    → Text
    → ℕ
    → Option FileEntry
    → Option FileEntry
    → CompareWalk
    → CompareWalk
unfolding push truncate
open_directory ceiling (some descend) path depth a b walk = descend path (suc depth) walk
open_directory ceiling none path depth a b walk =
    truncate (push ceiling (row_of path depth a b (inconclusive, Reason.depth)) walk)

-- One turn of the loop over the names.
unfoldable pub compare_name :
    ℕ
    → Option (Text → ℕ → CompareWalk → CompareWalk)
    → Text
    → ℕ
    → Option FileEntry
    → Option FileEntry
    → CompareWalk
    → CompareWalk
unfolding open_directory decide push
compare_name ceiling deeper path depth a b walk =
    if are_directories a b
    then open_directory ceiling deeper path depth a b walk
    else push ceiling (row_of path depth a b (decide a b)) walk

unfoldable pub compare_names :
    ℕ
    → Option (Text → ℕ → CompareWalk → CompareWalk)
    → Text
    → ℕ
    → List FileEntry
    → List FileEntry
    → List Text
    → CompareWalk
    → CompareWalk
unfolding compare_name find child
compare_names ceiling deeper relative depth left right [] walk = walk
compare_names ceiling deeper relative depth left right (n ∷ names) walk =
    if walk.truncated
    then walk
    else compare_names ceiling deeper relative depth left right names
        (compare_name ceiling deeper (child relative n) depth (find n left) (find n right) walk)

-- `left ?? []`
abbrev pub listed : Option (List FileEntry) → List FileEntry
listed none = []
listed (some es) = es

abbrev pub note_missing : Option (List FileEntry) → Text → CompareWalk → CompareWalk
note_missing none relative walk = note_unreadable relative walk
note_missing (some es) relative walk = walk

-- The body of `descend`, with what opens a directory of the next level. Where neither side can be
-- listed there are no names, and the loop does nothing.
unfoldable pub visit :
    CompareDeps
    → Option (Text → ℕ → CompareWalk → CompareWalk)
    → Text
    → ℕ
    → CompareWalk
    → CompareWalk
unfolding compare_names names_of note_unreadable posix_join
visit deps deeper relative depth walk =
    let left = deps.list_a (posix_join deps.root_a relative) in
    let right = deps.list_b (posix_join deps.root_b relative) in
    let rows =
      compare_names deps.ceiling deeper relative depth (listed left) (listed right)
        (names_of (listed left ++ listed right))
        (note_missing right relative (note_missing left relative walk)) in
    if walk.truncated then walk else rows

-- `left` counts the levels that may be opened below this one: `depth + left` is the bound.
unfoldable pub descend : CompareDeps → ℕ → Text → ℕ → CompareWalk → CompareWalk
unfolding visit
descend deps zero relative depth walk = visit deps none relative depth walk
descend deps (suc left) relative depth walk =
    visit deps (some (descend deps left)) relative depth walk

abbrev pub no_walk : CompareWalk
no_walk = record { entries = []; truncated = false; unreadable = []; unreadable_count = 0 }

unfoldable pub compare_trees : CompareDeps → CompareWalk
unfolding descend
compare_trees deps = descend deps (deps.depth - 1) [] 1 no_walk

-- Whether a checksum could settle a row.
abbrev pub is_file : Option SideFacts → Bool
is_file none = false
is_file (some facts) = kind_eq facts.kind FileKind.file

abbrev pub awaits_hash : Verdict → Reason → Bool
awaits_hash inconclusive Reason.hash = true
awaits_hash _ _ = false

unfoldable pub needs_hash : CompareEntry → Bool
needs_hash e = awaits_hash e.verdict e.reason && is_file e.a && is_file e.b

unfoldable pub hashable_paths : List CompareEntry → Text → Text → List Text × List Text
unfolding needs_hash posix_join
hashable_paths entries root_a root_b =
    let hashable = filter needs_hash entries in
    (
      map (λ (e : CompareEntry). posix_join root_a e.path) hashable,
      map (λ (e : CompareEntry). posix_join root_b e.path) hashable,
    )
