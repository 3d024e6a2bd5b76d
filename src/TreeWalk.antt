-- ===== src/TreeWalk.antt =====
-- nest-api/src/fs/tree-walk.ts: the bounded walk that recursive operations go through. The driver's `list`
-- and `stat` are arguments.
pub mod Bounds
pub mod Growth
pub mod Coverage
pub mod Paths
pub mod Order
mod Tests
use trekker.Prelude.{
  ℕ, zero, suc, ◌+◌, Bool, true, false, not, ◌&&◌, Option, none, some, List, [], ◌∷◌, ◌++◌,
  if◌then◌else◌, ltb, length,
}
use trekker.Text.{Text}
use trekker.Posix.{ends_with_slash}
use trekker.CompareTree.{FileKind}

abbrev pub max_depth : ℕ
max_depth = 64

-- A user or a group; -1 where there is none to name.
pub data AccountId : Type 0 where
  minus_one : AccountId
  account : ℕ → AccountId

pub record FileEntry : Type 0 where
  pub name : Text
  pub kind : FileKind
  pub size : ℕ
  pub mode : ℕ
  pub uid : AccountId
  pub gid : AccountId
  pub mtime_ms : ℕ

pub record WalkedEntry : Type 0 where
  pub path : Text
  pub kind : FileKind
  pub size : ℕ
  pub uid : AccountId
  pub gid : AccountId
  pub mode : ℕ
  pub mtime_ms : ℕ

pub record Walked : Type 0 where
  pub paths : List Text
  pub details : List WalkedEntry
  pub exceeded : Bool
  pub unreadable : List Text
  pub skipped_links : ℕ

-- What `list` answers, and the error that is no failure.
pub data Listing : Type 0 where
  listed : List FileEntry → Listing
  not_directory unlisted : Listing

pub record Driver : Type 0 where
  pub list : Text → Listing
  pub stat : Text → Option FileEntry

unfoldable pub join_name : Text → Text → Text
unfolding ends_with_slash
join_name directory name =
    if ends_with_slash directory then directory ++ name else directory ++ (47 ∷ name)

abbrev pub walked_of : Text → FileEntry → WalkedEntry
walked_of path entry = record {
  path = path;
  kind = entry.kind;
  size = entry.size;
  uid = entry.uid;
  gid = entry.gid;
  mode = entry.mode;
  mtime_ms = entry.mtime_ms;
}

abbrev pub is_symlink : FileEntry → Bool
is_symlink entry = elim entry.kind [ FileKind.symlink ↦ true | _ ↦ false ]

abbrev pub is_directory : FileEntry → Bool
is_directory entry = elim entry.kind [ FileKind.directory ↦ true | _ ↦ false ]

unfoldable pub record_entry : ℕ → Text → FileEntry → Walked → Walked
record_entry ceiling full entry walk =
    let paths = walk.paths ++ (full ∷ []) in
    record walk {
      paths = paths;
      details = walk.details ++ (walked_of full entry ∷ []);
      exceeded = if ltb ceiling (length paths) then true else walk.exceeded;
    }

abbrev pub count_link : FileEntry → Walked → Walked
count_link entry walk =
    if is_symlink entry then record walk { skipped_links = walk.skipped_links + 1 } else walk

-- A directory is walked before it is recorded.
abbrev pub go_in : (Text → Walked → Walked) → Text → FileEntry → Walked → Walked
go_in deeper full entry walk = if is_directory entry then deeper full walk else walk

-- The body of the loop over the entries of a directory; `deeper` goes on below it. Once the walk has
-- exceeded, what is left of the loop does nothing.
unfoldable pub visit : (Text → Walked → Walked) → ℕ → Bool → Text → FileEntry → Walked → Walked
unfolding record_entry join_name
visit deeper ceiling include_links directory entry walk =
    let counted = count_link entry walk in
    let full = join_name directory entry.name in
    let inside = go_in deeper full entry counted in
    if walk.exceeded
    then walk
    else if is_symlink entry && not include_links
    then counted
    else if inside.exceeded
    then inside
    else record_entry ceiling full entry inside

unfoldable pub visit_each :
    (Text → Walked → Walked) → ℕ → Bool → Text → List FileEntry → Walked → Walked
unfolding visit
visit_each deeper ceiling include_links directory [] walk = walk
visit_each deeper ceiling include_links directory (e ∷ es) walk =
    visit_each deeper ceiling include_links directory es
      (visit deeper ceiling include_links directory e walk)

-- `descend` once the directory was listed.
abbrev pub after_list : (Text → Walked → Walked) → ℕ → Bool → Text → Listing → Walked → Walked
after_list deeper ceiling include_links directory (listed es) walk =
    visit_each deeper ceiling include_links directory es walk
after_list deeper ceiling include_links directory not_directory walk = walk
after_list deeper ceiling include_links directory unlisted walk = record walk {
  unreadable = walk.unreadable ++ (directory ∷ []);
}

-- `descend`, by the levels below this one that may still be entered: 64 less the depth.
unfoldable pub descend : Driver → ℕ → Bool → ℕ → Text → Walked → Walked
unfolding visit_each
descend driver ceiling include_links zero directory walk =
    if walk.exceeded
    then walk
    else after_list (λ _ w. w) ceiling include_links directory (driver.list directory) walk
descend driver ceiling include_links (suc levels) directory walk =
    if walk.exceeded
    then walk
    else after_list (descend driver ceiling include_links levels) ceiling include_links directory
        (driver.list directory) walk

unfoldable pub describe_root : Driver → Text → WalkedEntry
describe_root driver root = elim (driver.stat root) [
  | some stat ↦ walked_of root stat
  | none ↦ record {
    path = root;
    kind = FileKind.unknown;
    size = 0;
    uid = minus_one;
    gid = minus_one;
    mode = 0;
    mtime_ms = 0;
  }
]

abbrev pub nothing_walked : Walked
nothing_walked = record {
  paths = [];
  details = [];
  exceeded = false;
  unreadable = [];
  skipped_links = 0;
}

abbrev pub add_root : Driver → Text → Walked → Walked
add_root driver root walk = record walk {
  paths = walk.paths ++ (root ∷ []);
  details = walk.details ++ (describe_root driver root ∷ []);
}

unfoldable pub walk_tree : Driver → Text → ℕ → Bool → Walked
unfolding descend describe_root
walk_tree driver root ceiling include_links =
    let walk = descend driver ceiling include_links 63 root nothing_walked in
    if walk.exceeded then walk else add_root driver root walk
