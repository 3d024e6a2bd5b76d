-- ===== src/CompareTree/Tests.antt =====
-- A comparison of two small trees.
use trekker.Prelude.{
  ℕ, ◌≡◌, refl, false, Option, none, some, List, [], ◌∷◌, All, map, if◌then◌else◌,
}
use trekker.Text.{Text, codes, text_eq, split, join, starts_with}
use trekker.Posix.{posix_join, normalize, resolve_dots, in_order, ends_with_slash}
use trekker.CompareTree.{
  FileKind, FileEntry, CompareEntry, CompareDeps, compare_trees, descend, visit, compare_names,
  compare_name, open_directory, decide, find, child, push, truncate, names_of, insert_name, text_lt,
  note_unreadable,
}
use trekker.CompareTree.Rows.{IsRow, compare_trees-AreRows}
use trekker.CompareTree.Coverage.{Covers}
use trekker.CompareTree.Covering.{compare_trees-Covers}

abbrev entry : Text → FileKind → ℕ → FileEntry
entry n kind size = record { name = n; kind = kind; size = size; mtime_ms = 5; link_target = none }

abbrev link_to : Text → FileEntry
link_to target = record {
  name = codes "l";
  kind = FileKind.symlink;
  size = 1;
  mtime_ms = 5;
  link_target = some target;
}

abbrev listing : ℕ → Text → Option (List FileEntry)
listing size path =
    if text_eq path (codes "/r")
    then some (entry (codes "d") FileKind.directory 9 ∷ entry (codes "f") FileKind.file size ∷ [])
    else if text_eq path (codes "/r/d")
    then some (entry (codes "g") FileKind.file 2 ∷ [])
    else none

abbrev deps : ℕ → CompareDeps
deps depth = record {
  root_a = codes "/r";
  root_b = codes "/r";
  list_a = listing 1;
  list_b = listing 3;
  depth = depth;
  ceiling = 10;
}

not_truncated : (compare_trees (deps 2)).truncated ≡ false
unfolding compare_trees descend visit compare_names compare_name open_directory decide find child
    push posix_join text_eq names_of insert_name text_lt note_unreadable normalize resolve_dots
    in_order split join ends_with_slash starts_with truncate
not_truncated = refl

abbrev row_verdict : CompareEntry → Text
row_verdict e = e.path

two_rows : map row_verdict (compare_trees (deps 2)).entries ≡ codes "d/g" ∷ codes "f" ∷ []
unfolding compare_trees descend visit compare_names compare_name open_directory decide find child
    push posix_join text_eq names_of insert_name text_lt note_unreadable normalize resolve_dots
    in_order split join ends_with_slash starts_with truncate
two_rows = refl

-- The first directory at the depth bound ends the walk: the file behind it is not compared.
bound_ends_walk : map row_verdict (compare_trees (deps 1)).entries ≡ codes "d" ∷ []
unfolding compare_trees descend visit compare_names compare_name open_directory decide find child
    push posix_join text_eq names_of insert_name text_lt note_unreadable normalize resolve_dots
    in_order split join ends_with_slash starts_with truncate
bound_ends_walk = refl

compare_trees-AreRows_example : All (IsRow (deps 2)) (compare_trees (deps 2)).entries
compare_trees-AreRows_example = compare_trees-AreRows (deps 2)

compare_trees-Covers_example : Covers (deps 2) 1 [] (compare_trees (deps 2))
compare_trees-Covers_example = compare_trees-Covers (deps 2) not_truncated
