-- ===== src/TreeWalk/Tests.antt =====
-- Walks of a small tree.
use trekker.Prelude.{
  ◌≡◌, refl, ◌⊎◌, true, false, none, List, [], ◌∷◌, arith, if◌then◌else◌, if_either,
}
use trekker.Text.{Text, codes, text_eq, member, includes}
use trekker.Posix.{ends_with_slash}
use trekker.CompareTree.{FileKind}
use trekker.TreeWalk.{
  account, FileEntry, Listing, listed, unlisted, Driver, join_name, record_entry, visit, visit_each,
  descend, describe_root, walk_tree,
}
use trekker.TreeWalk.Growth.{at_head}
use trekker.TreeWalk.Coverage.{Reaches, listed_here, walk_tree-Covers}
use trekker.TreeWalk.Order.{IsOrdered, IsProper, walk_tree-IsPostOrder}

abbrev entry : Text → FileKind → FileEntry
entry name kind = record {
  name = name;
  kind = kind;
  size = 1;
  mode = 420;
  uid = account 1;
  gid = account 1;
  mtime_ms = 0;
}

abbrev top : List FileEntry
top =
    entry (codes "d") FileKind.directory
    ∷ entry (codes "l") FileKind.symlink
    ∷ entry (codes "f") FileKind.file
    ∷ []

abbrev list : Text → Listing
list path =
    if text_eq path (codes "/r")
    then listed top
    else if text_eq path (codes "/r/d")
    then listed (entry (codes "x") FileKind.file ∷ [])
    else unlisted

abbrev driver : Driver
driver = record { list = list; stat = λ path. none }

proper : (directory : Text) → IsProper (list directory)
unfolding member includes text_eq
proper directory =
    if_either IsProper (text_eq directory (codes "/r"))
      (λ _. (
        ((omega arith, refl), ((omega arith, refl), ((omega arith, refl), tt))),
        (refl, (refl, (refl, tt))),
      ))
      (λ _.
        if_either IsProper (text_eq directory (codes "/r/d"))
          (λ _. (((omega arith, refl), tt), (refl, tt))) (λ _. tt))

walked_in_order :
    (walk_tree driver (codes "/r") 9 false).paths
    ≡ codes "/r/d/x" ∷ codes "/r/d" ∷ codes "/r/f" ∷ codes "/r" ∷ []
unfolding walk_tree descend visit_each visit record_entry join_name ends_with_slash text_eq
    describe_root
walked_in_order = refl

walk_tree-IsPostOrder_example : IsOrdered (codes "/r") (walk_tree driver (codes "/r") 9 false)
walk_tree-IsPostOrder_example = walk_tree-IsPostOrder driver proper 9 false (codes "/r")

abbrev reached : Reaches driver false 63 (codes "/r") (join_name (codes "/r") (codes "d"))
unfolding text_eq
reached =
    listed_here 63 (codes "/r") (entry (codes "d") FileKind.directory) top refl (at_head _ _) refl

walk_tree-Covers_example :
    ((walk_tree driver (codes "/r") 9 false).exceeded ≡ true)
    ⊎ (member (join_name (codes "/r") (codes "d")) (walk_tree driver (codes "/r") 9 false).paths
        ≡ true)
walk_tree-Covers_example =
    walk_tree-Covers driver 9 false (codes "/r") (join_name (codes "/r") (codes "d")) reached
