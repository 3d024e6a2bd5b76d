-- ===== src/TransferPlan/Tests.antt =====
-- Plans on examples.
use trekker.Prelude.{
  ◌≡◌, refl, Bool, true, false, Option, none, some, List, [], ◌∷◌, filter, length,
}
use trekker.Text.{Text, codes, text_eq, member, includes, cut_first, cut_last, decimal}
use trekker.TransferPlan.{
  ConflictStrategy, PlannedItem, Json, no_members, with_member, inherited, numbered_name, free_name,
  own, landing_for, read_landing_names, creation_order, directories,
}
use trekker.TransferPlan.Landing.{name_of, Lands, landing_for-Lands}
use trekker.TransferPlan.Names.{IsFirstFree, free_name-IsFirstFree}
use trekker.TransferPlan.Order.{Pairwise, IsBelow, creation_order_parents_first}

abbrev item : Text → Bool → PlannedItem
item name conflict = record {
  name = name;
  kind = codes "directory";
  bytes = 0;
  mode = none;
  mtime_ms = none;
  source = record { size = 1; mtime_ms = 1; kind = none };
  target = none;
  conflict = conflict;
}

abbrev items : List PlannedItem
items = item (codes "a/b") true ∷ item (codes "a") false ∷ []

abbrev keep_both : PlannedItem → Option ConflictStrategy
keep_both i = some ConflictStrategy.keep_both

numbered : numbered_name (codes "report.txt") 12 ≡ codes "report (12).txt"
unfolding numbered_name cut_last decimal
numbered = refl

hidden : numbered_name (codes ".bashrc") 2 ≡ codes ".bashrc (2)"
unfolding numbered_name cut_last decimal
hidden = refl

-- A file that is called like a property of every object.
constructor_lost : landing_for (codes "constructor") [] ≡ inherited
unfolding landing_for cut_first own member text_eq
constructor_lost = refl

free_name-IsFirstFree_example :
    IsFirstFree
      (codes "a.b")
      (codes "a.b" ∷ codes "a (2).b" ∷ [])
      1
      1000
      (free_name (codes "a.b") (codes "a.b" ∷ codes "a (2).b" ∷ []))
free_name-IsFirstFree_example =
    free_name-IsFirstFree (codes "a.b") (codes "a.b" ∷ codes "a (2).b" ∷ [])

abbrev options : Json
options = Json.object (
    with_member (codes "landAs")
      (Json.object (with_member (codes "logs") (Json.text (codes "logs (2)")) no_members))
      no_members)

landing_for-Lands_example :
    Lands
      (own (codes "logs") (read_landing_names options))
      (codes "logs")
      (codes "x" ∷ [])
      (landing_for (name_of (codes "logs") (codes "x" ∷ [])) (read_landing_names options))
unfolding includes
landing_for-Lands_example = landing_for-Lands options (codes "logs") (codes "x" ∷ []) refl

creation_order_parents_first_example :
    Pairwise (λ x y. ¬ IsBelow x.name y.name) (creation_order items)
    × ((p : PlannedItem → Bool)
        → length (filter p (creation_order items)) ≡ length (filter p (directories items)))
creation_order_parents_first_example = creation_order_parents_first items
