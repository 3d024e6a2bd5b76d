-- ===== src/TransferPlan.antt =====
-- nest-api/src/transfers/transfer-plan.ts, and `numberedName` of nest-api/src/fs/upload-name.ts: what
-- a transfer decides before it moves a byte. The note of a row, a text for the screen, is left out.
pub mod Decisions
pub mod Landing
pub mod Names
pub mod Order
pub mod Paths
mod Tests
mod Types
pub use Types.{
  ConflictStrategy, ConflictDecision, EntryFacts, PlannedItem, WalkedEntry, Json, Members,
  no_members, with_member, Landed, at_name, inherited,
}
use trekker.Prelude.{
  ℕ, zero, suc, ◌+◌, Bool, true, false, not, ◌&&◌, ◌||◌, Option, none, some, List, [], ◌∷◌, ◌++◌,
  map, if◌then◌else◌, ltb, leb, ◌==◌, length, filter, any,
}
use trekker.Text.{
  Text, codes, text_eq, member, includes, is_empty, starts_with, split, non_empty, trim_end,
  cut_last, cut_first, decimal,
}
use trekker.Posix.{ends_with_slash}

-- The decision of an item. The default of the `switch` is `ask`.
abbrev pub decision_of : ConflictStrategy → ConflictDecision
decision_of ConflictStrategy.overwrite = ConflictDecision.overwrite
decision_of ConflictStrategy.skip = ConflictDecision.skip
decision_of ConflictStrategy.keep_both = ConflictDecision.rename
decision_of ConflictStrategy.ask = ConflictDecision.ask

abbrev pub or_else : Option ConflictStrategy → ConflictStrategy → ConflictStrategy
or_else none strategy = strategy
or_else (some chosen) strategy = chosen

unfoldable pub decision_for : ConflictStrategy → Option ConflictStrategy → Bool → ConflictDecision
decision_for strategy chosen conflict =
    if conflict then decision_of (or_else chosen strategy) else ConflictDecision.ask

abbrev pub is_ask : ConflictDecision → Bool
is_ask ConflictDecision.ask = true
is_ask _ = false

-- A row past the end of `decisions` has none, which is not `ASK`.
unfoldable pub undecided : List PlannedItem → List ConflictDecision → List PlannedItem
undecided [] decisions = []
undecided (item ∷ items) [] = []
undecided (item ∷ items) (d ∷ decisions) =
    let rest = undecided items decisions in if item.conflict && is_ask d then item ∷ rest else rest

abbrev pub is_directory : Text → Bool
is_directory kind = text_eq kind (codes "directory")

abbrev pub is_directory_kind : Option Text → Bool
is_directory_kind none = false
is_directory_kind (some k) = is_directory k

unfoldable pub is_conflict : Text → Option EntryFacts → Bool
unfolding text_eq
is_conflict source_kind none = false
is_conflict source_kind (some target) =
    not (is_directory source_kind && is_directory_kind target.kind)

abbrev pub unless_zero : ℕ → Option ℕ
unless_zero n = if n == 0 then none else some n

unfoldable pub item_from : WalkedEntry → Text → Option EntryFacts → PlannedItem
unfolding is_conflict
item_from entry name target = record {
  name = name;
  kind = entry.kind;
  bytes = if is_directory entry.kind then 0 else entry.size;
  mode = unless_zero entry.mode;
  mtime_ms = unless_zero entry.mtime_ms;
  source = record { size = entry.size; mtime_ms = entry.mtime_ms; kind = none };
  target = target;
  conflict = is_conflict entry.kind target;
}

unfoldable pub depth : Text → ℕ
unfolding split
depth name = length (non_empty (split 47 name))

-- `sort` keeps the order of items at the same depth.
unfoldable pub insert_by :
    (PlannedItem → PlannedItem → Bool) → PlannedItem → List PlannedItem → List PlannedItem
insert_by before x [] = x ∷ []
insert_by before x (y ∷ ys) =
    let rest = insert_by before x ys in if before y x then y ∷ rest else x ∷ y ∷ ys

unfoldable pub sort_by : (PlannedItem → PlannedItem → Bool) → List PlannedItem → List PlannedItem
unfolding insert_by
sort_by before [] = []
sort_by before (x ∷ xs) = insert_by before x (sort_by before xs)

abbrev pub directories : List PlannedItem → List PlannedItem
directories items = filter (λ (item : PlannedItem). is_directory item.kind) items

unfoldable pub creation_order : List PlannedItem → List PlannedItem
unfolding sort_by depth
creation_order items =
    sort_by (λ (x y : PlannedItem). ltb (depth x.name) (depth y.name)) (directories items)

unfoldable pub settlement_order : List PlannedItem → List PlannedItem
unfolding sort_by depth
settlement_order items =
    sort_by (λ (x y : PlannedItem). ltb (depth y.name) (depth x.name)) (directories items)

-- `name.lastIndexOf(".")`, and the name on both sides of it; a dot in front counts as none.
abbrev pub number_at : Text → Text → Option (Text × Text) → Text
number_at name number none = name ++ number
number_at name number (some ([], extension)) = name ++ number
number_at name number (some (c ∷ stem, extension)) = (c ∷ stem) ++ (number ++ extension)

unfoldable pub numbered_name : Text → ℕ → Text
unfolding cut_last decimal
numbered_name name attempt =
    number_at name (codes " (" ++ (decimal attempt ++ codes ")")) (cut_last 46 name)

abbrev pub max_keep_both_attempts : ℕ
max_keep_both_attempts = 1000

-- The loop of `freeName`, with the attempts that are left.
unfoldable pub try_names : ℕ → ℕ → Text → List Text → Option Text
unfolding numbered_name member
try_names zero attempt name taken = none
try_names (suc left) attempt name taken =
    let later = try_names left (suc attempt) name taken in
    if member (numbered_name name attempt) taken then later else some (numbered_name name attempt)

unfoldable pub free_name : Text → List Text → Option Text
unfolding try_names member
free_name name taken =
    let numbered = try_names 998 2 name taken in if member name taken then numbered else some name

-- What every object has under these names, even an empty one.
abbrev pub prototype_names : List Text
prototype_names =
    codes "constructor"
    ∷ codes "toString"
    ∷ codes "toLocaleString"
    ∷ codes "valueOf"
    ∷ codes "hasOwnProperty"
    ∷ codes "isPrototypeOf"
    ∷ codes "propertyIsEnumerable"
    ∷ codes "__proto__"
    ∷ codes "__defineGetter__"
    ∷ codes "__defineSetter__"
    ∷ codes "__lookupGetter__"
    ∷ codes "__lookupSetter__"
    ∷ []

-- An object's own string properties; of two with one name the last holds.
unfoldable pub own : Text → List (Text × Text) → Option Text
unfolding text_eq
own key [] = none
own key ((k, v) ∷ rest) = elim (own key rest) [
  | some later ↦ some later
  | none ↦ if text_eq k key then some v else none
]

-- `indexOf("/")`: the first segment, and the name from the separator on.
abbrev pub top_of : Text → Option (Text × Text) → Text × Text
top_of name none = (name, [])
top_of name (some (top, from)) = (top, from)

unfoldable pub landing_for : Text → List (Text × Text) → Landed
unfolding cut_first own member
landing_for name landing =
    let (top, below) = top_of name (cut_first 47 name) in
    elim (own top landing) [
      | some to ↦ at_name (to ++ below)
      | none ↦ if member top prototype_names then inherited else at_name name
    ]

-- A landing name that is kept: one segment that stays in its directory.
unfoldable pub is_landing_name : Text → Bool
unfolding text_eq includes
is_landing_name to =
    not (is_empty to)
    && not (includes 47 to)
    && not (text_eq to (codes "."))
    && not (text_eq to (codes ".."))

abbrev pub member_of : Text → Members → Option Json
member_of key no_members = none
member_of key (with_member k v rest) =
    let later = member_of key rest in if text_eq k key then some v else later

-- Setting `__proto__` to a string sets no property.
unfoldable pub landing_members : Members → List (Text × Text)
unfolding is_landing_name
landing_members no_members = []
landing_members (with_member from (Json.text to) rest) =
    let others = landing_members rest in
    if is_landing_name to && not (text_eq from (codes "__proto__"))
    then (from, to) ∷ others
    else others
landing_members (with_member from _ rest) = landing_members rest

abbrev pub landing_of : Option Json → List (Text × Text)
landing_of (some (Json.object members)) = landing_members members
landing_of _ = []

unfoldable pub read_landing_names : Json → List (Text × Text)
unfolding landing_members text_eq
read_landing_names (Json.object members) = landing_of (member_of (codes "landAs") members)
read_landing_names _ = []

abbrev pub parent_at : Text → Option (Text × Text) → Text
parent_at trimmed none = codes "/"
parent_at trimmed (some ([], from)) = codes "/"
parent_at trimmed (some (c ∷ before, from)) = c ∷ before

unfoldable pub parent_of : Text → Text
unfolding trim_end cut_last
parent_of path = let trimmed = trim_end 47 path in parent_at trimmed (cut_last 47 trimmed)

unfoldable pub join_path : Text → Text → Text
unfolding ends_with_slash
join_path directory name =
    if ends_with_slash directory then directory ++ name else directory ++ (47 ∷ name)

unfoldable pub normalise : Text → Text
unfolding trim_end
normalise path = let trimmed = trim_end 47 path in if is_empty trimmed then codes "/" else trimmed

-- The parent that all paths share: the set of their parents has one element.
unfoldable pub common_parent : List Text → Option Text
unfolding parent_of member text_eq
common_parent [] = none
common_parent (p ∷ paths) =
    if any (λ q. not (text_eq (parent_of q) (parent_of p))) paths then none else some (parent_of p)

unfoldable pub destination_inside_source : Text → Text → Bool
unfolding normalise text_eq starts_with
destination_inside_source source_path destination_path =
    let source = normalise source_path in
    let destination = normalise destination_path in
    text_eq destination source
    || starts_with (if text_eq source (codes "/") then codes "/" else source ++ codes "/")
        destination
