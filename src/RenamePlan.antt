-- ===== src/RenamePlan.antt =====
-- nest-api/src/fs/rename-plan.ts: the judgment of a batch of computed names, and the slots for the
-- threads that run a pattern. What a pattern makes of the names is a parameter of the judgment. The
-- texts of the messages are left out.
pub mod Targets
pub mod Safety
pub mod Slots
mod Tests
use trekker.Prelude.{
  ℕ, zero, suc, ◌+◌, Bool, true, false, not, ◌&&◌, ◌||◌, Option, none, some, List, [], ◌∷◌, ◌++◌,
  map, if◌then◌else◌, ltb, leb, ◌==◌, length, any, filter,
}
use trekker.Text.{Text, codes, text_eq, member, includes, is_empty}

abbrev pub max_name_bytes : ℕ
max_name_bytes = 255

pub data ProblemCode : Type 0 where
  duplicate exists empty separator relative nul toolong : ProblemCode

pub record RenameProblem : Type 0 where
  pub code : ProblemCode
  pub collides_with : Option Text

pub record Match : Type 0 where
  pub index : ℕ
  pub length : ℕ

pub record RenameMapping : Type 0 where
  pub name : Text
  pub next : Text
  pub changed : Bool
  pub match : Option Match
  pub problem : Option RenameProblem

pub record RenamePlan : Type 0 where
  pub mappings : List RenameMapping
  pub changed : ℕ
  pub error : Option Text

pub record RenameInput : Type 0 where
  pub names : List Text
  pub existing : List Text

-- What the pattern made of one name; no match is the index -1 of the source.
pub record Applied : Type 0 where
  pub next : Text
  pub match : Option Match

unfoldable pub moves_of : RenamePlan → List RenameMapping
moves_of plan = filter (λ (m : RenameMapping). m.changed) plan.mappings

abbrev pub is_some {ℓ} : {A : Type ℓ} → Option A → Bool
is_some none = false
is_some (some _) = true

unfoldable pub is_refused : RenamePlan → Bool
is_refused plan = is_some plan.error || any (λ (m : RenameMapping). is_some m.problem) plan.mappings

-- The bytes that a code unit takes in UTF-8, outside a surrogate pair.
abbrev pub unit_bytes : ℕ → ℕ
unit_bytes c = if ltb c 0x80 then 1 else if ltb c 0x800 then 2 else 3

abbrev pub is_pair : ℕ → ℕ → Bool
is_pair c d = (leb 0xd800 c && leb c 0xdbff) && (leb 0xdc00 d && leb d 0xdfff)

-- `Buffer.byteLength(text, "utf8")`
unfoldable pub byte_length : Text → ℕ
byte_length [] = 0
byte_length (c ∷ []) = unit_bytes c
byte_length (c ∷ d ∷ s) =
    let paired = 4 + byte_length s in
    let single = unit_bytes c + byte_length (d ∷ s) in if is_pair c d then paired else single

abbrev pub plain : ProblemCode → Option RenameProblem
plain code = some (record { code = code; collides_with = none })

unfoldable pub name_problem : Text → Option RenameProblem
unfolding includes text_eq byte_length
name_problem next =
    if is_empty next
    then plain empty
    else if includes 0 next
    then plain nul
    else if includes 47 next
    then plain separator
    else if text_eq next (codes ".") || text_eq next (codes "..")
    then plain relative
    else if ltb max_name_bytes (byte_length next)
    then plain toolong
    else none

-- One mapping for each name; a missing result throws.
unfoldable pub mappings_of : List Text → List Applied → Option (List RenameMapping)
unfolding text_eq
mappings_of [] results = some []
mappings_of (name ∷ names) [] = none
mappings_of (name ∷ names) (r ∷ results) = elim (mappings_of names results) [
  | none ↦ none
  | some rest ↦ some (
      record {
        name = name;
        next = r.next;
        changed = not (text_eq r.next name);
        match = r.match;
        problem = none;
      }
      ∷ rest)
]

abbrev pub moving : List RenameMapping → List RenameMapping
moving = filter (λ (m : RenameMapping). m.changed)

abbrev pub names_of : List RenameMapping → List Text
names_of = map (λ (m : RenameMapping). m.name)

-- The names in the directory that the batch does not move away.
unfoldable pub occupied : List Text → List RenameMapping → List Text
unfolding member
occupied existing moves = filter (λ name. not (member name (names_of moves))) existing

-- The map `targets`, from a new name to the names that lead to it, in the order of the batch.
abbrev pub Targets : Type 0
Targets = List (Text × List Text)

unfoldable pub add_target : Text → Text → Targets → Targets
add_target next name [] = (next, name ∷ []) ∷ []
add_target next name ((key, names) ∷ targets) =
    if text_eq key next
    then (key, names ++ name ∷ []) ∷ targets
    else (key, names) ∷ add_target next name targets

unfoldable pub targets_from : Targets → List RenameMapping → Targets
unfolding add_target
targets_from targets [] = targets
targets_from targets (m ∷ ms) = targets_from (add_target m.next m.name targets) ms

-- `targets.get(next) ?? []`
unfoldable pub sharing : Text → Targets → List Text
sharing next [] = []
sharing next ((key, names) ∷ targets) = if text_eq key next then names else sharing next targets

unfoldable pub first_other : Text → List Text → Option Text
first_other name [] = none
first_other name (other ∷ others) =
    if text_eq other name then first_other name others else some other

-- The problem of a mapping that moves.
unfoldable pub problem_of : List Text → Targets → RenameMapping → Option RenameProblem
unfolding name_problem sharing first_other member
problem_of taken targets m = elim (name_problem m.next) [
  | some invalid ↦ some invalid
  | none ↦
      let shared = sharing m.next targets in
      if ltb 1 (length shared)
      then some (record { code = duplicate; collides_with = first_other m.name shared })
      else if member m.next taken
      then plain exists
      else none
]

abbrev pub judged : List Text → Targets → RenameMapping → RenameMapping
judged taken targets m = if m.changed then record m { problem = problem_of taken targets m } else m

abbrev pub plan_from : RenameInput → List RenameMapping → RenamePlan
plan_from input mappings =
    let moves = moving mappings in
    record {
      mappings = map (judged (occupied input.existing moves) (targets_from [] moves)) mappings;
      changed = length moves;
      error = none;
    }

unfoldable pub judge : RenameInput → List Applied → Option RenamePlan
unfolding mappings_of occupied targets_from problem_of
judge input results = elim (mappings_of input.names results) [
  | none ↦ none
  | some mappings ↦ some (plan_from input mappings)
]

-- What came back from the thread that ran the pattern.
pub data PatternResult : Type 0 where
  ok : List Applied → PatternResult
  failed : Text → PatternResult

unfoldable pub plan_rename : RenameInput → PatternResult → Option RenamePlan
unfolding judge
plan_rename input (failed message) = some (record {
  mappings =
      map
        (λ name. record { name = name; next = name; changed = false; match = none; problem = none })
        input.names;
  changed = 0;
  error = some message;
})
plan_rename input (ok results) = judge input results
