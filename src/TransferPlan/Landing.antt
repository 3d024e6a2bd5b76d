-- ===== src/TransferPlan/Landing.antt =====
-- What an item is called where it arrives.
use trekker.Prelude.{
  ◌≡◌, ◌≢◌, refl, sym, ap, subst, ◌⊎◌, inl, inr, true, false, not, ◌&&◌, Option, none, some, List,
  [], ◌∷◌, ◌++◌, if◌then◌else◌, if_either, All, and_true, append-nil, arith,
}
use trekker.Text.{Text, codes, text_eq, member, includes, cut_first, join}
use trekker.Text.Laws.{text_eq_refl, cut_first-none, cut_first-append}
use trekker.TransferPlan.{
  Json, Members, no_members, with_member, Landed, at_name, inherited, own, prototype_names, top_of,
  landing_for, is_landing_name, member_of, landing_members, landing_of, read_landing_names,
}

-- The name with these segments.
abbrev pub name_of : Text → List Text → Text
name_of top rest = join (codes "/") (top ∷ rest)

below_of : List Text → Text
below_of [] = []
below_of (s ∷ rest) = 47 ∷ name_of s rest

cut-name_of :
    (top : Text) (rest : List Text)
    → includes 47 top ≡ false
    → top_of (name_of top rest) (cut_first 47 (name_of top rest)) ≡ (top, below_of rest)
unfolding join below_of
cut-name_of top [] h = rw (cut_first-none 47 top h) refl
cut-name_of top (s ∷ rest) h = rw (cut_first-append 47 top (name_of s rest) h) refl

renamed_name : (to : Text) (rest : List Text) → to ++ below_of rest ≡ name_of to rest
unfolding join below_of
renamed_name to [] = append-nil to
renamed_name to (s ∷ rest) = refl

abbrev AreLandingNames : List (Text × Text) → Type 0
AreLandingNames = All (λ (p : Text × Text). is_landing_name p.1 ≡ true)

landing_members-All : (m : Members) → AreLandingNames (landing_members m)
unfolding landing_members
landing_members-All no_members = tt
landing_members-All (with_member from (Json.text to) rest) =
    if_either AreLandingNames (is_landing_name to && not (text_eq from (codes "__proto__")))
      (λ e. ((and_true _ _ e).0, landing_members-All rest)) (λ _. landing_members-All rest)
landing_members-All (with_member from Json.null rest) = landing_members-All rest
landing_members-All (with_member from Json.boolean rest) = landing_members-All rest
landing_members-All (with_member from Json.number rest) = landing_members-All rest
landing_members-All (with_member from Json.array rest) = landing_members-All rest
landing_members-All (with_member from (Json.object m) rest) = landing_members-All rest

landing_of-All : (j : Option Json) → AreLandingNames (landing_of j)
landing_of-All none = tt
landing_of-All (some Json.null) = tt
landing_of-All (some Json.boolean) = tt
landing_of-All (some Json.number) = tt
landing_of-All (some Json.array) = tt
landing_of-All (some (Json.text t)) = tt
landing_of-All (some (Json.object m)) = landing_members-All m

read_landing_names-All : (options : Json) → AreLandingNames (read_landing_names options)
unfolding read_landing_names
read_landing_names-All Json.null = tt
read_landing_names-All Json.boolean = tt
read_landing_names-All Json.number = tt
read_landing_names-All Json.array = tt
read_landing_names-All (Json.text t) = tt
read_landing_names-All (Json.object m) = landing_of-All (member_of (codes "landAs") m)

abbrev Keeps : Option Text → Type 0
Keeps none = Unit
Keeps (some to) = is_landing_name to ≡ true

own-Keeps : (key : Text) (l : List (Text × Text)) → AreLandingNames l → Keeps (own key l)
unfolding own
own-Keeps key [] h = tt
own-Keeps key ((k, v) ∷ rest) h = choose (own key rest) (own-Keeps key rest h.1)
  where
    choose :
        (later : Option Text)
        → Keeps later
        → Keeps (elim later [ some t ↦ some t | none ↦ if text_eq k key then some v else none ])
    choose (some t) q = q
    choose none q = if_either Keeps (text_eq k key) (λ _. h.0) (λ _. tt)

-- A name that stays in its directory: one segment that names an entry.
abbrev pub IsEntryName : Text → Type 0
IsEntryName name =
    (name ≢ []) × (includes 47 name ≡ false) × (name ≢ codes ".") × (name ≢ codes "..")

is_landing_name-IsEntryName : (to : Text) → is_landing_name to ≡ true → IsEntryName to
unfolding is_landing_name
is_landing_name-IsEntryName [] e = cc
is_landing_name-IsEntryName (c ∷ name) e =
    let to = c ∷ name in
    let apart : (word : Text) → text_eq to word ≡ false → to ≢ word =
      λ word other same. cc (text_eq_refl word, subst (λ t. text_eq t word ≡ false) same other) in
    (
      (λ same. cc (same)),
      ground (arith, e),
      apart (codes ".") (ground (arith, e)),
      apart (codes "..") (ground (arith, e)),
    )

-- Where an entry of a selection lands, by what the map has for it: under the stored name, which is
-- one segment; under its own name; or, where the map has nothing but every object has a property of
-- the entry's name, in the place of that property.
abbrev pub Lands : Option Text → Text → List Text → Landed → Type 0
Lands (some to) top rest r = (r ≡ at_name (name_of to rest)) × IsEntryName to
Lands none top rest r =
    ((member top prototype_names ≡ false) × (r ≡ at_name (name_of top rest)))
    ⊎ ((member top prototype_names ≡ true) × (r ≡ inherited))

landed :
    (o : Option Text) (top : Text) (rest : List Text)
    → Keeps o
    → Lands o top rest (elim o [
      | some to ↦ at_name (to ++ below_of rest)
      | none ↦ if member top prototype_names then inherited else at_name (name_of top rest)
    ])
landed (some to) top rest k = (ap at_name (renamed_name to rest), is_landing_name-IsEntryName to k)
landed none top rest k =
    if_either (Lands none top rest) (member top prototype_names) (λ e. inr (e, refl))
      (λ e. inl (e, refl))

-- With the names stored on a job, only the first segment of an item's name changes, and only to a
-- name that is one segment and neither empty, `.` nor `..`; an entry that the map leaves out keeps
-- its name, unless it is called like a property of `Object.prototype`.
pub landing_for-Lands :
    (options : Json) (top : Text) (rest : List Text)
    → includes 47 top ≡ false
    → Lands
        (own top (read_landing_names options))
        top
        rest
        (landing_for (name_of top rest) (read_landing_names options))
unfolding landing_for
landing_for-Lands options top rest h =
    let l = read_landing_names options in
    subst
      (λ (cut : Text × Text). Lands (own top l) top rest (elim (own cut.0 l) [
        | some to ↦ at_name (to ++ cut.1)
        | none ↦ if member cut.0 prototype_names then inherited else at_name (name_of top rest)
      ]))
      (sym (cut-name_of top rest h))
      (landed (own top l) top rest (own-Keeps top l (read_landing_names-All options)))
