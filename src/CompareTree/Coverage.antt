-- ===== src/CompareTree/Coverage.antt =====
-- A comparison that is not marked truncated has looked at everything.
use trekker.Prelude.{
  ℕ, zero, suc, ◌-◌, ◌≡◌, subst, ◌⊎◌, inl, inr, true, false, ◌||◌, List, [], ◌∷◌, ◌++◌, arith, leb,
  map, length, if_either, Bool-cases, Some,
}
use trekker.Text.{Text, text_eq, member}
use trekker.Text.Laws.{eq_of_text_eq}
use trekker.Posix.{posix_join}
use trekker.CompareTree.{
  FileEntry, CompareEntry, CompareWalk, CompareDeps, insert_name, names_of, note_unreadable,
  truncate, push, child, are_directories, listed, descend, text_lt,
}
use trekker.CompareTree.Rows.{left_at, right_at, descend-keeps}

abbrev pub HasRow : Text → CompareWalk → Type 0
HasRow path w = Some (λ (e : CompareEntry). e.path ≡ path) w.entries

Some-append_left :
    (P : CompareEntry → Type 0) (xs ys : List CompareEntry) → Some P xs → Some P (xs ++ ys)
Some-append_left P [] ys h = absurd h
Some-append_left P (x ∷ xs) ys (inl p) = inl p
Some-append_left P (x ∷ xs) ys (inr h) = inr (Some-append_left P xs ys h)

pub Some-append_last :
    (P : CompareEntry → Type 0) (xs : List CompareEntry) (y : CompareEntry)
    → P y
    → Some P (xs ++ (y ∷ []))
Some-append_last P [] y h = inl h
Some-append_last P (x ∷ xs) y h = inr (Some-append_last P xs y h)

-- The later walk has the rows of the earlier one, and is truncated if that one was.
abbrev pub Extends : CompareWalk → CompareWalk → Type 0
Extends v w =
    (w.truncated ≡ false → v.truncated ≡ false) × ((path : Text) → HasRow path v → HasRow path w)

pub push-Extends :
    (ceiling : ℕ) (e : CompareEntry) (v w : CompareWalk)
    → Extends v w
    → Extends v (push ceiling e w)
unfolding push truncate
push-Extends ceiling e v w (shown, rows) =
    if_either (Extends v) (leb ceiling (length w.entries)) (λ _. (λ h. cc, rows))
      (λ _. (shown, λ path h. Some-append_left _ w.entries (e ∷ []) (rows path h)))

pub descend-Extends :
    (deps : CompareDeps) (left : ℕ) (relative : Text) (depth : ℕ) (w : CompareWalk)
    → left ≡ deps.depth - depth
    → Extends w (descend deps left relative depth w)
unfolding note_unreadable truncate
descend-Extends deps left relative depth w l =
    descend-keeps deps (Extends w) (λ r v h. h) (λ v h. (λ e. cc, h.1))
      (λ e v _ h. push-Extends deps.ceiling e w v h) left relative depth w l (λ h. h, λ path h. h)

-- One of the two listings of a directory has the name.
abbrev pub IsListed : CompareDeps → Text → Text → Type 0
IsListed deps relative n =
    member n (
      map (λ (e : FileEntry). e.name)
        (listed (deps.list_a (posix_join deps.root_a relative))
          ++ listed (deps.list_b (posix_join deps.root_b relative))))
    ≡ true

-- A name has a row, or is that of a directory on both sides of which `Below` holds.
abbrev pub IsCovered : CompareDeps → Text → Text → Type 0 → CompareWalk → Type 0
IsCovered deps relative n Below w =
    ((are_directories (left_at deps relative n) (right_at deps relative n) ≡ false)
      × HasRow (child relative n) w)
    ⊎ ((are_directories (left_at deps relative n) (right_at deps relative n) ≡ true) × Below)

-- Every listed name of a directory is covered, and so is what lies below it.
abbrev pub Covers : CompareDeps → ℕ → Text → CompareWalk → Type 0
Covers deps zero relative w = (n : Text) → IsListed deps relative n → IsCovered deps relative n ⊥ w
Covers deps (suc left) relative w =
    (n : Text)
    → IsListed deps relative n
    → IsCovered deps relative n (Covers deps left (child relative n) w) w

pub IsCovered-later :
    (deps : CompareDeps) (relative n : Text) (B C : Type 0) (v w : CompareWalk)
    → Extends v w
    → (B → C)
    → IsCovered deps relative n B v
    → IsCovered deps relative n C w
IsCovered-later deps relative n B C v w ext f (inl (e, row)) = inl (e, ext.1 (child relative n) row)
IsCovered-later deps relative n B C v w ext f (inr (e, b)) = inr (e, f b)

pub Covers-later :
    (deps : CompareDeps) (left : ℕ) (relative : Text) (v w : CompareWalk)
    → Extends v w
    → Covers deps left relative v
    → Covers deps left relative w
Covers-later deps zero relative v w ext h =
    λ n l. IsCovered-later deps relative n ⊥ ⊥ v w ext (λ x. x) (h n l)
Covers-later deps (suc left) relative v w ext h = λ n l.
    IsCovered-later deps relative n _ _ v w ext (Covers-later deps left (child relative n) v w ext)
      (h n l)

pub Extends-trans : (u v w : CompareWalk) → Extends u v → Extends v w → Extends u w
Extends-trans u v w a b = (λ h. a.0 (b.0 h), λ path h. b.1 path (a.1 path h))

member-insert_name :
    (n m : Text) (ms : List Text)
    → (text_eq m n || member n ms) ≡ true
    → member n (insert_name m ms) ≡ true
unfolding insert_name member
member-insert_name n m [] h = h
member-insert_name n m (k ∷ ms) h =
    if_either (λ xs. member n xs ≡ true) (text_eq k m)
      (λ same.
        let e = eq_of_text_eq k m same in
        rw e
          (ground (arith, subst (λ x. (text_eq m n || (text_eq x n || member n ms)) ≡ true) e h)))
      (λ _.
        if_either (λ xs. member n xs ≡ true) (text_lt m k) (λ _. h)
          (λ _. elim (Bool-cases (text_eq k n)) [
            | inl e ↦ ground (arith, e)
            | inr e ↦ ground (arith, e, member-insert_name n m ms (ground (arith, h, e)))
          ]))

pub member-names_of :
    (n : Text) (es : List FileEntry)
    → member n (map (λ (e : FileEntry). e.name) es) ≡ true
    → member n (names_of es) ≡ true
unfolding names_of member
member-names_of n [] h = h
member-names_of n (e ∷ es) h = elim (Bool-cases (text_eq e.name n)) [
  | inl same ↦ member-insert_name n e.name (names_of es) (ground (arith, same))
  | inr other ↦
      member-insert_name n e.name (names_of es)
        (ground (arith, other, member-names_of n es (ground (arith, h, other))))
]
