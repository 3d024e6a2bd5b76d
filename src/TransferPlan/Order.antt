-- ===== src/TransferPlan/Order.antt =====
-- The order in which directories are made, and the order in which they are stamped and removed.
use trekker.Prelude.{
  ℕ, ◌+◌, ◌≤◌, ◌<◌, ◌≡◌, refl, ap, ◌∙◌, inl, inr, Bool, true, false, List, [], ◌∷◌, ◌++◌, arith,
  if◌then◌else◌, ltb, ◌==◌, if_either, Bool-cases, All, length, length-append, filter,
}
use trekker.Text.{Text, split, non_empty}
use trekker.Text.Laws.{split_cons}
use trekker.TransferPlan.{
  PlannedItem, depth, insert_by, sort_by, directories, creation_order, settlement_order,
}

-- Each element is in relation to all that stand behind it.
abbrev pub Pairwise : (PlannedItem → PlannedItem → Type 0) → List PlannedItem → Type 0
Pairwise R [] = Unit
Pairwise R (x ∷ xs) = All (R x) xs × Pairwise R xs

module _ (before : PlannedItem → PlannedItem → Bool) (R : PlannedItem → PlannedItem → Type 0)
    (kept : (x y : PlannedItem) → before x y ≡ true → R x y)
    (passed : (x y : PlannedItem) → before y x ≡ false → R x y)
    (trans : (x y z : PlannedItem) → R x y → R y z → R x z) where
  All_trans : (x y : PlannedItem) (zs : List PlannedItem) → R x y → All (R y) zs → All (R x) zs
  All_trans x y [] h k = tt
  All_trans x y (z ∷ zs) h k = (trans x y z h k.0, All_trans x y zs h k.1)

  insert-All :
      (P : PlannedItem → Type 0) (x : PlannedItem) (ys : List PlannedItem)
      → P x
      → All P ys
      → All P (insert_by before x ys)
  unfolding insert_by
  insert-All P x [] h k = (h, tt)
  insert-All P x (y ∷ ys) h k =
      if_either (All P) (before y x) (λ _. (k.0, insert-All P x ys h k.1)) (λ _. (h, k))

  insert-Pairwise :
      (x : PlannedItem) (ys : List PlannedItem) → Pairwise R ys → Pairwise R (insert_by before x ys)
  unfolding insert_by
  insert-Pairwise x [] h = (tt, tt)
  insert-Pairwise x (y ∷ ys) h =
      if_either (Pairwise R) (before y x)
        (λ e. (insert-All (R y) x ys (kept y x e) h.0, insert-Pairwise x ys h.1))
        (λ e. ((passed x y e, All_trans x y ys (passed x y e) h.0), h))

  pub sort-Pairwise : (xs : List PlannedItem) → Pairwise R (sort_by before xs)
  unfolding sort_by
  sort-Pairwise [] = tt
  sort-Pairwise (x ∷ xs) = insert-Pairwise x (sort_by before xs) (sort-Pairwise xs)

-- Sorting drops and adds nothing: any test counts the same number of elements.
module _ (before : PlannedItem → PlannedItem → Bool) (p : PlannedItem → Bool) where
  count : List PlannedItem → ℕ
  count xs = length (filter p xs)

  count_cons :
      (x : PlannedItem) (xs : List PlannedItem) → count (x ∷ xs) ≡ (if p x then 1 else 0) + count xs
  unfolding count
  count_cons x xs = ground arith

  count-insert :
      (x : PlannedItem) (ys : List PlannedItem) → count (insert_by before x ys) ≡ count (x ∷ ys)
  unfolding insert_by
  count-insert x [] = refl
  count-insert x (y ∷ ys) =
      if_either (λ l. count l ≡ count (x ∷ y ∷ ys)) (before y x)
        (λ _. omega (
          arith,
          count_cons x (y ∷ ys),
          count_cons y ys,
          count_cons x ys,
          count_cons y (insert_by before x ys),
          count-insert x ys,
        ))
        (λ _. refl)

  count-sort : (xs : List PlannedItem) → count (sort_by before xs) ≡ count xs
  unfolding sort_by
  count-sort [] = refl
  count-sort (x ∷ xs) = omega (
    arith,
    count-insert x (sort_by before xs),
    count_cons x (sort_by before xs),
    count_cons x xs,
    count-sort xs,
  )

  pub length-filter-sort :
      (xs : List PlannedItem) → length (filter p (sort_by before xs)) ≡ length (filter p xs)
  unfolding count
  length-filter-sort xs = count-sort xs

split-cat : (s t : Text) → split 47 (s ++ (47 ∷ t)) ≡ split 47 s ++ split 47 t
unfolding split
split-cat [] t = refl
split-cat (c ∷ s) t =
    let (w, ws, e) = split_cons 47 s in
    rw (split-cat s t, e) (elim (Bool-cases (c == 47)) [ inl h ↦ rw h refl | inr h ↦ rw h refl ])

non_empty-append : (xs ys : List Text) → non_empty (xs ++ ys) ≡ non_empty xs ++ non_empty ys
non_empty-append [] ys = refl
non_empty-append ([] ∷ xs) ys = non_empty-append xs ys
non_empty-append ((c ∷ w) ∷ xs) ys = ap (λ l. (c ∷ w) ∷ l) (non_empty-append xs ys)

-- One name is that of an entry below the other.
abbrev pub IsBelow : Text → Text → Type 0
IsBelow child parent = (rest : Text) × (child ≡ parent ++ (47 ∷ rest)) × (0 < depth rest)

depth-cat : (s t : Text) → depth (s ++ (47 ∷ t)) ≡ depth s + depth t
unfolding depth
depth-cat s t =
    ap (λ l. length (non_empty l)) (split-cat s t)
    ∙ ap length (non_empty-append (split 47 s) (split 47 t))
    ∙ length-append (non_empty (split 47 s)) (non_empty (split 47 t))

depth-below : (child parent : Text) → IsBelow child parent → depth parent < depth child
depth-below child parent (rest, e, d) =
    let sum = ap depth e ∙ depth-cat parent rest in omega (arith, sum, d)

module _ (R S : PlannedItem → PlannedItem → Type 0) (f : (x y : PlannedItem) → R x y → S x y) where
  All-weaker : (x : PlannedItem) (ys : List PlannedItem) → All (R x) ys → All (S x) ys
  All-weaker x [] h = tt
  All-weaker x (y ∷ ys) h = (f x y h.0, All-weaker x ys h.1)

  Pairwise-weaker : (xs : List PlannedItem) → Pairwise R xs → Pairwise S xs
  Pairwise-weaker [] h = tt
  Pairwise-weaker (x ∷ xs) h = (All-weaker x xs h.0, Pairwise-weaker xs h.1)

-- The directories to create are those of the plan, each as often, and none stands before one that it
-- lies in.
pub creation_order_parents_first :
    (items : List PlannedItem)
    → Pairwise (λ x y. ¬ IsBelow x.name y.name) (creation_order items)
      × ((p : PlannedItem → Bool)
          → length (filter p (creation_order items)) ≡ length (filter p (directories items)))
unfolding creation_order
creation_order_parents_first items =
    let shallower : PlannedItem → PlannedItem → Bool = λ x y. ltb (depth x.name) (depth y.name) in
    (
      Pairwise-weaker (λ x y. depth x.name ≤ depth y.name) (λ x y. ¬ IsBelow x.name y.name)
          (λ x y l b. absurd (omega (arith, l, depth-below x.name y.name b)))
          (sort_by shallower (directories items))
          (sort-Pairwise shallower (λ x y. depth x.name ≤ depth y.name) (λ x y e. ground (arith, e))
            (λ x y e. ground (arith, e)) (λ x y z h k. omega arith) (directories items)),
      λ p. length-filter-sort shallower p (directories items),
    )

-- The directories to stamp or remove are those of the plan, each as often, and none stands before
-- one that lies in it.
pub settlement_order_children_first :
    (items : List PlannedItem)
    → Pairwise (λ x y. ¬ IsBelow y.name x.name) (settlement_order items)
      × ((p : PlannedItem → Bool)
          → length (filter p (settlement_order items)) ≡ length (filter p (directories items)))
unfolding settlement_order
settlement_order_children_first items =
    let deeper : PlannedItem → PlannedItem → Bool = λ x y. ltb (depth y.name) (depth x.name) in
    (
      Pairwise-weaker (λ x y. depth y.name ≤ depth x.name) (λ x y. ¬ IsBelow y.name x.name)
          (λ x y l b. absurd (omega (arith, l, depth-below y.name x.name b)))
          (sort_by deeper (directories items))
          (sort-Pairwise deeper (λ x y. depth y.name ≤ depth x.name) (λ x y e. ground (arith, e))
            (λ x y e. ground (arith, e)) (λ x y z h k. omega arith) (directories items)),
      λ p. length-filter-sort deeper p (directories items),
    )
