-- ===== src/TreeWalk/Order.antt =====
-- nest-api/src/fs/tree-walk.ts: the order of the paths.
use trekker.Prelude.{
  ℕ, zero, suc, ◌≡◌, refl, ap, sym, subst, ◌∙◌, ◌⊎◌, inl, inr, Bool, true, false, not, ◌&&◌, List,
  [], ◌∷◌, ◌++◌, append-nil, append_assoc, map, arith, if_either, Bool-cases, All, All-append, Some,
}
use trekker.Text.{Text, member}
use trekker.Text.Laws.{text_eq_refl}
use trekker.Text.Unique.{AreUnique, IsFresh}
use trekker.TreeWalk.{
  FileEntry, Walked, Listing, listed, not_directory, unlisted, Driver, join_name, is_symlink,
  is_directory, record_entry, count_link, go_in, visit, visit_each, after_list, descend,
  nothing_walked, walk_tree,
}
use trekker.TreeWalk.Paths.{
  is_under, is_at, IsName, IsClosed, under-join_name, under_self, join_name-IsClosed, at_self,
  at_of_under, at_below, at_unique, under_asym,
}

-- None of the paths lies below one that stands before it.
abbrev pub IsPostOrder : List Text → Type 0
IsPostOrder [] = Unit
IsPostOrder (p ∷ ps) = All (λ q. is_under p q ≡ false) ps × IsPostOrder ps

-- In order, and closed by the root unless the walk passed the ceiling.
abbrev pub IsOrdered : Text → Walked → Type 0
IsOrdered root walk =
    IsPostOrder walk.paths
    × (((walk.exceeded ≡ true) × All (λ q. is_under root q ≡ true) walk.paths)
        ⊎ ((walk.exceeded ≡ false)
            × ((front : List Text) × (walk.paths ≡ front ++ (root ∷ []))
                × All (λ q. is_under root q ≡ true) front)))

abbrev pub names : List FileEntry → List Text
names es = map (λ (e : FileEntry). e.name) es

-- The names of a listing are names, and none stands twice.
abbrev pub IsProper : Listing → Type 0
IsProper (listed es) = All IsName (names es) × AreUnique (names es)
IsProper not_directory = Unit
IsProper unlisted = Unit

IsPostOrder-append :
    (xs ys : List Text)
    → IsPostOrder xs
    → IsPostOrder ys
    → All (λ p. All (λ q. is_under p q ≡ false) ys) xs
    → IsPostOrder (xs ++ ys)
IsPostOrder-append [] ys h k apart = k
IsPostOrder-append (x ∷ xs) ys (h, hs) k (a, apart) =
    (All-append (λ q. is_under x q ≡ false) xs ys h a, IsPostOrder-append xs ys hs k apart)

-- What the walk adds below a directory: paths below it, in order.
abbrev IsAdded : (Text → Type 0) → Walked → Walked → Type 0
IsAdded P before after =
    (new : List Text) × (after.paths ≡ before.paths ++ new) × All P new × IsPostOrder new

abbrev IsBelow : Text → Text → Type 0
IsBelow directory q = (is_under directory q ≡ true) × IsClosed q

abbrev IsAt : Text → Text → Text → Type 0
IsAt directory name q = (is_at directory name q ≡ true) × (is_under directory q ≡ true) × IsClosed q

-- At one of the names.
abbrev IsAtSome : Text → List Text → Text → Type 0
IsAtSome directory ns q =
    Some (λ n. is_at directory n q ≡ true) ns × (is_under directory q ≡ true) × IsClosed q

IsAdded-none :
    (P : Text → Type 0) (before after : Walked)
    → after.paths ≡ before.paths
    → IsAdded P before after
IsAdded-none P before after e = ([], e ∙ sym (append-nil before.paths), tt, tt)

All-map : (P Q : Text → Type 0) → ((q : Text) → P q → Q q) → (xs : List Text) → All P xs → All Q xs
All-map P Q f [] h = tt
All-map P Q f (x ∷ xs) (h, hs) = (f x h, All-map P Q f xs hs)

All-pairs :
    (P Q : Text → Type 0) (R : Text → Text → Type 0)
    → ((p q : Text) → P p → Q q → R p q)
    → (xs ys : List Text) → All P xs
    → All Q ys
    → All (λ p. All (R p) ys) xs
All-pairs P Q R f [] ys h k = tt
All-pairs P Q R f (x ∷ xs) ys (h, hs) k =
    (All-map Q (R x) (λ q. f x q h) ys k, All-pairs P Q R f xs ys hs k)

count_link-paths : (entry : FileEntry) (walk : Walked) → (count_link entry walk).paths ≡ walk.paths
count_link-paths entry walk =
    if_either (λ (w : Walked). w.paths ≡ walk.paths) (is_symlink entry) (λ _. refl) (λ _. refl)

IsAt-of_below :
    (directory name q : Text)
    → IsName name
    → IsBelow (join_name directory name) q
    → IsAt directory name q
IsAt-of_below directory name q h (under, closed) =
    (at_of_under directory name q h under, under-join_name directory name q h under, closed)

-- A directory is recorded after what lies below it.
record_entry-IsAdded :
    (ceiling : ℕ) (directory : Text) (entry : FileEntry) (before inside : Walked)
    → IsName entry.name
    → IsAdded (IsBelow (join_name directory entry.name)) before inside
    → IsAdded
        (IsAt directory entry.name)
        before
        (record_entry ceiling (join_name directory entry.name) entry inside)
unfolding record_entry
record_entry-IsAdded ceiling directory entry before inside h (new, e, all, order) =
    let full = join_name directory entry.name in
    let closed = join_name-IsClosed directory entry.name h in
    (
      new ++ (full ∷ []),
      ap (λ ps. ps ++ (full ∷ [])) e ∙ append_assoc before.paths new (full ∷ []),
      All-append (IsAt directory entry.name) new (full ∷ [])
          (All-map (IsBelow full) (IsAt directory entry.name)
            (λ q b. IsAt-of_below directory entry.name q h b) new all)
          ((at_self directory entry.name, under_self directory entry.name, closed), tt),
      IsPostOrder-append new (full ∷ []) order (tt, tt)
          (All-map (IsBelow full) (λ p. All (λ q. is_under p q ≡ false) (full ∷ []))
            (λ p b. (under_asym full p b.1 b.0, tt)) new all),
    )

module _ (ceiling : ℕ) (include_links : Bool) (deeper : Text → Walked → Walked)
    (below : (directory : Text) (walk : Walked)
      → IsAdded (IsBelow directory) walk (deeper directory walk)) where
  visit-IsAdded :
      (directory : Text) (entry : FileEntry) (walk : Walked)
      → IsName entry.name
      → IsAdded
          (IsAt directory entry.name)
          walk
          (visit deeper ceiling include_links directory entry walk)
  unfolding visit
  visit-IsAdded directory entry walk h =
      let P = IsAt directory entry.name in
      let full = join_name directory entry.name in
      let counted = count_link entry walk in
      let same = count_link-paths entry walk in
      let inside = go_in deeper full entry counted in
      let walked : IsAdded (IsBelow full) walk inside =
        if_either (IsAdded (IsBelow full) walk) (is_directory entry)
          (λ _.
            let (new, e, all, order) = below full counted in
            (new, e ∙ ap (λ ps. ps ++ new) same, all, order))
          (λ _. IsAdded-none (IsBelow full) walk counted same) in
      if_either (IsAdded P walk) walk.exceeded (λ _. IsAdded-none P walk walk refl)
        (λ _.
          if_either (IsAdded P walk) (is_symlink entry && not include_links)
            (λ _. IsAdded-none P walk counted same)
            (λ _.
              if_either (IsAdded P walk) inside.exceeded
                (λ _.
                  let (new, e, all, order) = walked in
                  (
                    new,
                    e,
                    All-map (IsBelow full) P (λ q b. IsAt-of_below directory entry.name q h b) new
                        all,
                    order,
                  ))
                (λ _. record_entry-IsAdded ceiling directory entry walk inside h walked)))

  -- Two entries of one listing: nothing at the later one lies below what is at the earlier one.
  apart :
      (directory name : Text) (ns : List Text) (p q : Text)
      → IsName name
      → All IsName ns
      → IsFresh name ns
      → IsAt directory name p
      → IsAtSome directory ns q
      → is_under p q ≡ false
  unfolding member
  apart directory name ns p q h hs fresh at (some_at, under, closed) =
      elim (Bool-cases (is_under p q)) [
        | inr no_way ↦ no_way
        | inl u ↦ absurd (none_of ns hs fresh some_at (at_below directory name p q at.2 at.0 u))
      ]
    where
      none_of :
          (ns : List Text)
          → All IsName ns
          → IsFresh name ns
          → Some (λ n. is_at directory n q ≡ true) ns
          → is_at directory name q ≡ true
          → ⊥
      none_of [] hs fresh some_at own = some_at
      none_of (n ∷ ns) hs fresh (inl at_n) own =
          (let same = at_unique directory n name q hs.0 h at_n own in
            cc (same, fresh, text_eq_refl name))
      none_of (n ∷ ns) hs fresh (inr later) own = none_of ns hs.1 (ground (arith, fresh)) later own

  visit_each-IsAdded :
      (directory : Text) (es : List FileEntry) (walk : Walked)
      → All IsName (names es)
      → AreUnique (names es)
      → IsAdded
          (IsAtSome directory (names es))
          walk
          (visit_each deeper ceiling include_links directory es walk)
  unfolding visit_each
  visit_each-IsAdded directory [] walk hs u = IsAdded-none (IsAtSome directory []) walk walk refl
  visit_each-IsAdded directory (e ∷ es) walk (h, hs) (fresh, u) =
      let next = visit deeper ceiling include_links directory e walk in
      let (new, same, all, order) = visit-IsAdded directory e walk h in
      let (more, same', all', order') = visit_each-IsAdded directory es next hs u in
      (
        new ++ more,
        same' ∙ ap (λ ps. ps ++ more) same ∙ append_assoc walk.paths new more,
        All-append (IsAtSome directory (names (e ∷ es))) new more
            (All-map (IsAt directory e.name) (IsAtSome directory (names (e ∷ es)))
              (λ q a. (inl a.0, a.1, a.2)) new all)
            (All-map (IsAtSome directory (names es)) (IsAtSome directory (names (e ∷ es)))
              (λ q a. (inr a.0, a.1, a.2)) more all'),
        IsPostOrder-append new more order order' (
            All-pairs (IsAt directory e.name) (IsAtSome directory (names es))
              (λ p q. is_under p q ≡ false)
              (λ p q a b. apart directory e.name (names es) p q h hs fresh a b) new more all all'),
      )

  after_list-IsAdded :
      (directory : Text) (listing : Listing) (walk : Walked)
      → IsProper listing
      → IsAdded
          (IsBelow directory)
          walk
          (after_list deeper ceiling include_links directory listing walk)
  after_list-IsAdded directory (listed es) walk (hs, u) =
      let (new, e, all, order) = visit_each-IsAdded directory es walk hs u in
      (
        new,
        e,
        All-map (IsAtSome directory (names es)) (IsBelow directory) (λ q a. (a.1, a.2)) new all,
        order,
      )
  after_list-IsAdded directory not_directory walk h =
      IsAdded-none (IsBelow directory) walk walk refl
  after_list-IsAdded directory unlisted walk h =
      IsAdded-none (IsBelow directory) walk
        (record walk { unreadable = walk.unreadable ++ (directory ∷ []) }) refl

module _ (driver : Driver) (proper : (directory : Text) → IsProper (driver.list directory))
    (ceiling : ℕ) (include_links : Bool) where
  descend-IsAdded :
      (levels : ℕ) (directory : Text) (walk : Walked)
      → IsAdded
          (IsBelow directory)
          walk
          (descend driver ceiling include_links levels directory walk)
  unfolding descend
  descend-IsAdded zero directory walk =
      let P = IsBelow directory in
      if_either (IsAdded P walk) walk.exceeded (λ _. IsAdded-none P walk walk refl)
        (λ _.
          after_list-IsAdded ceiling include_links (λ _ w. w)
            (λ d w. IsAdded-none (IsBelow d) w w refl) directory (driver.list directory) walk
            (proper directory))
  descend-IsAdded (suc levels) directory walk =
      let P = IsBelow directory in
      if_either (IsAdded P walk) walk.exceeded (λ _. IsAdded-none P walk walk refl)
        (λ _.
          after_list-IsAdded ceiling include_links (descend driver ceiling include_links levels)
            (descend-IsAdded levels) directory (driver.list directory) walk (proper directory))

  -- Where the names in a listing have no slash and none stands twice, a walk is in post-order: no path
  -- stands behind a path that it lies below. A walk that did not pass the ceiling ends with the root,
  -- behind paths that all lie below it; one that did has only paths below the root, without the root.
  pub walk_tree-IsPostOrder :
      (root : Text) → IsOrdered root (walk_tree driver root ceiling include_links)
  unfolding walk_tree
  walk_tree-IsPostOrder root =
      let walk = descend driver ceiling include_links 63 root nothing_walked in
      let (new, e, all, order) = descend-IsAdded 63 root nothing_walked in
      let lower = All-map (IsBelow root) (λ q. is_under root q ≡ true) (λ q b. b.0) new all in
      if_either (IsOrdered root) walk.exceeded
        (λ over. (subst IsPostOrder (sym e) order, inl (over, subst (All _) (sym e) lower)))
        (λ going. (
          subst (λ ps. IsPostOrder (ps ++ (root ∷ []))) (sym e)
              (IsPostOrder-append new (root ∷ []) order (tt, tt)
                (All-map (IsBelow root) (λ p. All (λ q. is_under p q ≡ false) (root ∷ []))
                  (λ p b. (under_asym root p b.1 b.0, tt)) new all)),
          inr (going, (new, ap (λ ps. ps ++ (root ∷ [])) e, lower)),
        ))
