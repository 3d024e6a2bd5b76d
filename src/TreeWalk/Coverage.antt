-- ===== src/TreeWalk/Coverage.antt =====
-- nest-api/src/fs/tree-walk.ts: a walk that did not pass its ceiling has seen all there is.
use trekker.Prelude.{
  ℕ, zero, suc, ◌≡◌, refl, sym, subst, inl, inr, ◌⊎◌, Bool, true, false, List, [], ◌∷◌, if_either,
  if◌then◌else◌,
}
use trekker.Text.{Text, member}
use trekker.Text.Unique.{member-append}
use trekker.TreeWalk.{
  FileEntry, Walked, listed, Driver, join_name, is_directory, visit_each, after_list, descend,
  nothing_walked, add_root, walk_tree,
}
use trekker.TreeWalk.Growth.{
  InListing, is_wanted, Extends, Has, Extends-refl, after_list-Extends, visit_each-Has,
  visit-Has_below, visit-Has_here,
}

-- What can be come to from a directory over at most so many levels of directories that can be listed.
pub data Reaches (driver : Driver) (include_links : Bool) : ℕ → Text → Text → Type 0 where
  listed_here :
      (levels : ℕ) (directory : Text) (e : FileEntry) (es : List FileEntry)
      → driver.list directory ≡ listed es
      → InListing e es
      → is_wanted include_links e ≡ true
      → Reaches driver include_links levels directory (join_name directory e.name)
  listed_below :
      (levels : ℕ) (directory path : Text) (e : FileEntry) (es : List FileEntry)
      → driver.list directory ≡ listed es
      → InListing e es
      → is_directory e ≡ true
      → Reaches driver include_links levels (join_name directory e.name) path
      → Reaches driver include_links (suc levels) directory path

module _ (driver : Driver) (ceiling : ℕ) (include_links : Bool) where
  descend-Extends :
      (path : Text) (levels : ℕ) (directory : Text) (walk : Walked)
      → Extends path walk (descend driver ceiling include_links levels directory walk)
  unfolding descend
  descend-Extends path zero directory walk =
      if_either (Extends path walk) walk.exceeded (λ _. Extends-refl path walk)
        (λ _.
          after_list-Extends path ceiling include_links (λ _ w. w) (λ _ w. Extends-refl path w)
            directory (driver.list directory) walk)
  descend-Extends path (suc levels) directory walk =
      if_either (Extends path walk) walk.exceeded (λ _. Extends-refl path walk)
        (λ _.
          after_list-Extends path ceiling include_links
            (descend driver ceiling include_links levels) (descend-Extends path levels) directory
            (driver.list directory) walk)

  -- `descend` once it is known that the directory was listed.
  from_listing :
      (deeper : Text → Walked → Walked) (path directory : Text) (es : List FileEntry)
      → driver.list directory ≡ listed es
      → ((walk : Walked) → Has path (visit_each deeper ceiling include_links directory es walk))
      → (walk : Walked)
      → Has path (
          if walk.exceeded
          then walk
          else after_list deeper ceiling include_links directory (driver.list directory) walk)
  from_listing deeper path directory es found has walk =
      if_either (Has path) walk.exceeded (λ e. inl e)
        (λ _.
          subst (λ l. Has path (after_list deeper ceiling include_links directory l walk))
            (sym found) (has walk))

  descend-Has :
      (levels : ℕ) (directory path : Text)
      → Reaches driver include_links levels directory path
      → (walk : Walked) → Has path (descend driver ceiling include_links levels directory walk)
  unfolding descend
  descend-Has zero directory path (listed_here _ _ e es found at wanted) =
      let stay : Text → Walked → Walked = λ _ w. w in
      from_listing stay path directory es found (
        visit_each-Has path ceiling include_links stay (λ _ w. Extends-refl path w) directory e es
          at (visit-Has_here ceiling include_links stay directory e wanted))
  descend-Has (suc levels) directory path (listed_here _ _ e es found at wanted) =
      let deeper = descend driver ceiling include_links levels in
      from_listing deeper path directory es found (
        visit_each-Has path ceiling include_links deeper (descend-Extends path levels) directory e
          es at (visit-Has_here ceiling include_links deeper directory e wanted))
  descend-Has (suc levels) directory path (listed_below _ _ _ e es found at dir further) =
      let deeper = descend driver ceiling include_links levels in
      from_listing deeper path directory es found (
        visit_each-Has path ceiling include_links deeper (descend-Extends path levels) directory e
          es at
          (visit-Has_below path ceiling include_links deeper (descend-Extends path levels) directory
            e dir (descend-Has levels (join_name directory e.name) path further)))

  -- A walk that did not pass its ceiling has every path that can be come to from the root over at most
  -- 64 levels of directories that the driver lists, links apart where they are not asked for.
  pub walk_tree-Covers :
      (root path : Text)
      → Reaches driver include_links 63 root path
      → ((walk_tree driver root ceiling include_links).exceeded ≡ true)
        ⊎ (member path (walk_tree driver root ceiling include_links).paths ≡ true)
  unfolding walk_tree
  walk_tree-Covers root path reach =
      let walk = descend driver ceiling include_links 63 root nothing_walked in
      let has = descend-Has 63 root path reach nothing_walked in
      if_either (Has path) walk.exceeded (λ _. has) (λ going. rooted walk has going)
    where
      rooted :
          (walk : Walked)
          → Has path walk
          → walk.exceeded ≡ false
          → Has path (add_root driver root walk)
      rooted walk (inl e) going = inl e
      rooted walk (inr m) going = inr (rw (member-append path walk.paths (root ∷ []), m) refl)
