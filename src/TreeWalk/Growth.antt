-- ===== src/TreeWalk/Growth.antt =====
-- nest-api/src/fs/tree-walk.ts: what a walk has seen it keeps.
use trekker.Prelude.{
  ℕ, ◌≡◌, refl, ap, inl, inr, ◌⊎◌, Bool, true, false, not, ◌&&◌, List, [], ◌∷◌, ◌++◌, arith, ltb,
  length, if_either, Bool-cases, and_true,
}
use trekker.Text.{Text, member}
use trekker.Text.Laws.{text_eq_refl}
use trekker.Text.Unique.{member-append}
use trekker.CompareTree.{FileKind}
use trekker.TreeWalk.{
  FileEntry, Walked, Listing, listed, not_directory, unlisted, join_name, is_symlink, is_directory,
  record_entry, count_link, go_in, visit, visit_each, after_list,
}

pub data InListing : FileEntry → List FileEntry → Type 0 where
  at_head : (e : FileEntry) (es : List FileEntry) → InListing e (e ∷ es)
  in_tail : (e d : FileEntry) (es : List FileEntry) → InListing e es → InListing e (d ∷ es)

-- A link is passed over unless it is asked for.
abbrev pub is_wanted : Bool → FileEntry → Bool
is_wanted include_links e = not (is_symlink e && not include_links)

-- What a step keeps: a walk that has exceeded goes on to have, and no path is lost.
abbrev pub Extends : Text → Walked → Walked → Type 0
Extends path before after =
    ((before.exceeded ≡ false) ⊎ (after.exceeded ≡ true))
    × ((member path before.paths ≡ false) ⊎ (member path after.paths ≡ true))

-- The walk has exceeded, or has the path.
abbrev pub Has : Text → Walked → Type 0
Has path walk = (walk.exceeded ≡ true) ⊎ (member path walk.paths ≡ true)

false_or_true : (b : Bool) → (b ≡ false) ⊎ (b ≡ true)
false_or_true true = inr refl
false_or_true false = inl refl

pub Extends-refl : (path : Text) (walk : Walked) → Extends path walk walk
Extends-refl path walk = (false_or_true walk.exceeded, false_or_true (member path walk.paths))

Extends-trans :
    (path : Text) (a b c : Walked) → Extends path a b → Extends path b c → Extends path a c
Extends-trans path a b c h k = (chain h.0 k.0, chain h.1 k.1)
  where
    chain :
        {x y z : Bool}
        → (x ≡ false) ⊎ (y ≡ true)
        → (y ≡ false) ⊎ (z ≡ true)
        → (x ≡ false) ⊎ (z ≡ true)
    chain (inl e) k = inl e
    chain (inr e) (inl f) = absurd (cc (e, f))
    chain (inr e) (inr f) = inr f

Has-later : (path : Text) (a b : Walked) → Has path a → Extends path a b → Has path b
Has-later path a b (inl e) (inl f, k) = absurd (cc (e, f))
Has-later path a b (inl e) (inr f, k) = inl f
Has-later path a b (inr e) (h, inl f) = absurd (cc (e, f))
Has-later path a b (inr e) (h, inr f) = inr f

count_link-Extends :
    (path : Text) (entry : FileEntry) (walk : Walked) → Extends path walk (count_link entry walk)
count_link-Extends path entry walk =
    if_either (Extends path walk) (is_symlink entry) (λ _. Extends-refl path walk)
      (λ _. Extends-refl path walk)

record_entry-Extends :
    (path : Text) (ceiling : ℕ) (full : Text) (entry : FileEntry) (walk : Walked)
    → Extends path walk (record_entry ceiling full entry walk)
unfolding record_entry
record_entry-Extends path ceiling full entry walk = (
  if_either (λ (b : Bool). (walk.exceeded ≡ false) ⊎ (b ≡ true))
      (ltb ceiling (length (walk.paths ++ (full ∷ [])))) (λ _. inr refl)
      (λ _. (Extends-refl path walk).0),
  elim (Bool-cases (member path walk.paths)) [
    | inl e ↦ inr (rw (member-append path walk.paths (full ∷ []), e) refl)
    | inr e ↦ inl e
  ],
)

record_entry-Has :
    (ceiling : ℕ) (full : Text) (entry : FileEntry) (walk : Walked)
    → Has full (record_entry ceiling full entry walk)
unfolding record_entry member
record_entry-Has ceiling full entry walk =
    inr (rw (member-append full walk.paths (full ∷ [])) (ground (arith, text_eq_refl full)))

directory_no_link :
    (kind : FileKind)
    → (elim kind [ FileKind.directory ↦ true | _ ↦ false ]) ≡ true
    → (elim kind [ FileKind.symlink ↦ true | _ ↦ false ]) ≡ true
    → ⊥
directory_no_link FileKind.symlink h k = cc
directory_no_link FileKind.directory h k = cc
directory_no_link FileKind.file h k = cc
directory_no_link FileKind.block h k = cc
directory_no_link FileKind.character h k = cc
directory_no_link FileKind.fifo h k = cc
directory_no_link FileKind.socket h k = cc
directory_no_link FileKind.unknown h k = cc

module _ (path : Text) (ceiling : ℕ) (include_links : Bool) (deeper : Text → Walked → Walked)
    (below : (directory : Text) (walk : Walked) → Extends path walk (deeper directory walk)) where
  go_in-Extends :
      (full : Text) (entry : FileEntry) (walk : Walked)
      → Extends path walk (go_in deeper full entry (count_link entry walk))
  go_in-Extends full entry walk =
      let counted = count_link-Extends path entry walk in
      if_either (Extends path walk) (is_directory entry)
        (λ _.
          Extends-trans path walk (count_link entry walk) (deeper full (count_link entry walk))
            counted (below full (count_link entry walk)))
        (λ _. counted)

  visit-Extends :
      (directory : Text) (entry : FileEntry) (walk : Walked)
      → Extends path walk (visit deeper ceiling include_links directory entry walk)
  unfolding visit
  visit-Extends directory entry walk =
      let full = join_name directory entry.name in
      let inside = go_in deeper full entry (count_link entry walk) in
      let walked = go_in-Extends full entry walk in
      if_either (Extends path walk) walk.exceeded (λ _. Extends-refl path walk)
        (λ _.
          if_either (Extends path walk) (is_symlink entry && not include_links)
            (λ _. count_link-Extends path entry walk)
            (λ _.
              if_either (Extends path walk) inside.exceeded (λ _. walked)
                (λ _.
                  Extends-trans path walk inside (record_entry ceiling full entry inside) walked
                    (record_entry-Extends path ceiling full entry inside))))

  visit_each-Extends :
      (directory : Text) (es : List FileEntry) (walk : Walked)
      → Extends path walk (visit_each deeper ceiling include_links directory es walk)
  unfolding visit_each
  visit_each-Extends directory [] walk = Extends-refl path walk
  visit_each-Extends directory (e ∷ es) walk =
      let next = visit deeper ceiling include_links directory e walk in
      Extends-trans path walk next (visit_each deeper ceiling include_links directory es next)
        (visit-Extends directory e walk) (visit_each-Extends directory es next)

  pub after_list-Extends :
      (directory : Text) (listing : Listing) (walk : Walked)
      → Extends path walk (after_list deeper ceiling include_links directory listing walk)
  after_list-Extends directory (listed es) walk = visit_each-Extends directory es walk
  after_list-Extends directory not_directory walk = Extends-refl path walk
  after_list-Extends directory unlisted walk = Extends-refl path walk

  -- What each visit of an entry has, the loop over a listing with the entry has.
  pub visit_each-Has :
      (directory : Text) (e : FileEntry) (es : List FileEntry)
      → InListing e es
      → ((walk : Walked) → Has path (visit deeper ceiling include_links directory e walk))
      → (walk : Walked) → Has path (visit_each deeper ceiling include_links directory es walk)
  unfolding visit_each
  visit_each-Has directory e es (at_head _ rest) has walk =
      let next = visit deeper ceiling include_links directory e walk in
      Has-later path next (visit_each deeper ceiling include_links directory rest next) (has walk)
        (visit_each-Extends directory rest next)
  visit_each-Has directory e es (in_tail _ d rest later) has walk =
      visit_each-Has directory e rest later has
        (visit deeper ceiling include_links directory d walk)

  pub visit-Has_below :
      (directory : Text) (entry : FileEntry)
      → is_directory entry ≡ true
      → ((walk : Walked) → Has path (deeper (join_name directory entry.name) walk))
      → (walk : Walked) → Has path (visit deeper ceiling include_links directory entry walk)
  unfolding visit
  visit-Has_below directory entry dir has walk =
      let full = join_name directory entry.name in
      let counted = count_link entry walk in
      let inside = go_in deeper full entry counted in
      let walked : Has path inside =
        if_either (Has path) (is_directory entry) (λ _. has counted) (λ e. absurd (cc (dir, e))) in
      if_either (Has path) walk.exceeded (λ e. inl e)
        (λ _.
          if_either (Has path) (is_symlink entry && not include_links)
            (λ e. absurd (
              directory_no_link entry.kind dir
                (and_true (is_symlink entry) (not include_links) e).0))
            (λ _.
              if_either (Has path) inside.exceeded (λ _. walked)
                (λ _.
                  Has-later path inside (record_entry ceiling full entry inside) walked
                    (record_entry-Extends path ceiling full entry inside))))

pub visit-Has_here :
    (ceiling : ℕ) (include_links : Bool) (deeper : Text → Walked → Walked) (directory : Text)
    (entry : FileEntry)
    → is_wanted include_links entry ≡ true
    → (walk : Walked)
    → Has (join_name directory entry.name) (visit deeper ceiling include_links directory entry walk)
unfolding visit
visit-Has_here ceiling include_links deeper directory entry wanted walk =
    let full = join_name directory entry.name in
    let inside = go_in deeper full entry (count_link entry walk) in
    if_either (Has full) walk.exceeded (λ e. inl e)
      (λ _.
        if_either (Has full) (is_symlink entry && not include_links)
          (λ e. absurd (cc (wanted, ap not e)))
          (λ _.
            if_either (Has full) inside.exceeded (λ e. inl e)
              (λ _. record_entry-Has ceiling full entry inside)))
