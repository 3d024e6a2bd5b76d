-- ===== src/Listing/Crumbs.antt =====
-- front/src/helpers/listing.ts: the breadcrumbs, and the paths that the server cleans.
use trekker.Prelude.{
  ◌≡◌, refl, ap, sym, ◌∙◌, Bool, true, false, List, [], ◌∷◌, ◌++◌, append-nil, append_assoc, All,
  All-append,
}
use trekker.Text.{Text, codes, split, join}
use trekker.PathGuard.{clean_path}
use trekker.PathGuard.Paths.{
  IsSegment, path_of, segments, segments-IsSegment, clean_path-segments, split-path_of,
}
use trekker.Listing.{drop_last, parent_path, Crumb, is_none, crumbs_from, breadcrumbs}

abbrev pub is_end : List Crumb → Bool
is_end [] = true
is_end (_ ∷ _) = false

-- Behind a path, each crumb leads one level further down, and the last one of them is marked.
abbrev pub IsTrail : Text → List Crumb → Type 0
IsTrail before [] = Unit
IsTrail before (c ∷ crumbs) =
    (parent_path c.path ≡ before) × (c.last ≡ is_end crumbs) × IsTrail c.path crumbs

-- The path that the last crumb leads to.
abbrev pub end_of : Text → List Crumb → Text
end_of path [] = path
end_of path (c ∷ crumbs) = end_of c.path crumbs

-- What is read on the screen.
abbrev pub labels : List Crumb → Text
labels [] = []
labels (c ∷ crumbs) = c.label ++ labels crumbs

drop_last-append : (above : List Text) (s : Text) → drop_last (above ++ (s ∷ [])) ≡ above
unfolding drop_last
drop_last-append [] s = refl
drop_last-append (a ∷ []) s = refl
drop_last-append (a ∷ b ∷ above) s = ap (λ l. a ∷ l) (drop_last-append (b ∷ above) s)

parent_path-path_of :
    (above : List Text) (s : Text)
    → All IsSegment above
    → IsSegment s
    → parent_path (path_of (above ++ (s ∷ []))) ≡ path_of above
unfolding parent_path
parent_path-path_of above s h k =
    let whole = All-append IsSegment above (s ∷ []) h (k, tt) in
    rw (split-path_of (above ++ (s ∷ [])) whole, drop_last-append above s) refl

is_end-crumbs_from :
    (above segments : List Text) → is_none segments ≡ is_end (crumbs_from above segments)
unfolding crumbs_from
is_end-crumbs_from above [] = refl
is_end-crumbs_from above (s ∷ segments) = refl

crumbs_from-IsTrail :
    (above segments : List Text)
    → All IsSegment above
    → All IsSegment segments
    → IsTrail (path_of above) (crumbs_from above segments)
unfolding crumbs_from
crumbs_from-IsTrail above [] h k = tt
crumbs_from-IsTrail above (s ∷ segments) h k =
    let here = above ++ (s ∷ []) in
    (
      parent_path-path_of above s h k.0,
      is_end-crumbs_from here segments,
      crumbs_from-IsTrail here segments (All-append IsSegment above (s ∷ []) h (k.0, tt)) k.1,
    )

end_of-crumbs_from :
    (above segments : List Text)
    → end_of (path_of above) (crumbs_from above segments) ≡ path_of (above ++ segments)
unfolding crumbs_from
end_of-crumbs_from above [] = ap path_of (sym (append-nil above))
end_of-crumbs_from above (s ∷ segments) =
    end_of-crumbs_from (above ++ (s ∷ [])) segments
    ∙ ap path_of (append_assoc above (s ∷ []) segments)

labels-crumbs_from :
    (above segments : List Text) → labels (crumbs_from above segments) ≡ join (codes "/") segments
unfolding crumbs_from join
labels-crumbs_from above [] = refl
labels-crumbs_from above (s ∷ []) = append_assoc s [] [] ∙ append-nil s
labels-crumbs_from above (s ∷ t ∷ segments) =
    append_assoc s (codes "/") (labels (crumbs_from (above ++ (s ∷ [])) (t ∷ segments)))
    ∙ ap (λ l. s ++ (47 ∷ l)) (labels-crumbs_from (above ++ (s ∷ [])) (t ∷ segments))

-- The breadcrumbs of any path lead from the root down, one level at a time, to the path that the server makes
-- of it when it cleans it; only the last one is marked, and together they read as that path.
pub breadcrumbs-IsTrail :
    (path : Text)
    → let crumbs = breadcrumbs path in
      IsTrail (codes "/") crumbs
      × (end_of [] crumbs ≡ clean_path path)
      × (labels crumbs ≡ clean_path path)
unfolding breadcrumbs parent_path join split drop_last
breadcrumbs-IsTrail path =
    let steps = segments path in
    let cleaned = sym (clean_path-segments path) in
    (
      (
        refl,
        is_end-crumbs_from [] steps,
        crumbs_from-IsTrail [] steps tt (segments-IsSegment path),
      ),
      end_of-crumbs_from [] steps ∙ cleaned,
      ap (λ l. 47 ∷ l) (labels-crumbs_from [] steps) ∙ cleaned,
    )
