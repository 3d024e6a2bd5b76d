-- ===== src/CompareTree/Verdicts.antt =====
-- What the verdict on one pair says of it.
use trekker.Prelude.{◌≡◌, refl, ap, ◌↔◌, true, Option, none, some, arith, ◌==◌, if_either}
use trekker.Text.{Text, text_eq}
use trekker.Text.Laws.{eq_of_text_eq, text_eq_refl}
use trekker.CompareTree.{
  FileKind, Verdict, identical, Reason, FileEntry, kind_eq, decide_links, decide,
}

abbrev pub IsIdentical : Verdict → Type 0
IsIdentical identical = Unit
IsIdentical _ = ⊥

-- Two links that are known to point at the same target.
abbrev pub AreEqualLinks : Option FileEntry → Option FileEntry → Type 0
AreEqualLinks (some a) (some b) =
    (a.kind ≡ FileKind.symlink)
    × (b.kind ≡ FileKind.symlink)
    × ((t : Text) × (a.link_target ≡ some t) × (b.link_target ≡ some t))
AreEqualLinks _ _ = ⊥

symlink_of_code : (k : FileKind) → kind_eq k FileKind.symlink ≡ true → k ≡ FileKind.symlink
symlink_of_code FileKind.file h = cc
symlink_of_code FileKind.directory h = cc
symlink_of_code FileKind.symlink h = refl
symlink_of_code FileKind.block h = cc
symlink_of_code FileKind.character h = cc
symlink_of_code FileKind.fifo h = cc
symlink_of_code FileKind.socket h = cc
symlink_of_code FileKind.unknown h = cc

decide_links_identical :
    (s t : Option Text)
    → IsIdentical (decide_links s t).0
    → (u : Text) × (s ≡ some u) × (t ≡ some u)
unfolding decide_links
decide_links_identical (some s) (some t) =
    if_either
      (λ (v : Verdict × Reason).
        IsIdentical v.0 → (u : Text) × (some s ≡ some u) × (some t ≡ some u))
      (text_eq s t) (λ e h. (t, ap some (eq_of_text_eq s t e), refl)) (λ e h. absurd h)
decide_links_identical (some s) none = λ h. absurd h
decide_links_identical none t = λ h. absurd h

decide_pair_identical :
    (a b : FileEntry) → IsIdentical (decide (some a) (some b)).0 → AreEqualLinks (some a) (some b)
unfolding decide
decide_pair_identical a b =
    if_either Claims (kind_eq a.kind b.kind)
      (λ same.
        if_either Claims (kind_eq a.kind FileKind.symlink)
          (λ e h. (
            symlink_of_code a.kind e,
            symlink_of_code b.kind (ground (arith, same, e)),
            decide_links_identical a.link_target b.link_target h,
          ))
          (λ e.
            if_either Claims (a.size == b.size)
              (λ _. if_either Claims (a.mtime_ms == b.mtime_ms) (λ _ h. absurd h) (λ _ h. absurd h))
              (λ _ h. absurd h)))
      (λ _ h. absurd h)
  where
    Claims : Verdict × Reason → Type 0
    Claims v = IsIdentical v.0 → AreEqualLinks (some a) (some b)

-- A pair is called identical exactly when both are symbolic links that are known to point at the
-- same target: agreement in size and time is never enough.
pub decide-IsIdentical_iff :
    (a b : Option FileEntry) → IsIdentical (decide a b).0 ↔ AreEqualLinks a b
unfolding decide
decide-IsIdentical_iff (some a) none = (λ h. h, λ h. h)
decide-IsIdentical_iff none (some b) = (λ h. h, λ h. h)
decide-IsIdentical_iff none none = (λ h. h, λ h. h)
decide-IsIdentical_iff (some a) (some b) = (
  decide_pair_identical a b,
  λ (ka, kb, (t, la, lb)).
      rw (ka, kb, la, lb)
        (if_either (λ (v : Verdict × Reason). IsIdentical v.0) (text_eq t t) (λ _. tt)
          (λ e. absurd (cc (e, text_eq_refl t)))),
)
