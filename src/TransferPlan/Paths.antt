-- ===== src/TransferPlan/Paths.antt =====
-- The paths of a selection: the directory it was made in, and a destination inside it.
use trekker.Prelude.{
  ℕ, ◌≡◌, ◌↔◌, refl, sym, ap, subst, true, false, not, ◌&&◌, some, List, [], ◌∷◌, ◌++◌, map, arith,
  if◌then◌else◌, ◌==◌, if_either, All, append-nil, any,
}
use trekker.Text.{Text, codes, text_eq, includes, is_empty, join, trim_end}
use trekker.Text.Laws.{text_eq_refl, cut_last-append}
use trekker.PathGuard.{contains}
use trekker.PathGuard.Paths.{
  IsSegment, path_of, IsPrefix, slashed, path_of-slashed, no_slash, contains-path_of_iff,
}
use trekker.Posix.{ends_with_slash}
use trekker.TransferPlan.{
  parent_at, parent_of, join_path, normalise, common_parent, destination_inside_source,
}

-- A text without the character in front of one that does not end in it.
trim_end-append :
    (c : ℕ) (a t : Text) → includes c a ≡ false → trim_end c t ≡ t → trim_end c (a ++ t) ≡ a ++ t
unfolding trim_end includes
trim_end-append c [] t h e = e
trim_end-append c (d ∷ a) t h e = rw (trim_end-append c a t (ground (arith, h)) e) ground (arith, h)

trim_nil : trim_end 47 [] ≡ []
unfolding trim_end
trim_nil = refl

trim_end-slash :
    (d : ℕ) (s : Text) → trim_end 47 (d ∷ s) ≡ d ∷ s → trim_end 47 (47 ∷ d ∷ s) ≡ 47 ∷ d ∷ s
unfolding trim_end
trim_end-slash d s h = ap (λ l. if is_empty l && true then [] else 47 ∷ l) h

trim_end-cat :
    (x : Text) (d : ℕ) (t : Text)
    → trim_end 47 (d ∷ t) ≡ d ∷ t
    → trim_end 47 (x ++ (d ∷ t)) ≡ x ++ (d ∷ t)
unfolding trim_end
trim_end-cat [] d t h = h
trim_end-cat (c ∷ []) d t h = ap (λ l. if is_empty l && c == 47 then [] else c ∷ l) h
trim_end-cat (c ∷ b ∷ x) d t h =
    ap (λ l. if is_empty l && c == 47 then [] else c ∷ l) (trim_end-cat (b ∷ x) d t h)

trim_end-segment : (n : Text) → IsSegment n → trim_end 47 (47 ∷ n) ≡ 47 ∷ n
trim_end-segment [] h = absurd h
trim_end-segment (c ∷ n) h =
    trim_end-slash c n (
      subst (λ t. trim_end 47 t ≡ t) (append-nil (c ∷ n))
        (trim_end-append 47 (c ∷ n) [] h trim_nil))

trim_end-slashed :
    (a : Text) (us : List Text)
    → IsSegment a
    → All IsSegment us
    → trim_end 47 (slashed (a ∷ us)) ≡ slashed (a ∷ us)
trim_end-slashed [] us h hs = absurd h
trim_end-slashed (c ∷ w) [] h hs =
    trim_end-slash c (w ++ []) (trim_end-append 47 (c ∷ w) [] h trim_nil)
trim_end-slashed (c ∷ w) (b ∷ us) h hs =
    trim_end-slash c (w ++ slashed (b ∷ us))
      (trim_end-append 47 (c ∷ w) (slashed (b ∷ us)) h (trim_end-slashed b us hs.0 hs.1))

normalise-path_of : (us : List Text) → All IsSegment us → normalise (path_of us) ≡ path_of us
unfolding normalise join trim_end
normalise-path_of [] h = refl
normalise-path_of (a ∷ us) h =
    subst (λ p. normalise p ≡ p) (sym (path_of-slashed a us))
      (ap (λ t. if is_empty t then codes "/" else t) (trim_end-slashed a us h.0 h.1))

inside-contains :
    (s d : Text) → normalise s ≡ s → normalise d ≡ d → destination_inside_source s d ≡ contains s d
unfolding destination_inside_source contains
inside-contains s d hs hd = rw (hs, hd) refl

-- On clean paths, the destination counts as inside the source exactly when the source's segments are
-- the first segments of the destination.
pub destination_inside_source_iff :
    (us vs : List Text)
    → All IsSegment us
    → All IsSegment vs
    → (destination_inside_source (path_of us) (path_of vs) ≡ true) ↔ IsPrefix us vs
destination_inside_source_iff us vs h k =
    rw (inside-contains (path_of us) (path_of vs) (normalise-path_of us h) (normalise-path_of vs k))
      (contains-path_of_iff us vs h k)

ends-append :
    (a t : Text)
    → includes 47 a ≡ false
    → ends_with_slash t ≡ false
    → ends_with_slash (a ++ t) ≡ false
unfolding ends_with_slash includes
ends-append [] t h e = e
ends-append (d ∷ []) [] h e = ground (arith, h)
ends-append (d ∷ []) (x ∷ t) h e = e
ends-append (d ∷ b ∷ a) t h e = ends-append (b ∷ a) t (ground (arith, h)) e

ends-slashed :
    (a : Text) (us : List Text)
    → IsSegment a
    → All IsSegment us
    → ends_with_slash (slashed (a ∷ us)) ≡ false
unfolding ends_with_slash
ends-slashed [] us h hs = absurd h
ends-slashed (c ∷ w) [] h hs = ends-append (c ∷ w) [] h refl
ends-slashed (c ∷ w) (b ∷ us) h hs =
    ends-append (c ∷ w) (slashed (b ∷ us)) h (ends-slashed b us hs.0 hs.1)

join-slashed :
    (us : List Text) (n : Text)
    → All IsSegment us
    → join_path (path_of us) n ≡ slashed us ++ (47 ∷ n)
unfolding join_path join ends_with_slash
join-slashed [] n h = refl
join-slashed (a ∷ us) n h =
    subst (λ p. join_path p n ≡ slashed (a ∷ us) ++ (47 ∷ n)) (sym (path_of-slashed a us))
      (if_either (λ t. t ≡ slashed (a ∷ us) ++ (47 ∷ n)) (ends_with_slash (slashed (a ∷ us)))
        (λ e. absurd (cc (e, ends-slashed a us h.0 h.1))) (λ _. refl))

parent-slashed :
    (us : List Text) (from : Text)
    → parent_at (slashed us ++ from) (some (slashed us, from)) ≡ path_of us
unfolding join
parent-slashed [] from = refl
parent-slashed (a ∷ us) from = sym (path_of-slashed a us)

parent_of-join_path :
    (us : List Text) (n : Text)
    → All IsSegment us
    → IsSegment n
    → parent_of (join_path (path_of us) n) ≡ path_of us
unfolding parent_of
parent_of-join_path us n h k =
    rw
      (
        join-slashed us n h,
        trim_end-cat (slashed us) 47 n (trim_end-segment n k),
        cut_last-append 47 (slashed us) n (no_slash n k),
      )
      (parent-slashed us (47 ∷ n))

all_share :
    (us : List Text) (names : List Text)
    → All IsSegment us
    → All IsSegment names
    → any (λ q. not (text_eq (parent_of q) (path_of us))) (map (join_path (path_of us)) names)
      ≡ false
all_share us [] h k = refl
all_share us (n ∷ names) h k =
    rw (parent_of-join_path us n h k.0, text_eq_refl (path_of us)) (all_share us names h k.1)

share_one :
    (p d : Text) (paths : List Text)
    → parent_of p ≡ d
    → any (λ q. not (text_eq (parent_of q) d)) paths ≡ false
    → common_parent (p ∷ paths) ≡ some d
unfolding common_parent
share_one p d paths e h = rw (e, h) refl

-- The entries of one directory have that directory as the parent they share.
pub common_parent-join_path :
    (us : List Text) (n : Text) (names : List Text)
    → All IsSegment us
    → All IsSegment (n ∷ names)
    → common_parent (map (join_path (path_of us)) (n ∷ names)) ≡ some (path_of us)
common_parent-join_path us n names h k =
    share_one (join_path (path_of us) n) (path_of us) (map (join_path (path_of us)) names)
      (parent_of-join_path us n h k.0) (all_share us names h k.1)
