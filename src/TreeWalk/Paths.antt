-- ===== src/TreeWalk/Paths.antt =====
-- Paths below a directory, as beginnings of texts.
use trekker.Prelude.{
  ℕ, ◌≤◌, ◌<◌, ◌≡◌, refl, ap, ap₂, sym, subst, ◌∙◌, inl, inr, Bool, true, false, [], ◌∷◌, ◌++◌,
  append_assoc, append-nil, arith, ==_refl, length, length-append, if_either, if◌then◌else◌,
  Bool-cases,
}
use trekker.Text.{Text, starts_with, includes}
use trekker.Posix.{ends_with_slash}
use trekker.TreeWalk.{join_name}

-- The path of a directory with the slash behind it.
unfoldable pub folder : Text → Text
unfolding ends_with_slash
folder directory = if ends_with_slash directory then directory else directory ++ (47 ∷ [])

-- `path` lies below `directory`.
abbrev pub is_under : Text → Text → Bool
is_under directory path = starts_with (folder directory) path

-- The name of an entry: not empty and without a slash.
abbrev pub IsName : Text → Type 0
IsName name = (1 ≤ length name) × (includes 47 name ≡ false)

pub join_name-folder : (directory name : Text) → join_name directory name ≡ folder directory ++ name
unfolding join_name folder
join_name-folder directory name = elim (Bool-cases (ends_with_slash directory)) [
  | inl e ↦ rw (e) refl
  | inr e ↦ rw (e) (sym (append_assoc directory (47 ∷ []) name))
]

pub starts_with-append : (p s : Text) → starts_with p (p ++ s) ≡ true
unfolding starts_with
starts_with-append [] s = refl
starts_with-append (c ∷ p) s = rw (==_refl c) (starts_with-append p s)

pub starts_with_split : (p s : Text) → starts_with p s ≡ true → (rest : Text) × (s ≡ p ++ rest)
unfolding starts_with
starts_with_split [] s h = (s, refl)
starts_with_split (c ∷ p) [] h = cc
starts_with_split (c ∷ p) (d ∷ s) h =
    let (rest, e) = starts_with_split p s (ground (arith, h)) in
    let same : c ≡ d = ground (arith, h) in (rest, ap₂ (λ x xs. x ∷ xs) (sym same) e)

pub starts_with_of_eq : (p s rest : Text) → s ≡ p ++ rest → starts_with p s ≡ true
starts_with_of_eq p s rest e = rw (e) (starts_with-append p rest)

-- A slash-free name in front of a slash is determined.
first_name :
    (n m r s : Text)
    → includes 47 n ≡ false
    → includes 47 m ≡ false
    → n ++ (47 ∷ r) ≡ m ++ (47 ∷ s)
    → n ≡ m
unfolding includes
first_name [] [] r s h k e = refl
first_name [] (d ∷ m) r s h k e = let same : 47 ≡ d = cc in ground (arith, same, k)
first_name (c ∷ n) [] r s h k e = let same : c ≡ 47 = cc in ground (arith, same, h)
first_name (c ∷ n) (d ∷ m) r s h k e =
    let same : c ≡ d = cc in
    let more : n ++ (47 ∷ r) ≡ m ++ (47 ∷ s) = cc in
    ap₂ (λ x xs. x ∷ xs) same (first_name n m r s (ground (arith, h)) (ground (arith, k)) more)

pub append_cancel : (p a b : Text) → p ++ a ≡ p ++ b → a ≡ b
append_cancel [] a b e = e
append_cancel (c ∷ p) a b e = append_cancel p a b (let more : p ++ a ≡ p ++ b = cc in more)

name-ends : (name : Text) → IsName name → ends_with_slash name ≡ false
unfolding ends_with_slash includes
name-ends [] h = refl
name-ends (c ∷ []) h = ground (arith, h.1)
name-ends (c ∷ d ∷ s) h = name-ends (d ∷ s) (omega arith, ground (arith, h.1))

ends_with_slash-cons :
    (c : ℕ) (s : Text) → 1 ≤ length s → ends_with_slash (c ∷ s) ≡ ends_with_slash s
unfolding ends_with_slash
ends_with_slash-cons c [] h = ground arith
ends_with_slash-cons c (d ∷ s) h = refl

pub ends_with_slash-append : (p name : Text) → IsName name → ends_with_slash (p ++ name) ≡ false
ends_with_slash-append [] name h = name-ends name h
ends_with_slash-append (c ∷ p) name h =
    ends_with_slash-cons c (p ++ name) (omega (arith, h.0, length-append p name))
    ∙ ends_with_slash-append p name h

-- The folder of an entry of a directory.
pub folder-join_name :
    (directory name : Text)
    → IsName name
    → folder (join_name directory name) ≡ folder directory ++ (name ++ (47 ∷ []))
unfolding folder
folder-join_name directory name h =
    let open_end = ends_with_slash-append (folder directory) name h in
    rw (join_name-folder directory name, folder, open_end)
      (append_assoc (folder directory) name (47 ∷ []))

-- What lies below an entry lies below the directory.
pub under-join_name :
    (directory name path : Text)
    → IsName name
    → is_under (join_name directory name) path ≡ true
    → is_under directory path ≡ true
under-join_name directory name path h u =
    let (rest, e) = starts_with_split (folder (join_name directory name)) path u in
    starts_with_of_eq (folder directory) path ((name ++ (47 ∷ [])) ++ rest) (
      e
      ∙ ap (λ t. t ++ rest) (folder-join_name directory name h)
      ∙ append_assoc (folder directory) (name ++ (47 ∷ [])) rest)

pub under_self : (directory name : Text) → is_under directory (join_name directory name) ≡ true
under_self directory name =
    starts_with_of_eq (folder directory) (join_name directory name) name
      (join_name-folder directory name)

-- `path` is the entry of that name, or lies below it.
abbrev pub is_at : Text → Text → Text → Bool
is_at directory name path =
    starts_with (folder directory ++ (name ++ (47 ∷ []))) (path ++ (47 ∷ []))

-- A path of an entry: no slash behind it.
abbrev pub IsClosed : Text → Type 0
IsClosed path = ends_with_slash path ≡ false

folder_of_closed : (path : Text) → IsClosed path → folder path ≡ path ++ (47 ∷ [])
unfolding folder
folder_of_closed path h = rw (h) refl

pub join_name-IsClosed : (directory name : Text) → IsName name → IsClosed (join_name directory name)
join_name-IsClosed directory name h =
    subst IsClosed (sym (join_name-folder directory name))
      (ends_with_slash-append (folder directory) name h)

pub at_self : (directory name : Text) → is_at directory name (join_name directory name) ≡ true
at_self directory name =
    starts_with_of_eq (folder directory ++ (name ++ (47 ∷ [])))
      (join_name directory name ++ (47 ∷ [])) []
      (ap (λ t. t ++ (47 ∷ [])) (join_name-folder directory name)
        ∙ append_assoc (folder directory) name (47 ∷ [])
        ∙ sym (append-nil (folder directory ++ (name ++ (47 ∷ [])))))

starts_with-longer : (p s t : Text) → starts_with p s ≡ true → starts_with p (s ++ t) ≡ true
starts_with-longer p s t h =
    let (rest, e) = starts_with_split p s h in
    starts_with_of_eq p (s ++ t) (rest ++ t) (ap (λ x. x ++ t) e ∙ append_assoc p rest t)

-- What lies below the entry of a name is at that name.
pub at_of_under :
    (directory name path : Text)
    → IsName name
    → is_under (join_name directory name) path ≡ true
    → is_at directory name path ≡ true
at_of_under directory name path h u =
    starts_with-longer (folder directory ++ (name ++ (47 ∷ []))) path (47 ∷ [])
      (subst (λ f. starts_with f path ≡ true) (folder-join_name directory name h) u)

-- What lies below a path at a name is at that name.
pub at_below :
    (directory name p q : Text)
    → IsClosed p
    → is_at directory name p ≡ true
    → is_under p q ≡ true
    → is_at directory name q ≡ true
at_below directory name p q closed at u =
    let base = folder directory ++ (name ++ (47 ∷ [])) in
    let (r, e) = starts_with_split base (p ++ (47 ∷ [])) at in
    let (s, f) = starts_with_split (folder p) q u in
    starts_with-longer base q (47 ∷ []) (
      starts_with_of_eq base q (r ++ s)
        (f ∙ ap (λ t. t ++ s) (folder_of_closed p closed ∙ e) ∙ append_assoc base r s))

-- A path is at one name.
pub at_unique :
    (directory n m q : Text)
    → IsName n
    → IsName m
    → is_at directory n q ≡ true
    → is_at directory m q ≡ true
    → n ≡ m
at_unique directory n m q hn hm an am =
    let base = folder directory in
    let (r, e) = starts_with_split (base ++ (n ++ (47 ∷ []))) (q ++ (47 ∷ [])) an in
    let (s, f) = starts_with_split (base ++ (m ++ (47 ∷ []))) (q ++ (47 ∷ [])) am in
    let shape : (k t : Text) → (base ++ (k ++ (47 ∷ []))) ++ t ≡ base ++ (k ++ (47 ∷ t)) = λ k t.
      append_assoc base (k ++ (47 ∷ [])) t ∙ ap (λ x. base ++ x) (append_assoc k (47 ∷ []) t) in
    first_name n m r s hn.1 hm.1
      (append_cancel base (n ++ (47 ∷ r)) (m ++ (47 ∷ s)) (sym (shape n r) ∙ sym e ∙ f ∙ shape m s))

under-length : (p q : Text) → IsClosed p → is_under p q ≡ true → length p < length q
under-length p q closed u =
    let (s, f) = starts_with_split (folder p) q u in
    let size = ap (λ (t : Text). length t) (f ∙ ap (λ t. t ++ s) (folder_of_closed p closed)) in
    omega (arith, size, length-append (p ++ (47 ∷ [])) s, length-append p (47 ∷ []))

folder-le : (p : Text) → length p ≤ length (folder p)
unfolding folder
folder-le p =
    if_either (λ (t : Text). length p ≤ length t) (ends_with_slash p) (λ _. omega arith)
      (λ _. omega (arith, length-append p (47 ∷ [])))

-- A directory does not lie below what lies below it.
pub under_asym : (p q : Text) → IsClosed q → is_under p q ≡ true → is_under q p ≡ false
under_asym p q cq u = elim (Bool-cases (is_under q p)) [
  | inr no_way ↦ no_way
  | inl back ↦
      (let shorter = under-length q p cq back in
        let (s, f) = starts_with_split (folder p) q u in
        let size = ap (λ (t : Text). length t) f in
        absurd (omega (arith, shorter, size, folder-le p, length-append (folder p) s)))
]
