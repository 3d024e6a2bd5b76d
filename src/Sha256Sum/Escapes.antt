-- ===== src/Sha256Sum/Escapes.antt =====
-- nest-api/src/hosts/sha256-sum.ts: lines as `sha256sum` prints them, and the laws of its
-- escaping.
use trekker.Prelude.{
  ℕ, ◌≡◌, refl, ap, ◌∙◌, inl, inr, Bool, true, false, not, ◌||◌, [], ◌∷◌, ◌++◌, append-nil, arith,
  ==_iff, ◌==◌, length, if_either, if◌then◌else◌, Bool-cases, all,
}
use trekker.Text.{is_dot, Text, is_space, includes}
use trekker.Text.Trim.{ends_open, ends_open_space, ends_open-append}
use trekker.Sha256Sum.{is_hex, unescape}

-- What `sha256sum` makes of a path that holds a backslash or a newline.
unfoldable pub escape_one : ℕ → Text
escape_one c = if c == 92 then 92 ∷ 92 ∷ [] else if c == 10 then 92 ∷ 110 ∷ [] else c ∷ []

unfoldable pub escape : Text → Text
escape [] = []
escape (c ∷ s) = escape_one c ++ escape s

-- The line that it prints for a path: one with a backslash in front if the path was escaped.
unfoldable pub sum_line : Text → Text → Text
sum_line digest path =
    if includes 92 path || includes 10 path
    then 92 ∷ (digest ++ (32 ∷ 32 ∷ escape path))
    else digest ++ (32 ∷ 32 ∷ path)

-- No carriage return and no line or paragraph separator.
abbrev pub is_plain : ℕ → Bool
is_plain c = not (c == 13 || c == 0x2028 || c == 0x2029)

abbrev pub IsDigest : Text → Type 0
IsDigest digest = (length digest ≡ 64) × (all is_hex digest ≡ true)

abbrev pub IsPlainPath : Text → Type 0
IsPlainPath path = (ends_open path ≡ true) × (all is_plain path ≡ true)

unescape_other : (c : ℕ) (s : Text) → (c == 92) ≡ false → unescape (c ∷ s) ≡ c ∷ unescape s
unfolding unescape
unescape_other c [] h = refl
unescape_other c (d ∷ s) h = rw (h) refl

pub unescape-escape : (s : Text) → unescape (escape s) ≡ s
unfolding escape escape_one unescape
unescape-escape [] = refl
unescape-escape (c ∷ s) = elim (Bool-cases (c == 92)) [
  | inl e ↦ rw (e) (rw ((==_iff c 92).0 e) (ap (λ t. 92 ∷ t) (unescape-escape s)))
  | inr e ↦ rw (e) (elim (Bool-cases (c == 10)) [
    | inl e' ↦ rw (e') (rw ((==_iff c 10).0 e') (ap (λ t. 10 ∷ t) (unescape-escape s)))
    | inr e' ↦ rw (e') (unescape_other c (escape s) e ∙ ap (λ t. c ∷ t) (unescape-escape s))
  ])
]

ends_open-escape_one : (c : ℕ) → is_space c ≡ false → ends_open (escape_one c) ≡ true
unfolding escape_one ends_open is_space
ends_open-escape_one c h =
    if_either (λ (t : Text). ends_open t ≡ true) (c == 92) (λ _. refl)
      (λ _.
        if_either (λ (t : Text). ends_open t ≡ true) (c == 10)
          (λ e. let is = (==_iff c 10).0 e in ground (arith, h, is)) (λ _. rw (h) refl))

pub ends_open-escape : (s : Text) → ends_open s ≡ true → ends_open (escape s) ≡ true
unfolding escape ends_open
ends_open-escape [] h = h
ends_open-escape (c ∷ []) h =
    rw (append-nil (escape_one c)) (ends_open-escape_one c (ends_open_space c h))
ends_open-escape (c ∷ d ∷ s) h =
    ends_open-append (escape_one c) (escape (d ∷ s)) (ends_open-escape (d ∷ s) h)

all-append :
    (p : ℕ → Bool) (xs ys : Text) → all p xs ≡ true → all p ys ≡ true → all p (xs ++ ys) ≡ true
all-append p [] ys h k = k
all-append p (x ∷ xs) ys h k = ground (arith, all-append p xs ys (ground (arith, h)) k)

escape_one-dots : (c : ℕ) → is_plain c ≡ true → all is_dot (escape_one c) ≡ true
unfolding escape_one
escape_one-dots c h =
    if_either (λ (t : Text). all is_dot t ≡ true) (c == 92) (λ _. refl)
      (λ _.
        if_either (λ (t : Text). all is_dot t ≡ true) (c == 10) (λ _. refl)
          (λ e. ground (arith, h, e)))

pub escape-dots : (s : Text) → all is_plain s ≡ true → all is_dot (escape s) ≡ true
unfolding escape
escape-dots [] h = refl
escape-dots (c ∷ s) h =
    all-append is_dot (escape_one c) (escape s) (escape_one-dots c (ground (arith, h)))
      (escape-dots s (ground (arith, h)))

pub plain-dots : (s : Text) → all is_plain s ≡ true → includes 10 s ≡ false → all is_dot s ≡ true
unfolding includes
plain-dots [] h n = refl
plain-dots (c ∷ s) h n =
    let rest = plain-dots s (ground (arith, h)) (ground (arith, n)) in ground (arith, h, n, rest)
