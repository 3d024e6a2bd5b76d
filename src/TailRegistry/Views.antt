-- ===== src/TailRegistry/Views.antt =====
-- nest-api/src/fs/tail-registry.service.ts: what the map of entries has after it is written to, key by key,
-- and which timers are pending.
use trekker.Prelude.{
  ℕ, ◌<◌, ◌≡◌, ◌≢◌, refl, ap, sym, subst, ◌∙◌, ◌⊎◌, inl, inr, true, false, Option, none, some, List,
  [], ◌∷◌, ◌++◌, arith, if◌then◌else◌, ◌==◌, ==_refl, Bool-cases, All,
}
use trekker.Text.{Text, text_eq}
use trekker.Text.Laws.{text_eq_refl, eq_of_text_eq}
use trekker.TailRegistry.{entry_of, change, forget, clear_timer}
use trekker.TailRegistry.Entry.{TailEntry}

pub text_apart : (a b : Text) → text_eq a b ≡ false → a ≢ b
text_apart a b other same = cc (text_eq_refl b, subst (λ t. text_eq t b ≡ false) same other)

pub text_other : (a b : Text) → a ≢ b → text_eq a b ≡ false
text_other a b apart = elim (Bool-cases (text_eq a b)) [
  | inl e ↦ absurd (apart (eq_of_text_eq a b e))
  | inr e ↦ e
]

entry_of_here :
    (key : Text) (x : TailEntry) (es : List TailEntry)
    → text_eq x.key key ≡ true
    → entry_of key (x ∷ es) ≡ some x
unfolding entry_of
entry_of_here key x es same = rw (same) refl

entry_of_later :
    (key : Text) (x : TailEntry) (es : List TailEntry)
    → text_eq x.key key ≡ false
    → entry_of key (x ∷ es) ≡ entry_of key es
unfolding entry_of
entry_of_later key x es other = rw (other) refl

-- The entry of a key has the key.
pub entry_of-key :
    (key : Text) (es : List TailEntry) (e : TailEntry) → entry_of key es ≡ some e → e.key ≡ key
unfolding entry_of
entry_of-key key [] e h = cc
entry_of-key key (x ∷ es) e h = elim (Bool-cases (text_eq x.key key)) [
  | inl same ↦
      let found = entry_of_here key x es same in
      let this : x ≡ e = cc in
      subst (λ (y : TailEntry). y.key ≡ key) this (eq_of_text_eq x.key key same)
  | inr other ↦ entry_of-key key es e (sym (entry_of_later key x es other) ∙ h)
]

-- An entry of the map after one is changed: another one, as it was, or the one that was changed.
abbrev pub IsChanged : Text → (TailEntry → TailEntry) → Text → List TailEntry → TailEntry → Type 0
IsChanged key f k es e =
    ((k ≢ key) × (entry_of k es ≡ some e))
    ⊎ ((k ≡ key) × ((before : TailEntry) × (entry_of key es ≡ some before) × (e ≡ f before)))

pub entry_of-change :
    (key : Text) (f : TailEntry → TailEntry)
    → ((e : TailEntry) → (f e).key ≡ e.key)
    → (k : Text) (es : List TailEntry) (e : TailEntry) → entry_of k (change key f es) ≡ some e
    → IsChanged key f k es e
unfolding change entry_of
entry_of-change key f keeps k [] e h = cc
entry_of-change key f keeps k (x ∷ es) e h = elim (Bool-cases (text_eq x.key key)) [
  | inl same ↦ elim (Bool-cases (text_eq x.key k)) [
    | inl same' ↦
        let own : text_eq (f x).key k ≡ true = ap (λ t. text_eq t k) (keeps x) ∙ same' in
        let this : f x ≡ e = cc (entry_of_here k (f x) es own, rw (same) at h) in
        inr (
          sym (eq_of_text_eq x.key k same') ∙ eq_of_text_eq x.key key same,
          (x, entry_of_here key x es same, sym this),
        )
    | inr other' ↦
        let own : text_eq (f x).key k ≡ false = ap (λ t. text_eq t k) (keeps x) ∙ other' in
        let later : entry_of k es ≡ some e =
          sym (entry_of_later k (f x) es own) ∙ (rw (same) at h) in
        inl (
          (λ is. text_apart x.key k other' (eq_of_text_eq x.key key same ∙ sym is)),
          entry_of_later k x es other' ∙ later,
        )
  ]
  | inr other ↦ elim (Bool-cases (text_eq x.key k)) [
    | inl same' ↦
        let this : some x ≡ some e =
          sym (entry_of_here k x (change key f es) same') ∙ (rw (other) at h) in
        inl (
          (λ is. text_apart x.key key other (eq_of_text_eq x.key k same' ∙ is)),
          entry_of_here k x es same' ∙ this,
        )
    | inr other' ↦
        let later : entry_of k (change key f es) ≡ some e =
          sym (entry_of_later k x (change key f es) other') ∙ (rw (other) at h) in
        elim (entry_of-change key f keeps k es e later) [
          | inl (apart, old) ↦ inl (apart, entry_of_later k x es other' ∙ old)
          | inr (is, (before, old, made)) ↦
              inr (is, (before, entry_of_later key x es other ∙ old, made))
        ]
  ]
]

pub entry_of-forget :
    (key k : Text) (es : List TailEntry) (e : TailEntry)
    → entry_of k (forget key es) ≡ some e
    → (k ≢ key) × (entry_of k es ≡ some e)
unfolding forget entry_of
entry_of-forget key k [] e h = cc
entry_of-forget key k (x ∷ es) e h = elim (Bool-cases (text_eq x.key key)) [
  | inl same ↦
      let (apart, old) = entry_of-forget key k es e (rw (same) at h) in
      let other : text_eq x.key k ≡ false =
        text_other x.key k (λ is. apart (sym is ∙ eq_of_text_eq x.key key same)) in
      (apart, entry_of_later k x es other ∙ old)
  | inr other ↦ elim (Bool-cases (text_eq x.key k)) [
    | inl same' ↦ (
      (λ is. text_apart x.key key other (eq_of_text_eq x.key k same' ∙ is)),
      entry_of_here k x es same'
          ∙ (sym (entry_of_here k x (forget key es) same') ∙ (rw (other) at h)),
    )
    | inr other' ↦
        let later : entry_of k (forget key es) ≡ some e =
          sym (entry_of_later k x (forget key es) other') ∙ (rw (other) at h) in
        let (apart, old) = entry_of-forget key k es e later in
        (apart, entry_of_later k x es other' ∙ old)
  ]
]

pub entry_of-append :
    (k : Text) (es : List TailEntry) (x e : TailEntry)
    → entry_of k (es ++ (x ∷ [])) ≡ some e
    → (entry_of k es ≡ some e) ⊎ (e ≡ x)
unfolding entry_of
entry_of-append k [] x e h = elim (Bool-cases (text_eq x.key k)) [
  | inl same ↦ (let found = entry_of_here k x [] same in inr (cc))
  | inr other ↦ absurd (cc (entry_of_later k x [] other, h))
]
entry_of-append k (y ∷ es) x e h = elim (Bool-cases (text_eq y.key k)) [
  | inl same ↦ inl (entry_of_here k y es same ∙ (sym (entry_of_here k y (es ++ (x ∷ [])) same) ∙ h))
  | inr other ↦
      elim (entry_of-append k es x e (sym (entry_of_later k y (es ++ (x ∷ [])) other) ∙ h)) [
        | inl old ↦ inl (entry_of_later k y es other ∙ old)
        | inr own ↦ inr own
      ]
]

-- A new entry is the one that a change to its key finds.
pub change-append :
    (key : Text) (f : TailEntry → TailEntry) (es : List TailEntry) (e : TailEntry)
    → entry_of key es ≡ none
    → e.key ≡ key
    → change key f (es ++ (e ∷ [])) ≡ es ++ (f e ∷ [])
unfolding change entry_of
change-append key f [] e absent own = rw (own, text_eq_refl key) refl
change-append key f (x ∷ es) e absent own = elim (Bool-cases (text_eq x.key key)) [
  | inl same ↦ (let found = entry_of_here key x es same in cc)
  | inr other ↦ rw (other) (
      ap (λ xs. x ∷ xs)
        (change-append key f es e (sym (entry_of_later key x es other) ∙ absent) own))
]

-- Two changes to one key are one.
pub change-change :
    (key : Text) (f g : TailEntry → TailEntry)
    → ((e : TailEntry) → (f e).key ≡ e.key)
    → (es : List TailEntry) → change key g (change key f es) ≡ change key (λ e. g (f e)) es
unfolding change
change-change key f g keeps [] = refl
change-change key f g keeps (e ∷ es) = elim (Bool-cases (text_eq e.key key)) [
  | inl same ↦ rw (same, keeps e, same) refl
  | inr other ↦ rw (other, other) (ap (λ xs. e ∷ xs) (change-change key f g keeps es))
]

-- The key that a timer would remove, if the timer is pending.
unfoldable pub pending : ℕ → List (ℕ × Text) → Option Text
pending t [] = none
pending t ((n, key) ∷ timers) = let rest = pending t timers in if n == t then some key else rest

pub pending-clear :
    (t gone : ℕ) (timers : List (ℕ × Text))
    → t ≢ gone
    → pending t (clear_timer (some gone) timers) ≡ pending t timers
unfolding pending
pending-clear t gone [] apart = refl
pending-clear t gone ((n, key) ∷ timers) apart = elim (Bool-cases (n == gone)) [
  | inl same ↦
      let other : (n == t) ≡ false = ground (arith, same, apart) in
      rw (same, other) (pending-clear t gone timers apart)
  | inr kept ↦ elim (Bool-cases (n == t)) [
    | inl own ↦ rw (kept, own) refl
    | inr other ↦ rw (kept, other) (pending-clear t gone timers apart)
  ]
]

-- A new timer is pending, and leaves the others as they were.
pub pending-new :
    (t : ℕ) (key : Text) (timers : List (ℕ × Text))
    → All (λ (x : ℕ × Text). x.0 < t) timers
    → pending t (timers ++ ((t, key) ∷ [])) ≡ some key
unfolding pending
pending-new t key [] h = rw (==_refl t) refl
pending-new t key ((n, k) ∷ timers) (h, hs) =
    let other : (n == t) ≡ false = ground (arith, h) in rw (other) (pending-new t key timers hs)

pub pending-append :
    (t : ℕ) (k : Text) (timers more : List (ℕ × Text))
    → pending t timers ≡ some k
    → pending t (timers ++ more) ≡ some k
unfolding pending
pending-append t k [] more h = cc
pending-append t k ((n, key) ∷ timers) more h = elim (Bool-cases (n == t)) [
  | inl own ↦ rw (own) (rw (own) at h)
  | inr other ↦ rw (other) (pending-append t k timers more (rw (other) at h))
]
