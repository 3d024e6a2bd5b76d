-- ===== src/ScanAggregator/Tops.antt =====
-- The largest children that a parent keeps.
use trekker.Prelude.{
  ℕ, suc, ◌≤◌, ◌<◌, ◌≡◌, refl, ap, inl, inr, true, false, some, List, [], ◌∷◌, ◌++◌, arith, ltb,
  if_either, Bool-cases, All, Some, all, length,
}
use trekker.ScanAggregator.{AggregatedEntry, splice, pop}

abbrev pub IsDescending : List AggregatedEntry → Type 0
IsDescending [] = Unit
IsDescending (e ∷ es) = All (λ (x : AggregatedEntry). x.bytes ≤ e.bytes) es × IsDescending es

pub splice-All :
    (P : AggregatedEntry → Type 0) (entry : AggregatedEntry) (top : List AggregatedEntry)
    → P entry
    → All P top
    → All P (splice entry top)
unfolding splice
splice-All P entry [] h k = (h, tt)
splice-All P entry (e ∷ top) h k =
    if_either (All P) (all (λ (x : AggregatedEntry). ltb x.bytes entry.bytes) (e ∷ top))
      (λ _. (h, k)) (λ _. (k.0, splice-All P entry top h k.1))

Some-later :
    (P : AggregatedEntry → Type 0) (e : AggregatedEntry) (xs ys : List AggregatedEntry)
    → (Some P xs → Some P ys)
    → Some P (e ∷ xs)
    → Some P (e ∷ ys)
Some-later P e xs ys f (inl x) = inl x
Some-later P e xs ys f (inr x) = inr (f x)

pub splice-Some :
    (P : AggregatedEntry → Type 0) (entry : AggregatedEntry) (top : List AggregatedEntry)
    → Some P top
    → Some P (splice entry top)
unfolding splice
splice-Some P entry [] h = inr h
splice-Some P entry (e ∷ top) h =
    if_either (Some P) (all (λ (x : AggregatedEntry). ltb x.bytes entry.bytes) (e ∷ top))
      (λ _. inr h) (λ _. Some-later P e top (splice entry top) (splice-Some P entry top) h)

pub splice-has :
    (P : AggregatedEntry → Type 0) (entry : AggregatedEntry) (top : List AggregatedEntry)
    → P entry
    → Some P (splice entry top)
unfolding splice
splice-has P entry [] h = inl h
splice-has P entry (e ∷ top) h =
    if_either (Some P) (all (λ (x : AggregatedEntry). ltb x.bytes entry.bytes) (e ∷ top))
      (λ _. inl h) (λ _. inr (splice-has P entry top h))

pub length-splice :
    (entry : AggregatedEntry) (top : List AggregatedEntry)
    → length (splice entry top) ≡ suc (length top)
unfolding splice
length-splice entry [] = refl
length-splice entry (e ∷ top) =
    if_either (λ (l : List AggregatedEntry). length l ≡ suc (suc (length top)))
      (all (λ (x : AggregatedEntry). ltb x.bytes entry.bytes) (e ∷ top)) (λ _. refl)
      (λ _. ap suc (length-splice entry top))

all_below :
    (b c : ℕ) (top : List AggregatedEntry)
    → c < b
    → All (λ (x : AggregatedEntry). x.bytes ≤ c) top
    → all (λ (x : AggregatedEntry). ltb x.bytes b) top ≡ true
all_below b c [] h k = refl
all_below b c (e ∷ top) h k =
    let ih = all_below b c top h k.1 in
    let l : e.bytes < b = omega (arith, h, k.0) in ground (arith, ih, l)

all-All :
    (b : ℕ) (top : List AggregatedEntry)
    → all (λ (x : AggregatedEntry). ltb x.bytes b) top ≡ true
    → All (λ (x : AggregatedEntry). x.bytes ≤ b) top
all-All b [] h = tt
all-All b (e ∷ top) h = (ground (arith, h), all-All b top (ground (arith, h)))

pub splice-IsDescending :
    (entry : AggregatedEntry) (top : List AggregatedEntry)
    → IsDescending top
    → IsDescending (splice entry top)
unfolding splice
splice-IsDescending entry [] h = (tt, tt)
splice-IsDescending entry (e ∷ top) h =
    if_either IsDescending (all (λ (x : AggregatedEntry). ltb x.bytes entry.bytes) (e ∷ top))
      (λ a. (all-All entry.bytes (e ∷ top) a, h))
      (λ a. (splice-All _ entry top (not_larger a) h.0, splice-IsDescending entry top h.1))
  where
    not_larger :
        all (λ (x : AggregatedEntry). ltb x.bytes entry.bytes) (e ∷ top) ≡ false
        → entry.bytes ≤ e.bytes
    not_larger a = elim (Bool-cases (ltb e.bytes entry.bytes)) [
      | inl l ↦
          let s : e.bytes < entry.bytes = ground (arith, l) in
          absurd (cc (a, all_below entry.bytes e.bytes (e ∷ top) s (omega arith, h.0)))
      | inr n ↦ ground (arith, n)
    ]

-- What `pop` takes off stands behind the rest.
pub pop_last :
    (e : AggregatedEntry) (top : List AggregatedEntry)
    → (r : List AggregatedEntry × AggregatedEntry) × (pop (e ∷ top) ≡ some r)
      × (e ∷ top ≡ r.0 ++ (r.1 ∷ []))
unfolding pop
pop_last e [] = (([], e), refl, refl)
pop_last e (f ∷ top) =
    let (r, h, k) = pop_last f top in ((e ∷ r.0, r.1), ground (arith, h), ground (arith, k))
