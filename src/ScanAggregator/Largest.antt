-- ===== src/ScanAggregator/Largest.antt =====
-- The children that a parent keeps are the largest of those it is offered.
use trekker.Prelude.{
  ℕ, ◌≤◌, ◌<◌, ◌≡◌, refl, sym, subst, ◌⊎◌, inl, inr, List, [], ◌∷◌, ◌++◌, arith, if◌then◌else◌, leb,
  if_either, All, All-append, Some, all, length, length-append,
}
use trekker.ScanAggregator.{AggregatedEntry, top_per_parent, splice, pop, replace_last, offer_top}
use trekker.ScanAggregator.Tops.{
  IsDescending, splice-All, splice-Some, splice-has, length-splice, splice-IsDescending, pop_last,
}

-- An entry is among the children kept, or as many as are kept are at least as large.
abbrev pub IsKept : AggregatedEntry → List AggregatedEntry → Type 0
IsKept e top =
    Some (λ (x : AggregatedEntry). x ≡ e) top
    ⊎ ((length top ≡ top_per_parent) × All (λ (x : AggregatedEntry). e.bytes ≤ x.bytes) top)

-- The children kept are at most 24, the largest first.
abbrev pub IsTop : List AggregatedEntry → Type 0
IsTop top = IsDescending top × (length top ≤ top_per_parent)

-- The list without its last element.
init-IsDescending :
    (r : List AggregatedEntry) (l : AggregatedEntry)
    → IsDescending (r ++ (l ∷ []))
    → IsDescending r × All (λ (x : AggregatedEntry). l.bytes ≤ x.bytes) r
init-IsDescending [] l h = (tt, tt)
init-IsDescending (e ∷ r) l h =
    let (d, a) = init-IsDescending r l h.1 in
    let (below, last) = front r h.0 in ((below, d), (last, a))
  where
    front :
        (r : List AggregatedEntry)
        → All (λ (x : AggregatedEntry). x.bytes ≤ e.bytes) (r ++ (l ∷ []))
        → All (λ (x : AggregatedEntry). x.bytes ≤ e.bytes) r × (l.bytes ≤ e.bytes)
    front [] k = (tt, k.0)
    front (f ∷ r) k = ((k.0, (front r k.1).0), (front r k.1).1)

All_trans :
    (b c : ℕ) (xs : List AggregatedEntry)
    → b ≤ c
    → All (λ (x : AggregatedEntry). c ≤ x.bytes) xs
    → All (λ (x : AggregatedEntry). b ≤ x.bytes) xs
All_trans b c [] h k = tt
All_trans b c (x ∷ xs) h k = (omega (arith, h, k.0), All_trans b c xs h k.1)

Some-split :
    (P : AggregatedEntry → Type 0) (r : List AggregatedEntry) (l : AggregatedEntry)
    → Some P (r ++ (l ∷ []))
    → Some P r ⊎ P l
Some-split P [] l (inl x) = inr x
Some-split P [] l (inr x) = absurd x
Some-split P (e ∷ r) l (inl x) = inl (inl x)
Some-split P (e ∷ r) l (inr x) = elim (Some-split P r l x) [ inl y ↦ inl (inr y) | inr y ↦ inr y ]

abbrev Step : AggregatedEntry → List AggregatedEntry → List AggregatedEntry → Type 0
Step entry top next =
    IsTop next × IsKept entry next × ((e : AggregatedEntry) → IsKept e top → IsKept e next)

Step-room :
    (entry : AggregatedEntry) (top : List AggregatedEntry)
    → IsTop top
    → length top < top_per_parent
    → Step entry top (splice entry top)
Step-room entry top h room = (
  (splice-IsDescending entry top h.0, rw (length-splice entry top) room),
  inl (splice-has (λ (x : AggregatedEntry). x ≡ entry) entry top refl),
  λ e k. elim k [
    | inl s ↦ inl (splice-Some (λ (x : AggregatedEntry). x ≡ e) entry top s)
    | inr (n, _) ↦ absurd (omega (arith, n, room))
  ],
)

Step-full :
    (entry l : AggregatedEntry) (r : List AggregatedEntry)
    → IsTop (r ++ (l ∷ []))
    → length (r ++ (l ∷ [])) ≡ top_per_parent
    → Step entry (r ++ (l ∷ [])) (if leb entry.bytes l.bytes then r ++ (l ∷ []) else splice entry r)
Step-full entry l r h full =
    let (down, above) = init-IsDescending r l h.0 in
    if_either (Step entry (r ++ (l ∷ []))) (leb entry.bytes l.bytes)
      (λ e.
        let small : entry.bytes ≤ l.bytes = ground (arith, e) in
        (
          h,
          inr (
            full,
            All-append _ r (l ∷ []) (All_trans entry.bytes l.bytes r small above) (small, tt),
          ),
          λ e k. k,
        ))
      (λ e.
        let large : l.bytes ≤ entry.bytes = ground (arith, e) in
        let size : length (splice entry r) ≡ top_per_parent =
          omega (arith, length-splice entry r, length-append r (l ∷ []), full) in
        (
          (splice-IsDescending entry r down, omega (arith, size)),
          inl (splice-has (λ (x : AggregatedEntry). x ≡ entry) entry r refl),
          λ e k. elim k [
            | inl s ↦ elim (Some-split (λ (x : AggregatedEntry). x ≡ e) r l s) [
              | inl t ↦ inl (splice-Some (λ (x : AggregatedEntry). x ≡ e) entry r t)
              | inr same ↦ inr (
                size,
                subst
                    (λ (x : AggregatedEntry).
                      All (λ (y : AggregatedEntry). x.bytes ≤ y.bytes) (splice entry r))
                    same
                    (splice-All (λ (y : AggregatedEntry). l.bytes ≤ y.bytes) entry r large above),
              )
            ]
            | inr (_, all) ↦
                let le = last_le e all in
                inr (
                  size,
                  splice-All (λ (y : AggregatedEntry). e.bytes ≤ y.bytes) entry r
                      (omega (arith, le, large)) (All_trans e.bytes l.bytes r le above),
                )
          ],
        ))
  where
    last_le :
        (e : AggregatedEntry)
        → All (λ (x : AggregatedEntry). e.bytes ≤ x.bytes) (r ++ (l ∷ []))
        → e.bytes ≤ l.bytes
    last_le e = go r
      where
        go :
            (r : List AggregatedEntry)
            → All (λ (x : AggregatedEntry). e.bytes ≤ x.bytes) (r ++ (l ∷ []))
            → e.bytes ≤ l.bytes
        go [] k = k.0
        go (f ∷ r) k = go r k.1

Step-popped :
    (entry : AggregatedEntry) (top : List AggregatedEntry)
    → IsTop top
    → length top ≡ top_per_parent
    → Step entry top (replace_last entry top (pop top))
Step-popped entry [] h full = absurd (omega (arith, full))
Step-popped entry (e ∷ top) h full =
    let (r, popped, same) = pop_last e top in
    rw popped (
      subst (λ t. Step entry t (if leb entry.bytes r.1.bytes then t else splice entry r.0))
        (sym same)
        (Step-full entry r.1 r.0 (subst IsTop same h)
          (subst (λ t. length t ≡ top_per_parent) same full)))

pub Step-offer :
    (entry : AggregatedEntry) (top : List AggregatedEntry)
    → IsTop top
    → Step entry top (offer_top entry top)
unfolding offer_top
Step-offer entry top h =
    if_either (Step entry top) (leb top_per_parent (length top))
      (λ e.
        let full : length top ≡ top_per_parent =
          (let l : top_per_parent ≤ length top = ground (arith, e) in omega (arith, l, h.1)) in
        Step-popped entry top h full)
      (λ e.
        let room : length top < top_per_parent = ground (arith, e) in Step-room entry top h room)

-- The children offered to a parent, one after the other.
abbrev pub offer_each : List AggregatedEntry → List AggregatedEntry → List AggregatedEntry
offer_each [] top = top
offer_each (e ∷ es) top = offer_each es (offer_top e top)

offer_each-IsTop : (es top : List AggregatedEntry) → IsTop top → IsTop (offer_each es top)
offer_each-IsTop [] top h = h
offer_each-IsTop (e ∷ es) top h = offer_each-IsTop es (offer_top e top) (Step-offer e top h).0

IsKept-later :
    (es top : List AggregatedEntry) (e : AggregatedEntry)
    → IsTop top
    → IsKept e top
    → IsKept e (offer_each es top)
IsKept-later [] top e h k = k
IsKept-later (f ∷ es) top e h k =
    let s = Step-offer f top h in IsKept-later es (offer_top f top) e s.0 (s.2 e k)

offered-IsKept :
    (es top : List AggregatedEntry)
    → IsTop top
    → All (λ (e : AggregatedEntry). IsKept e (offer_each es top)) es
offered-IsKept [] top h = tt
offered-IsKept (e ∷ es) top h =
    let s = Step-offer e top h in
    (IsKept-later es (offer_top e top) e s.0 s.1, offered-IsKept es (offer_top e top) s.0)

-- Whatever is offered to a parent, it keeps at most 24 children, the largest first, and each child
-- offered is either kept or no larger than any of 24 that are.
pub offer_each-largest :
    (es : List AggregatedEntry)
    → IsTop (offer_each es []) × All (λ (e : AggregatedEntry). IsKept e (offer_each es [])) es
offer_each-largest es =
    (offer_each-IsTop es [] (tt, omega arith), offered-IsKept es [] (tt, omega arith))
