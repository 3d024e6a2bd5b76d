-- ===== src/RenamePlan/Slots.antt =====
-- nest-api/src/fs/rename-plan.ts, `acquire` and `release`: at most four patterns run at once, and
-- the others wait in line. `holding` is not in the source: it names the callers whose `acquire` has
-- resolved and that have not released.
use trekker.Prelude.{
  ℕ, ◌+◌, ◌-◌, ◌≤◌, ◌≡◌, refl, ◌⊎◌, inl, inr, true, List, [], ◌∷◌, ◌++◌, arith, if◌then◌else◌, ltb,
  length, length-append, if_either,
}
use trekker.Text.{Text, text_eq, member}

abbrev pub max_concurrent : ℕ
max_concurrent = 4

pub record Slots : Type 0 where
  pub running : ℕ
  pub waiting : List Text
  pub holding : List Text

abbrev pub free : Slots
free = record { running = 0; waiting = []; holding = [] }

unfoldable pub acquire : Text → Slots → Slots
acquire caller s =
    if ltb s.running max_concurrent
    then record s { running = s.running + 1; holding = s.holding ++ caller ∷ [] }
    else record s { waiting = s.waiting ++ caller ∷ [] }

unfoldable pub without : Text → List Text → List Text
without caller [] = []
without caller (c ∷ cs) = if text_eq c caller then cs else c ∷ without caller cs

-- `waiting.shift()?.()`: the first that waits counts itself in and goes on.
abbrev pub wake : Slots → List Text → Slots
wake s [] = s
wake s (next ∷ rest) = record {
  running = s.running + 1;
  waiting = rest;
  holding = s.holding ++ next ∷ [];
}

unfoldable pub release : Text → Slots → Slots
unfolding without
release caller s =
    let freed = record s { running = s.running - 1; holding = without caller s.holding } in
    wake freed s.waiting

-- Every pattern releases what it acquired, and nothing else.
pub data Turn : Slots → Slots → Type 0 where
  acquired : (caller : Text) (s : Slots) → Turn s (acquire caller s)
  released :
      (caller : Text) (s : Slots) → member caller s.holding ≡ true → Turn s (release caller s)

pub data Turns (s : Slots) : Slots → Type 0 where
  here : Turns s s
  next : {t u : Slots} → Turns s t → Turn t u → Turns s u

-- The counter counts the holders, at most four hold a slot, and nobody waits while one is free.
pub record IsFair (s : Slots) : Type 0 where
  pub counted : s.running ≡ length s.holding
  pub bounded : s.running ≤ max_concurrent
  pub used : (s.waiting ≡ []) ⊎ (s.running ≡ max_concurrent)

length-without :
    (caller : Text) (cs : List Text)
    → member caller cs ≡ true
    → length (without caller cs) + 1 ≡ length cs
unfolding without member
length-without caller [] h = cc
length-without caller (c ∷ cs) h = ground (arith, length-without caller cs)

acquire-IsFair : (caller : Text) (s : Slots) → IsFair s → IsFair (acquire caller s)
unfolding acquire
acquire-IsFair caller s f =
    if_either IsFair (ltb s.running max_concurrent)
      (λ e. record {
        counted = omega (arith, f.counted, length-append s.holding (caller ∷ []));
        bounded = ground (arith, e);
        used = elim f.used [ inl w ↦ inl w | inr full ↦ absurd (ground (arith, e, full)) ];
      })
      (λ e. record {
        counted = f.counted;
        bounded = f.bounded;
        used = inr (ground (arith, e, f.bounded));
      })

release-IsFair :
    (caller : Text) (s : Slots)
    → member caller s.holding ≡ true
    → IsFair s
    → IsFair (release caller s)
unfolding release
release-IsFair caller s m f = woken s.waiting refl
  where
    woken :
        (ws : List Text)
        → s.waiting ≡ ws
        → IsFair
            (wake (record s { running = s.running - 1; holding = without caller s.holding }) ws)
    woken [] e = record {
      counted = omega (arith, f.counted, length-without caller s.holding m);
      bounded = omega (arith, f.bounded);
      used = inl e;
    }
    woken (w ∷ ws) e =
        let full : s.running ≡ max_concurrent = elim f.used [
          | inl none_wait ↦ absurd (cc (none_wait, e))
          | inr full ↦ full
        ] in
        record {
          counted = omega (
            arith,
            f.counted,
            full,
            length-without caller s.holding m,
            length-append (without caller s.holding) (w ∷ []),
          );
          bounded = omega (arith, full);
          used = inr (omega (arith, full));
        }

-- Over any turns at most four patterns run, and none waits while a slot is free.
pub Turns-IsFair : {s : Slots} → Turns free s → IsFair s
Turns-IsFair here = record { counted = refl; bounded = omega arith; used = inl refl }
Turns-IsFair (next r (acquired caller s)) = acquire-IsFair caller s (Turns-IsFair r)
Turns-IsFair (next r (released caller s h)) = release-IsFair caller s h (Turns-IsFair r)
