-- ===== src/RateLimit/Windows.antt =====
-- What a limit lets through in one window, and that a window ends.
use trekker.Prelude.{
  ℕ, ◌+◌, ◌≤◌, ◌<◌, ◌≡◌, ◌↔◌, refl, subst, sym, true, Option, none, some, List, [], ◌∷◌, arith,
  if◌then◌else◌, leb, ◌==◌, if_either, All,
}
use trekker.RateLimit.{
  LimitRule, LimitVerdict, Counter, is_gone, current, count_use, verdict_of, consume,
}

-- The uses, each with its time and its amount, one after the other: how much of them was allowed.
unfoldable pub allowed_amount : LimitRule → List (ℕ × ℕ) → Option Counter → ℕ
unfolding consume
allowed_amount rule [] key = 0
allowed_amount rule ((now, amount) ∷ uses) key =
    let rest = allowed_amount rule uses (consume rule true now amount key).1 in
    if (consume rule true now amount key).0.allowed then amount + rest else rest

abbrev OutLives : ℕ → Option ℕ → Type 0
OutLives until none = ⊥
OutLives until (some at) = until ≤ at

-- The key outlives a time, and counts at least what was spent.
abbrev IsLive : ℕ → ℕ → Option Counter → Type 0
IsLive until spent none = spent ≡ 0
IsLive until spent (some c) = (spent ≤ c.count) × OutLives until c.expires_at

current-IsLive :
    (until spent now : ℕ) (key : Option Counter)
    → now < until
    → IsLive until spent key
    → current now key ≡ key
unfolding current
current-IsLive until spent now none l h = refl
current-IsLive until spent now (some c) l h =
    if_either (λ k. k ≡ some c) (is_gone now c.expires_at)
      (λ e. absurd (not_gone c.expires_at h.1 e)) (λ _. refl)
  where
    not_gone : (at : Option ℕ) → OutLives until at → is_gone now at ≡ true → ⊥
    not_gone none o e = o
    not_gone (some at) o e = let le : at ≤ now = ground (arith, e) in omega arith

count_use-IsLive :
    (rule : LimitRule) (until spent now amount : ℕ) (key : Option Counter)
    → until ≤ now + rule.window_seconds
    → IsLive until spent key
    → IsLive until (spent + amount) (some (count_use rule now amount key))
unfolding count_use
count_use-IsLive rule until spent now amount none l h = (
  omega arith,
  if_either (OutLives until) (0 + amount == amount) (λ _. l) (λ e. absurd (cc (e, same))),
)
  where
    same : (0 + amount == amount) ≡ true
    same = ground arith
count_use-IsLive rule until spent now amount (some c) l h = (
  omega (arith, h.0),
  if_either (OutLives until) (c.count + amount == amount) (λ _. l) (λ _. h.1),
)

weaker-IsLive :
    (until spent more : ℕ) (c : Counter)
    → IsLive until (spent + more) (some c)
    → IsLive until spent (some c)
weaker-IsLive until spent more c h = (omega (arith, h.0), h.1)

abbrev IsInWindow : LimitRule → ℕ → ℕ × ℕ → Type 0
IsInWindow rule from u = (from ≤ u.0) × (u.0 < from + rule.window_seconds)

spent_more :
    (rule : LimitRule) (from spent : ℕ) (uses : List (ℕ × ℕ)) (key : Option Counter)
    → All (IsInWindow rule from) uses
    → IsLive (from + rule.window_seconds) spent key
    → spent ≤ rule.max
    → spent + allowed_amount rule uses key ≤ rule.max
unfolding allowed_amount
spent_more rule from spent [] key h live few = omega (arith, few)
spent_more rule from spent ((now, amount) ∷ uses) key h live few =
    let until = from + rule.window_seconds in
    let c = count_use rule now amount (current now key) in
    let same = current-IsLive until spent now key h.0.1 live in
    let later : IsLive until (spent + amount) (some c) =
      count_use-IsLive rule until spent now amount (current now key) (omega (arith, h.0.0))
        (subst (IsLive until spent) (sym same) live) in
    step c later (λ spent' live' few'. spent_more rule from spent' uses (some c) h.1 live' few')
  where
    step :
        (c : Counter)
        → IsLive (from + rule.window_seconds) (spent + amount) (some c)
        → ((spent' : ℕ)
            → IsLive (from + rule.window_seconds) spent' (some c)
            → spent' ≤ rule.max
            → spent' + allowed_amount rule uses (some c) ≤ rule.max)
        → spent
            + (if (verdict_of rule now c).allowed
                then amount + allowed_amount rule uses (some c)
                else allowed_amount rule uses (some c))
          ≤ rule.max
    step c later ih =
        if_either Fits (leb c.count rule.max)
          (λ e.
            let le : c.count ≤ rule.max = ground (arith, e) in
            let more = ih (spent + amount) later (omega (arith, le, later.0)) in
            omega (arith, more))
          (λ _. ih spent (weaker-IsLive (from + rule.window_seconds) spent amount c later) few)
      where
        Fits : LimitVerdict → Type 0
        Fits v =
            spent
              + (if v.allowed
                  then amount + allowed_amount rule uses (some c)
                  else allowed_amount rule uses (some c))
            ≤ rule.max

-- In one window, the uses that are allowed add up to no more than the limit.
pub allowed_amount-le-max :
    (rule : LimitRule) (from : ℕ) (uses : List (ℕ × ℕ))
    → All (λ (u : ℕ × ℕ). (from ≤ u.0) × (u.0 < from + rule.window_seconds)) uses
    → allowed_amount rule uses none ≤ rule.max
allowed_amount-le-max rule from uses h =
    let le = spent_more rule from 0 uses none h refl (omega arith) in omega (arith, le)

-- The key after the uses.
unfoldable pub after_uses : LimitRule → List (ℕ × ℕ) → Option Counter → Option Counter
unfolding consume
after_uses rule [] key = key
after_uses rule ((now, amount) ∷ uses) key =
    after_uses rule uses (consume rule true now amount key).1

-- The key is gone by a time.
abbrev EndsBy : ℕ → Option Counter → Type 0
EndsBy last none = Unit
EndsBy last (some c) = (at : ℕ) × (c.expires_at ≡ some at) × (at ≤ last)

current-EndsBy :
    (last now : ℕ) (key : Option Counter) → EndsBy last key → EndsBy last (current now key)
unfolding current
current-EndsBy last now none h = tt
current-EndsBy last now (some c) h =
    if_either (EndsBy last) (is_gone now c.expires_at) (λ _. tt) (λ _. h)

count_use-EndsBy :
    (rule : LimitRule) (last now amount : ℕ) (key : Option Counter)
    → now + rule.window_seconds ≤ last
    → EndsBy last key
    → EndsBy last (some (count_use rule now amount key))
unfolding count_use
count_use-EndsBy rule last now amount none l h = (
  now + rule.window_seconds,
  if_either (λ o. o ≡ some (now + rule.window_seconds)) (0 + amount == amount) (λ _. refl)
      (λ e. absurd (cc (e, same))),
  l,
)
  where
    same : (0 + amount == amount) ≡ true
    same = ground arith
count_use-EndsBy rule last now amount (some c) l (at, e, le) =
    if_either (λ o. (at : ℕ) × (o ≡ some at) × (at ≤ last)) (c.count + amount == amount)
      (λ _. (now + rule.window_seconds, refl, l)) (λ _. (at, e, le))

after-EndsBy :
    (rule : LimitRule) (last : ℕ) (uses : List (ℕ × ℕ)) (key : Option Counter)
    → All (λ (u : ℕ × ℕ). u.0 + rule.window_seconds ≤ last) uses
    → EndsBy last key
    → EndsBy last (after_uses rule uses key)
unfolding after_uses
after-EndsBy rule last [] key l h = h
after-EndsBy rule last ((now, amount) ∷ uses) key l h =
    after-EndsBy rule last uses (some (count_use rule now amount (current now key))) l.1
      (count_use-EndsBy rule last now amount (current now key) l.0 (current-EndsBy last now key h))

gone-EndsBy :
    (last now : ℕ) (key : Option Counter) → EndsBy last key → last ≤ now → current now key ≡ none
unfolding current
gone-EndsBy last now none h l = refl
gone-EndsBy last now (some c) (at, e, le) l =
    if_either (λ k. k ≡ none) (is_gone now c.expires_at) (λ _. refl) (λ f. absurd (cc (f, gone)))
  where
    gone : is_gone now c.expires_at ≡ true
    gone =
        subst (λ o. is_gone now o ≡ true) (sym e)
          (let r : at ≤ now = omega arith in ground (arith, r))

fresh_iff :
    (rule : LimitRule) (now amount : ℕ)
    → ((verdict_of rule now (count_use rule now amount none)).allowed ≡ true) ↔ (amount ≤ rule.max)
unfolding verdict_of count_use
fresh_iff rule now amount =
    if_either (λ (v : LimitVerdict). (v.allowed ≡ true) ↔ (amount ≤ rule.max))
      (leb (0 + amount) rule.max)
      (λ e.
        (λ _. (let le : 0 + amount ≤ rule.max = ground (arith, e) in omega (arith, le)), λ _. refl))
      (λ e. (
        λ f. cc,
        λ le. absurd (let lt : rule.max < 0 + amount = ground (arith, e) in omega (arith, lt, le)),
      ))

later_all :
    (window last now : ℕ) (uses : List (ℕ × ℕ))
    → last + window ≤ now
    → All (λ (u : ℕ × ℕ). u.0 ≤ last) uses
    → All (λ (u : ℕ × ℕ). u.0 + window ≤ now) uses
later_all window last now [] l h = tt
later_all window last now (u ∷ uses) l h =
    (omega (arith, l, h.0), later_all window last now uses l h.1)

-- However much was used, a window after the last use the limit is as if there had been none: a use is
-- allowed exactly when its amount alone is within the limit.
pub consume-after_uses_iff :
    (rule : LimitRule) (last amount now : ℕ) (uses : List (ℕ × ℕ))
    → All (λ (u : ℕ × ℕ). u.0 ≤ last) uses
    → last + rule.window_seconds ≤ now
    → ((consume rule true now amount (after_uses rule uses none)).0.allowed ≡ true)
      ↔ (amount ≤ rule.max)
unfolding consume
consume-after_uses_iff rule last amount now uses h l =
    subst
      (λ k.
        ((verdict_of rule now (count_use rule now amount k)).allowed ≡ true) ↔ (amount ≤ rule.max))
      (sym (
        gone-EndsBy now now (after_uses rule uses none)
          (after-EndsBy rule now uses none (later_all rule.window_seconds last now uses l h) tt)
          (omega arith)))
      (fresh_iff rule now amount)
