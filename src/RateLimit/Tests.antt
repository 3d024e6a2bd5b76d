-- ===== src/RateLimit/Tests.antt =====
-- A limit of three uses in ten seconds.
use trekker.Prelude.{ℕ, ◌≤◌, ◌≡◌, ◌↔◌, refl, true, none, List, [], ◌∷◌, arith}
use trekker.RateLimit.{LimitRule, consume, count_use, current, verdict_of}
use trekker.RateLimit.Windows.{allowed_amount, after_uses, consume-after_uses_iff}

abbrev rule : LimitRule
rule = record { max = 3; window_seconds = 10 }

abbrev uses : List (ℕ × ℕ)
uses = (5, 2) ∷ (6, 2) ∷ (7, 1) ∷ []

-- The second use is refused, and counts.
two_pass : allowed_amount rule uses none ≡ 2
unfolding allowed_amount consume count_use current verdict_of
two_pass = refl

consume-after_uses_iff_example :
    ((consume rule true 17 3 (after_uses rule uses none)).0.allowed ≡ true) ↔ (3 ≤ 3)
consume-after_uses_iff_example =
    consume-after_uses_iff rule 7 3 17 uses (ground arith, (ground arith, (ground arith, tt)))
      (ground arith)
