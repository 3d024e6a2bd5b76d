-- ===== src/Text/Cases.antt =====
-- Searches that take no account of the case of letters, as RegExp with the flag i does for patterns of ASCII.
use trekker.Prelude.{ℕ, ◌+◌, Bool, true, false, ◌&&◌, ◌||◌, [], ◌∷◌, if◌then◌else◌, leb, ◌==◌}
use trekker.Text.{Text}

-- A letter of ASCII in lower case.
abbrev pub lower : ℕ → ℕ
lower c = if leb 65 c && leb c 90 then c + 32 else c

-- The text begins so, whatever the case of its letters.
unfoldable pub begins : Text → Text → Bool
begins [] s = true
begins (a ∷ p) [] = false
begins (a ∷ p) (b ∷ s) = a == lower b && begins p s

-- The text is somewhere in the other, whatever the case of its letters.
unfoldable pub holds : Text → Text → Bool
unfolding begins
holds p [] = begins p []
holds p (c ∷ s) = begins p (c ∷ s) || holds p s
