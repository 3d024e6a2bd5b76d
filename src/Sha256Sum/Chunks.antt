-- ===== src/Sha256Sum/Chunks.antt =====
-- nest-api/src/hosts/sha256-sum.ts: the calls that a list of paths is cut into.
use trekker.Prelude.{
  ℕ, suc, ◌+◌, ◌*◌, ◌==◌, Bool-cases, if◌then◌else◌, ◌≤◌, ◌≡◌, refl, ap, subst, ◌∙◌, inl, inr, ◌⊎◌,
  true, false, List, [], ◌∷◌, ◌++◌, append_assoc, arith, length, length-append, if_either, All,
}
use trekker.Text.{Text, split, join, includes}
use trekker.Text.Laws.{join-split_sep, join-push_head}
use trekker.Shell.{Outcome, returned, thrown, quote, quoted_quote, quote_argument}
use trekker.Sha256Sum.{
  max_args_per_call, max_argv_bytes, cost, is_none, is_full, chunk_from, chunk_paths,
}

-- All that the calls are given, one after another.
unfoldable pub concat : List (List Text) → List Text
concat [] = []
concat (c ∷ cs) = c ++ concat cs

-- What the code takes a call to cost on its command line.
unfoldable pub cost_of : List Text → ℕ
cost_of [] = 0
cost_of (p ∷ ps) = cost p + cost_of ps

-- The bounds on a call, by the code's own costs.
abbrev IsCheap : List Text → Type 0
IsCheap chunk =
    (is_none chunk ≡ false)
    × (length chunk ≤ max_args_per_call)
    × ((cost_of chunk ≤ max_argv_bytes) ⊎ (length chunk ≡ 1))

-- A path as the command line has it; none stands there that cannot be quoted.
abbrev pub quoted : Text → Text
quoted path = text_of (quote_argument path)
  where
    text_of : Outcome Text → Text
    text_of (thrown _) = []
    text_of (returned q) = q

-- What the paths add to the command line: a blank and the quoted path for each.
unfoldable pub arguments_of : List Text → Text
arguments_of [] = []
arguments_of (p ∷ ps) = 32 ∷ (quoted p ++ arguments_of ps)

unfoldable pub quotes : Text → ℕ
quotes [] = 0
quotes (c ∷ s) = let rest = quotes s in if c == 39 then suc rest else rest

unfoldable pub quotes_of : List Text → ℕ
quotes_of [] = 0
quotes_of (p ∷ ps) = quotes p + quotes_of ps

-- A call has between one path and 64, and what they add to the command line has at most 96000 code units
-- and three more for each single quote in them, unless there is only one path.
abbrev pub IsCall : List Text → Type 0
IsCall chunk =
    (is_none chunk ≡ false)
    × (length chunk ≤ 64)
    × ((length (arguments_of chunk) ≤ 96000 + 3 * quotes_of chunk) ⊎ (length chunk ≡ 1))

length-escape : (s : Text) → length (join quoted_quote (split quote s)) ≡ length s + 3 * quotes s
unfolding join split quotes
length-escape [] = refl
length-escape (c ∷ s) =
    let rest = length-escape s in
    elim (Bool-cases (c == quote)) [
      | inl e ↦
          rw (e, join-split_sep quoted_quote quote s)
            (omega (arith, rest, length-append quoted_quote (join quoted_quote (split quote s))))
      | inr e ↦ rw (e, join-push_head quoted_quote c (split quote s)) (omega (arith, rest))
    ]

length-quoted : (path : Text) → length (quoted path) ≤ length path + 3 * quotes path + 2
unfolding quote_argument
length-quoted path = elim (Bool-cases (includes 0 path)) [
  | inl e ↦ rw (quote_argument, e) (omega arith)
  | inr e ↦
      rw (quote_argument, e)
        (omega (
          arith,
          length-escape path,
          length-append (join quoted_quote (split quote path)) (quote ∷ []),
        ))
]

length-arguments_of :
    (paths : List Text) → length (arguments_of paths) ≤ cost_of paths + 3 * quotes_of paths
unfolding arguments_of quotes_of cost_of
length-arguments_of [] = omega arith
length-arguments_of (p ∷ ps) =
    omega
      (arith, length-quoted p, length-arguments_of ps, length-append (quoted p) (arguments_of ps))

cheap-IsCall : (chunk : List Text) → IsCheap chunk → IsCall chunk
cheap-IsCall chunk (some_path, few, inl cheap) =
    (some_path, few, inl (omega (arith, cheap, length-arguments_of chunk)))
cheap-IsCall chunk (some_path, few, inr one) = (some_path, few, inr one)

all-AreCalls : (chunks : List (List Text)) → All IsCheap chunks → All IsCall chunks
all-AreCalls [] h = tt
all-AreCalls (c ∷ cs) (h, hs) = (cheap-IsCall c h, all-AreCalls cs hs)

cost_of-append : (xs ys : List Text) → cost_of (xs ++ ys) ≡ cost_of xs + cost_of ys
unfolding cost_of
cost_of-append [] ys = omega arith
cost_of-append (x ∷ xs) ys = omega (arith, cost_of-append xs ys)

is_none-append : (xs : List Text) (x : Text) → is_none (xs ++ (x ∷ [])) ≡ false
is_none-append [] x = refl
is_none-append (_ ∷ _) x = refl

none-nil : (xs : List Text) → is_none xs ≡ true → xs ≡ []
none-nil [] h = refl
none-nil (_ ∷ _) h = cc

-- What is being gathered: nothing, or a call already.
abbrev IsGathered : List Text → Type 0
IsGathered current = (current ≡ []) ⊎ IsCheap current

chunk_from-concat :
    (current : List Text) (bytes : ℕ) (paths : List Text)
    → concat (chunk_from current bytes paths) ≡ current ++ paths
unfolding concat chunk_from
chunk_from-concat current bytes [] =
    if_either (λ (cs : List (List Text)). concat cs ≡ current ++ []) (is_none current)
      (λ e. rw (none-nil current e) refl) (λ _. refl)
chunk_from-concat current bytes (path ∷ paths) =
    if_either (λ (cs : List (List Text)). concat cs ≡ current ++ (path ∷ paths))
      (is_full current bytes path)
      (λ _. ap (λ xs. current ++ xs) (chunk_from-concat (path ∷ []) (cost path) paths))
      (λ _.
        chunk_from-concat (current ++ (path ∷ [])) (bytes + cost path) paths
        ∙ append_assoc current (path ∷ []) paths)

single-IsCheap : (path : Text) → IsCheap (path ∷ [])
single-IsCheap path = (refl, omega arith, inr refl)

grown-IsCheap :
    (current : List Text) (path : Text)
    → IsGathered current
    → is_full current (cost_of current) path ≡ false
    → IsCheap (current ++ (path ∷ []))
unfolding cost_of
grown-IsCheap [] path g room = single-IsCheap path
grown-IsCheap (x ∷ xs) path g room =
    let cs = x ∷ xs in
    (
      refl,
      ground (arith, room, length-append cs (path ∷ [])),
      inl (ground (arith, room, cost_of-append xs (path ∷ []))),
    )

cost_of_one : (path : Text) → cost_of (path ∷ []) ≡ cost path
unfolding cost_of
cost_of_one path = omega arith

cost_of_added :
    (current : List Text) (path : Text)
    → cost_of (current ++ (path ∷ [])) ≡ cost_of current + cost path
cost_of_added current path = omega (arith, cost_of-append current (path ∷ []), cost_of_one path)

chunk_from-AreCheap :
    (current paths : List Text)
    → IsGathered current
    → All IsCheap (chunk_from current (cost_of current) paths)
unfolding chunk_from
chunk_from-AreCheap current [] (inl e) = rw (e) tt
chunk_from-AreCheap current [] (inr call) =
    if_either (All IsCheap) (is_none current) {x = []} {y = current ∷ []} (λ _. tt)
      (λ _. (call, tt))
chunk_from-AreCheap current (path ∷ paths) g =
    if_either (All IsCheap) (is_full current (cost_of current) path)
      (λ full. (
        full_call g full,
        subst (λ n. All IsCheap (chunk_from (path ∷ []) n paths)) (cost_of_one path)
            (chunk_from-AreCheap (path ∷ []) paths (inr (single-IsCheap path))),
      ))
      (λ room.
        subst (λ n. All IsCheap (chunk_from (current ++ (path ∷ [])) n paths))
          (cost_of_added current path)
          (chunk_from-AreCheap (current ++ (path ∷ [])) paths
            (inr (grown-IsCheap current path g room))))
  where
    full_call : IsGathered current → is_full current (cost_of current) path ≡ true → IsCheap current
    full_call (inl e) full = absurd (cc (e, full))
    full_call (inr call) full = call

-- The calls that a list of paths is cut into name every path once and in order. Each names between one and
-- 64 of them, and names a single path or adds at most 96000 UTF-16 code units to the command line, not
-- counting the three more that each single quote in a path takes to quote.
pub chunk_paths-AreCalls :
    (paths : List Text) → (concat (chunk_paths paths) ≡ paths) × All IsCall (chunk_paths paths)
unfolding chunk_paths cost_of
chunk_paths-AreCalls paths = (
  chunk_from-concat [] 0 paths,
  all-AreCalls (chunk_from [] 0 paths) (chunk_from-AreCheap [] paths (inl refl)),
)
