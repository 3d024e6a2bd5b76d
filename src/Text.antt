-- ===== src/Text.antt =====
-- JavaScript strings as lists of UTF-16 code units, and the `String.prototype` functions that the
-- program calls on them.
pub mod Laws
pub mod Unique
pub mod Trim
pub mod Cases
use Prim.Native.Char.{code}
use Prim.Native.String.{String}
use trekker.Prelude.{
  ℕ, zero, suc, ◌+◌, ◌-◌, ◌*◌, ◌/◌, ◌%◌, Bool, true, false, not, ◌&&◌, ◌||◌, Option, none, some,
  List, [], ◌∷◌, ◌++◌, ◌==◌, leb, if◌then◌else◌, filter, any,
}

abbrev pub Text : Type 0
Text = List ℕ

-- The code units of a literal that stays within the basic plane.
abbrev pub codes : String → Text
codes String.[] = []
codes (String.◌∷◌ c s) = code c ∷ codes s

-- `===` on strings
unfoldable pub text_eq : Text → Text → Bool
text_eq [] [] = true
text_eq (a ∷ s) (b ∷ t) = a == b && text_eq s t
text_eq _ _ = false

-- `includes` of an array of strings, `Set.prototype.has`
unfoldable pub member : Text → List Text → Bool
unfolding text_eq
member s [] = false
member s (t ∷ ts) = text_eq t s || member s ts

-- `includes` of a string, for a needle of one code unit
unfoldable pub includes : ℕ → Text → Bool
includes c [] = false
includes c (d ∷ s) = d == c || includes c s

unfoldable pub starts_with : Text → Text → Bool
starts_with [] s = true
starts_with (a ∷ p) [] = false
starts_with (a ∷ p) (b ∷ s) = a == b && starts_with p s

abbrev pub is_empty : Text → Bool
is_empty [] = true
is_empty (_ ∷ _) = false

abbrev pub push_head : ℕ → List Text → List Text
push_head c [] = (c ∷ []) ∷ []
push_head c (w ∷ ws) = (c ∷ w) ∷ ws

-- `split` at a separator of one code unit; the result is never empty.
unfoldable pub split : ℕ → Text → List Text
split sep [] = [] ∷ []
split sep (c ∷ s) = let rest = split sep s in if c == sep then [] ∷ rest else push_head c rest

unfoldable pub join : Text → List Text → Text
join sep [] = []
join sep (w ∷ []) = w
join sep (w ∷ v ∷ ws) = w ++ (sep ++ join sep (v ∷ ws))

-- `filter(Boolean)` on an array of strings
abbrev pub non_empty : List Text → List Text
non_empty = filter (λ w. not (is_empty w))

-- `s.replace(/c+$/, "")`: the run of `c` at the end is dropped.
unfoldable pub trim_end : ℕ → Text → Text
trim_end c [] = []
trim_end c (d ∷ s) = let rest = trim_end c s in if is_empty rest && d == c then [] else d ∷ rest

-- The last occurrence of `c`: what stands before it, and the text from it on. `none` for -1.
unfoldable pub cut_last : ℕ → Text → Option (Text × Text)
cut_last c [] = none
cut_last c (d ∷ s) = elim (cut_last c s) [
  | some (before, from) ↦ some (d ∷ before, from)
  | none ↦ if d == c then some ([], d ∷ s) else none
]

-- The first occurrence of `c`, in the same form.
unfoldable pub cut_first : ℕ → Text → Option (Text × Text)
cut_first c [] = none
cut_first c (d ∷ s) =
    let later = cut_first c s in
    if d == c
    then some ([], d ∷ s)
    else elim later [ some (before, from) ↦ some (d ∷ before, from) | none ↦ none ]

unfoldable pub take : ℕ → Text → Text
take zero s = []
take (suc n) [] = []
take (suc n) (c ∷ s) = c ∷ take n s

-- What `trim` removes: white space and line ends of ECMAScript.
unfoldable pub is_space : ℕ → Bool
is_space c =
    (leb 9 c && leb c 13)
    || (c == 32 || c == 160 || c == 0x1680 || (leb 0x2000 c && leb c 0x200a))
    || (c == 0x2028 || c == 0x2029 || c == 0x202f || c == 0x205f || c == 0x3000 || c == 0xfeff)

unfoldable pub trim_start_space : Text → Text
trim_start_space [] = []
trim_start_space (c ∷ s) = let rest = trim_start_space s in if is_space c then rest else c ∷ s

unfoldable pub trim_end_space : Text → Text
trim_end_space [] = []
trim_end_space (c ∷ s) =
    let rest = trim_end_space s in if is_empty rest && is_space c then [] else c ∷ rest

unfoldable pub trim : Text → Text
unfolding trim_start_space trim_end_space is_space
trim s = trim_start_space (trim_end_space s)

-- `String(n)` of a number below 100.
unfoldable pub digits_below_100 : ℕ → Text
digits_below_100 n =
    let tens = n / 10 in if tens == 0 then (48 + n) ∷ [] else (48 + tens) ∷ (48 + n % 10) ∷ []

-- `String(n)`: the last `fuel` digits of `n` at most, before what is already written.
unfoldable pub decimal_with : ℕ → ℕ → Text → Text
decimal_with zero n written = written
decimal_with (suc fuel) n written =
    let more = (48 + n % 10) ∷ written in
    let rest = decimal_with fuel (n / 10) more in if n / 10 == 0 then more else rest

-- A number below 10^15 has no more than fifteen digits.
unfoldable pub decimal : ℕ → Text
unfolding decimal_with
decimal n = decimal_with 15 n []

-- `\d`
abbrev pub is_digit : ℕ → Bool
is_digit c = leb 48 c && leb c 57

-- `Number.parseInt(digits, 10)` of a text of digits, from what is already read.
unfoldable pub parse_int : ℕ → Text → ℕ
parse_int n [] = n
parse_int n (c ∷ s) = parse_int (n * 10 + (c - 48)) s

-- `.`, which stands for no line end
abbrev pub is_dot : ℕ → Bool
is_dot c = not (c == 10 || c == 13 || c == 0x2028 || c == 0x2029)
