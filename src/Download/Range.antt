-- ===== src/Download/Range.antt =====
-- Which bytes a range header serves.
use trekker.Prelude.{
  ℕ, ◌+◌, ◌-◌, ◌≤◌, ◌<◌, min, ◌≡◌, ◌↔◌, refl, ap, ◌∙◌, true, false, some, [], ◌∷◌, ◌++◌, arith,
  if◌then◌else◌, ltb, leb, ◌==◌, ==_iff, if_either, All, All-append,
}
use trekker.Text.{Text, codes, is_space, trim_end_space, trim_start_space, trim}
use trekker.Download.{
  RangeVerdict, full, unsatisfiable, partial, digits, drop_prefix, after_first, match_range,
  range_of, parse_range,
}
use trekker.Text.{is_digit, parse_int}

abbrev pub AreDigits : Text → Type 0
AreDigits = All (λ c. is_digit c ≡ true)

-- What a verdict serves of a file: all of it, a window, or nothing.
abbrev pub Serves : RangeVerdict → ℕ → ℕ → Type 0
Serves full size i = i < size
Serves (partial r) size i = (r.start ≤ i) × (i ≤ r.end)
Serves unsatisfiable size i = ⊥

abbrev AreSolid : Text → Type 0
AreSolid = All (λ c. is_space c ≡ false)

digit_solid : (c : ℕ) → is_digit c ≡ true → is_space c ≡ false
unfolding is_space
digit_solid c h = ground (arith, h)

digits_solid : (s : Text) → AreDigits s → AreSolid s
digits_solid [] h = tt
digits_solid (c ∷ s) (h, hs) = (digit_solid c h, digits_solid s hs)

end_solid : (s : Text) → AreSolid s → trim_end_space s ≡ s
unfolding trim_end_space
end_solid [] h = refl
end_solid (c ∷ s) (hc, hs) = rw (end_solid s hs) ground (arith, hc)

start_solid : (s : Text) → AreSolid s → trim_start_space s ≡ s
unfolding trim_start_space
start_solid [] h = refl
start_solid (c ∷ s) (hc, hs) = ground (arith, hc)

trim_solid : (s : Text) → AreSolid s → trim s ≡ s
unfolding trim
trim_solid s h = ap trim_start_space (end_solid s h) ∙ start_solid s h

digits_stop : (x : Text) (s : Text) → AreDigits x → digits (x ++ (45 ∷ s)) ≡ (x, 45 ∷ s)
unfolding digits
digits_stop [] s h = refl
digits_stop (c ∷ x) s (hc, hx) = rw (digits_stop x s hx, hc) refl

digits_whole : (y : Text) → AreDigits y → digits y ≡ (y, [])
unfolding digits
digits_whole [] h = refl
digits_whole (c ∷ y) (hc, hy) = rw (digits_whole y hy, hc) refl

-- The header of a range of bytes.
abbrev pub bytes_header : Text → Text → Text
bytes_header x y = codes "bytes=" ++ (x ++ (45 ∷ y))

header_solid : (x y : Text) → AreDigits x → AreDigits y → AreSolid (bytes_header x y)
unfolding is_space
header_solid x y hx hy = (
  refl,
  (
    refl,
    (
      refl,
      (
        refl,
        (
          refl,
          (
            refl,
            All-append (λ c. is_space c ≡ false) x (45 ∷ y) (digits_solid x hx)
                (refl, digits_solid y hy),
          ),
        ),
      ),
    ),
  ),
)

match_bytes :
    (x y : Text) → AreDigits x → AreDigits y → match_range (bytes_header x y) ≡ some (x, y)
unfolding match_range drop_prefix after_first
match_bytes x y hx hy = rw (digits_stop x y hx, digits_whole y hy) refl

parse_solid :
    (h x y : Text) (size : ℕ)
    → trim h ≡ h
    → match_range h ≡ some (x, y)
    → parse_range (some h) size ≡ range_of x y size
unfolding parse_range
parse_solid h x y size t m = rw (parse_range, t, m) refl

parse_bytes :
    (x y : Text) (size : ℕ)
    → AreDigits x
    → AreDigits y
    → parse_range (some (bytes_header x y)) size ≡ range_of x y size
parse_bytes x y size hx hy =
    parse_solid (bytes_header x y) x y size (trim_solid (bytes_header x y) (header_solid x y hx hy))
      (match_bytes x y hx hy)

-- The bytes that a header asks for, of a file of some size.
abbrev pub Until : Text → ℕ → Type 0
Until [] i = Unit
Until (d ∷ y) i = i ≤ parse_int 0 (d ∷ y)

abbrev pub Asked : Text → Text → ℕ → ℕ → Type 0
Asked [] [] size i = Unit
Asked [] (d ∷ y) size i = size ≤ i + parse_int 0 (d ∷ y)
Asked (c ∷ x) y size i = (parse_int 0 (c ∷ x) ≤ i) × Until y i

abbrev Exact : ℕ → ℕ → Type 0 → RangeVerdict → Type 0
Exact size i P v = Serves v size i ↔ (i < size) × P

suffix-Exact :
    (wanted size i : ℕ)
    → Exact size i (size ≤ i + wanted) (
        if size == 0
        then unsatisfiable
        else if wanted == 0
        then unsatisfiable
        else partial (record { start = size - wanted; end = size - 1 }))
suffix-Exact wanted size i =
    if_either (Exact size i (size ≤ i + wanted)) (size == 0)
      (λ e.
        let z : size ≡ 0 = (==_iff size 0).0 e in (λ h. absurd h, λ (h, _). absurd (omega arith)))
      (λ pos.
        if_either (Exact size i (size ≤ i + wanted)) (wanted == 0)
          (λ e.
            let z : wanted ≡ 0 = (==_iff wanted 0).0 e in
            (λ h. absurd h, λ (h, k). absurd (omega arith)))
          (λ e.
            let w : 0 < wanted = ground (arith, e) in
            let p : 0 < size = ground (arith, pos) in
            (λ (h, k). (omega arith, omega arith), λ (h, k). (omega arith, omega arith))))

-- A window from `start` to the last byte that is wanted and in the file.
window-Exact :
    (start end size i : ℕ) (P : Type 0)
    → (0 < size → (i ≤ end) ↔ (i < size) × P)
    → Exact size i ((start ≤ i) × P) (
        if size == 0
        then unsatisfiable
        else if leb size start
        then unsatisfiable
        else if ltb end start
        then unsatisfiable
        else partial (record { start = start; end = end }))
window-Exact start end size i P last =
    if_either (Exact size i ((start ≤ i) × P)) (size == 0)
      (λ e.
        let z : size ≡ 0 = (==_iff size 0).0 e in (λ h. absurd h, λ (h, _). absurd (omega arith)))
      (λ pos.
        let p : 0 < size = ground (arith, pos) in
        if_either (Exact size i ((start ≤ i) × P)) (leb size start)
          (λ e.
            let z : size ≤ start = ground (arith, e) in
            (λ h. absurd h, λ (h, (k, _)). absurd (omega arith)))
          (λ f.
            if_either (Exact size i ((start ≤ i) × P)) (ltb end start)
              (λ e.
                let z : end < start = ground (arith, e) in
                (
                  λ h. absurd h,
                  λ (h, (k, q)). let l : i ≤ end = (last p).1 (h, q) in absurd (omega arith),
                ))
              (λ e. (
                λ (h, k). (((last p).0 k).0, (h, ((last p).0 k).1)),
                λ (h, (k, q)). (k, (last p).1 (h, q)),
              ))))

range_of-Exact : (x y : Text) (size i : ℕ) → Exact size i (Asked x y size i) (range_of x y size)
unfolding range_of
range_of-Exact [] [] size i = (λ h. (h, tt), λ (h, _). h)
range_of-Exact [] (d ∷ y) size i = suffix-Exact (parse_int 0 (d ∷ y)) size i
range_of-Exact (c ∷ x) [] size i =
    window-Exact (parse_int 0 (c ∷ x)) (size - 1) size i Unit
      (λ p. (λ h. (omega arith, tt), λ (h, k). omega arith))
range_of-Exact (c ∷ x) (d ∷ y) size i =
    window-Exact (parse_int 0 (c ∷ x)) (min (parse_int 0 (d ∷ y)) (size - 1)) size i
      (i ≤ parse_int 0 (d ∷ y)) (λ p. (λ h. (omega arith, omega arith), λ (h, k). omega arith))

-- For every header `bytes=x-y` of digits, the verdict serves exactly the bytes of the file that are
-- asked for.
pub parse_range_exact :
    (x y : Text) (size i : ℕ)
    → AreDigits x
    → AreDigits y
    → Serves (parse_range (some (bytes_header x y)) size) size i ↔ (i < size) × Asked x y size i
parse_range_exact x y size i hx hy = rw (parse_bytes x y size hx hy) (range_of-Exact x y size i)
