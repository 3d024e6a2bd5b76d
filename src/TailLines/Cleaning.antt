-- ===== src/TailLines/Cleaning.antt =====
-- What reaches the client: no control character but a tab, no newline, and a bounded length.
use trekker.Prelude.{
  ℕ, zero, suc, ◌+◌, ◌≤◌, ◌≡◌, ◌≢◌, refl, Bool, true, false, not, ◌&&◌, List, [], ◌∷◌, ◌++◌, arith,
  ◌==◌, length, length-append, length-filter, if_either, All, All-append,
}
use trekker.Text.{Text, includes, is_empty, split, take}
use trekker.Text.Laws.{split-All}
use trekker.TailLines.{
  tail_max_line_bytes, FramedLine, LineFramer, Framed, is_control, ansi_length, strip_ansi,
  strip_controls, without_cr, ellipsis, clean, too_long, emit, carry, end_line, fresh,
  push_segments, push,
}

-- A code unit that may reach the client.
abbrev pub IsPrintable : ℕ → Type 0
IsPrintable c = (is_control c ≡ false) × (c ≢ 10)

abbrev pub IsClean : FramedLine → Type 0
IsClean line = All IsPrintable line.text × (length line.text ≤ tail_max_line_bytes + 2)

abbrev NoNewline : Text → Type 0
NoNewline = All (λ c. c ≢ 10)

NoNewline-of_includes : (s : Text) → includes 10 s ≡ false → NoNewline s
unfolding includes
NoNewline-of_includes [] h = tt
NoNewline-of_includes (c ∷ s) h =
    (λ e. ground (arith, h, e), NoNewline-of_includes s (ground (arith, h)))

without_cr-NoNewline :
    (s : Text) → NoNewline s → NoNewline (without_cr s) × (length (without_cr s) ≤ length s)
unfolding without_cr
without_cr-NoNewline [] h = (tt, omega arith)
without_cr-NoNewline (c ∷ s) h =
    let (clear, short) = without_cr-NoNewline s h.1 in
    if_either (λ r. NoNewline r × (length r ≤ suc (length s))) (is_empty s && c == 13)
      (λ e. (tt, omega arith)) (λ e. ((h.0, clear), omega (arith, short)))

strip_ansi-NoNewline :
    (skip : ℕ) (s : Text)
    → NoNewline s
    → NoNewline (strip_ansi skip s) × (length (strip_ansi skip s) ≤ length s)
unfolding strip_ansi
strip_ansi-NoNewline skip [] h = (tt, omega arith)
strip_ansi-NoNewline (suc skip) (c ∷ s) h =
    let (clear, short) = strip_ansi-NoNewline skip s h.1 in (clear, omega (arith, short))
strip_ansi-NoNewline zero (c ∷ s) h =
    dropped (λ k. strip_ansi-NoNewline k s h.1) (ansi_length (c ∷ s))
  where
    dropped :
        ((k : ℕ) → NoNewline (strip_ansi k s) × (length (strip_ansi k s) ≤ length s))
        → (n : ℕ)
        → NoNewline (elim n [ zero ↦ c ∷ strip_ansi zero s | suc n ↦ strip_ansi n s ])
          × (length (elim n [ zero ↦ c ∷ strip_ansi zero s | suc n ↦ strip_ansi n s ])
              ≤ suc (length s))
    dropped ih zero = ((h.0, (ih 0).0), omega (arith, (ih 0).1))
    dropped ih (suc n) = ((ih n).0, omega (arith, (ih n).1))

strip_controls-IsPrintable : (s : Text) → NoNewline s → All IsPrintable (strip_controls s)
unfolding strip_controls
strip_controls-IsPrintable [] h = tt
strip_controls-IsPrintable (c ∷ s) h =
    if_either (All IsPrintable) (not (is_control c))
      (λ e. ((ground (arith, e), h.0), strip_controls-IsPrintable s h.1))
      (λ e. strip_controls-IsPrintable s h.1)

NoNewline-take : (n : ℕ) (s : Text) → NoNewline s → NoNewline (take n s) × (length (take n s) ≤ n)
unfolding take
NoNewline-take zero s h = (tt, omega arith)
NoNewline-take (suc n) [] h = (tt, omega arith)
NoNewline-take (suc n) (c ∷ s) h =
    let (clear, short) = NoNewline-take n s h.1 in ((h.0, clear), omega (arith, short))

length-strip_controls : (s : Text) → length (strip_controls s) ≤ length s
unfolding strip_controls
length-strip_controls s = length-filter (λ c. not (is_control c)) s

clean-IsClean :
    (raw : Text) (truncated : Bool)
    → NoNewline raw
    → length raw ≤ tail_max_line_bytes
    → IsClean (clean raw truncated)
unfolding clean
clean-IsClean raw truncated h short =
    let (clear₁, short₁) = without_cr-NoNewline raw h in
    let (clear₂, short₂) = strip_ansi-NoNewline 0 (without_cr raw) clear₁ in
    let text = strip_controls (strip_ansi 0 (without_cr raw)) in
    let printable = strip_controls-IsPrintable (strip_ansi 0 (without_cr raw)) clear₂ in
    let short₃ = length-strip_controls (strip_ansi 0 (without_cr raw)) in
    if_either (λ t. All IsPrintable t × (length t ≤ tail_max_line_bytes + 2)) truncated
      (λ e. (
        All-append IsPrintable text ellipsis printable
            ((refl, omega arith), ((refl, omega arith), tt)),
        omega (arith, length-append text ellipsis, short, short₁, short₂, short₃),
      ))
      (λ e. (printable, omega (arith, short, short₁, short₂, short₃)))

emit-IsClean : (line : Text) → NoNewline line → IsClean (emit line)
unfolding emit
emit-IsClean line h =
    let (clear, short) = NoNewline-take tail_max_line_bytes line h in
    if_either IsClean (too_long line)
      (λ e. clean-IsClean (take tail_max_line_bytes line) true clear short)
      (λ e. clean-IsClean line false h (ground (arith, e)))

-- What a step leaves: clean lines, and a partial line with no newline in it.
abbrev IsTidy : Framed → Type 0
IsTidy (lines, f) = All IsClean lines × NoNewline f.partial

carry-IsTidy : (f : LineFramer) (w : Text) → NoNewline f.partial → NoNewline w → IsTidy (carry f w)
unfolding carry
carry-IsTidy f w h k =
    let whole = All-append (λ c. c ≢ 10) f.partial w h k in
    let (clear, short) = NoNewline-take tail_max_line_bytes (f.partial ++ w) whole in
    if_either IsTidy f.discarding (λ e. (tt, h))
      (λ e.
        if_either IsTidy (too_long (f.partial ++ w))
          (λ long.
            ((clean-IsClean (take tail_max_line_bytes (f.partial ++ w)) true clear short, tt), tt))
          (λ fits. (tt, whole)))

push_segments-IsTidy :
    (f : LineFramer) (ws : List Text)
    → NoNewline f.partial
    → All (λ w. includes 10 w ≡ false) ws
    → IsTidy (push_segments f ws)
unfolding push_segments end_line
push_segments-IsTidy f [] h k = (tt, h)
push_segments-IsTidy f (w ∷ []) h k = carry-IsTidy f w h (NoNewline-of_includes w k.0)
push_segments-IsTidy f (w ∷ v ∷ ws) h k =
    let (lines, rest) = push_segments-IsTidy fresh (v ∷ ws) tt k.1 in
    let whole = All-append (λ c. c ≢ 10) f.partial w h (NoNewline-of_includes w k.0) in
    (
      if_either (λ l. All IsClean (l ++ (push_segments fresh (v ∷ ws)).0)) f.discarding (λ e. lines)
          (λ e. (emit-IsClean (f.partial ++ w) whole, lines)),
      rest,
    )

-- Every line that a chunk completes is printable, free of control characters but tabs, and at most
-- two code units, those of the ellipsis, longer than the cap; the partial line holds no newline.
pub push-IsClean :
    (f : LineFramer) (t : Text)
    → All (λ c. c ≢ 10) f.partial
    → All IsClean (push f t).0 × All (λ c. c ≢ 10) (push f t).1.partial
unfolding push
push-IsClean f t h =
    if_either IsTidy (is_empty t) (λ e. (tt, h))
      (λ e. push_segments-IsTidy f (split 10 t) h (split-All 10 t))
