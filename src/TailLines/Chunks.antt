-- ===== src/TailLines/Chunks.antt =====
-- The lines do not depend on where the text was cut into chunks.
use trekker.Prelude.{
  ℕ, zero, suc, ◌≤◌, ◌<◌, ◌≡◌, refl, sym, ap, ◌∙◌, inl, inr, Bool, true, false, List, [], ◌∷◌, ◌++◌,
  append-nil, append_assoc, arith, ◌==◌, length, length-append, Bool-cases, if_either,
}
use trekker.Text.{Text, is_empty, split, push_head, take}
use trekker.Text.Laws.{split_cons}
use trekker.TailLines.{
  tail_max_line_bytes, FramedLine, LineFramer, Framed, before, carry, end_line, emit, fresh, clean,
  too_long, push_segments, push,
}

abbrev pushed : LineFramer → Text → Framed
pushed f text = push_segments f (split 10 text)

abbrev at : Text → Bool → LineFramer
at p d = record { partial = p; discarding = d }

-- One more code unit of the current line.
abbrev fed : ℕ → Text → Bool → LineFramer
fed c p true = at p true
fed c p false = at (p ++ c ∷ []) false

take-append : (n : ℕ) (p w : Text) → n < length p → take n (p ++ w) ≡ take n p
unfolding take
take-append zero p w h = refl
take-append (suc n) [] w h = absurd (omega arith)
take-append (suc n) (c ∷ p) w h = ap (λ t. c ∷ t) (take-append n p w (omega arith))

before-before :
    (xs ys : List FramedLine) (r : Framed) → before xs (before ys r) ≡ before (xs ++ ys) r
before-before xs ys (lines, f) = ap (λ l. (l, f)) (sym (append_assoc xs ys lines))

before-nil : (r : Framed) → before [] r ≡ r
before-nil (lines, f) = refl

carry-fed : (c : ℕ) (p : Text) (d : Bool) (w : Text) → carry (at p d) (c ∷ w) ≡ carry (fed c p d) w
unfolding carry
carry-fed c p true w = refl
carry-fed c p false w = rw (append_assoc p (c ∷ []) w) refl

end_line-fed :
    (c : ℕ) (p : Text) (d : Bool) (w : Text) → end_line (at p d) (c ∷ w) ≡ end_line (fed c p d) w
unfolding end_line
end_line-fed c p true w = refl
end_line-fed c p false w = rw (append_assoc p (c ∷ []) w) refl

push_segments-push_head :
    (c : ℕ) (p : Text) (d : Bool) (w : Text) (ws : List Text)
    → push_segments (at p d) (push_head c (w ∷ ws)) ≡ push_segments (fed c p d) (w ∷ ws)
unfolding push_segments
push_segments-push_head c p d w [] = carry-fed c p d w
push_segments-push_head c p d w (v ∷ ws) =
    ap (λ l. before l (push_segments fresh (v ∷ ws))) (end_line-fed c p d w)

-- Reading the text one code unit at a time.
pushed-cons :
    (c : ℕ) (p : Text) (d : Bool) (s : Text)
    → (c == 10) ≡ false
    → pushed (at p d) (c ∷ s) ≡ pushed (fed c p d) s
unfolding split
pushed-cons c p d s h =
    let (w, ws, e) = split_cons 10 s in rw (h, e) (push_segments-push_head c p d w ws)

pushed-newline :
    (c : ℕ) (f : LineFramer) (s : Text)
    → (c == 10) ≡ true
    → pushed f (c ∷ s) ≡ before (end_line f []) (pushed fresh s)
unfolding split push_segments
pushed-newline c f s h = let (w, ws, e) = split_cons 10 s in rw (h, e) refl

emit-overlong :
    (p w : Text) → too_long p ≡ true → emit (p ++ w) ≡ clean (take tail_max_line_bytes p) true
unfolding emit
emit-overlong p w h =
    let longer : too_long (p ++ w) ≡ true = ground (arith, h, length-append p w) in
    rw longer (ap (λ t. clean t true) (take-append tail_max_line_bytes p w (ground (arith, h))))

carry-overlong :
    (p w : Text)
    → too_long p ≡ true
    → carry (at p false) w ≡ (clean (take tail_max_line_bytes p) true ∷ [], at [] true)
unfolding carry
carry-overlong p w h =
    let longer : too_long (p ++ w) ≡ true = ground (arith, h, length-append p w) in
    rw longer (
      ap (λ t. (clean t true ∷ [], at [] true))
        (take-append tail_max_line_bytes p w (ground (arith, h))))

carry-discarding : (p w : Text) → carry (at p true) w ≡ ([], at p true)
unfolding carry
carry-discarding p w = refl

end_line-discarding : (p w : Text) → end_line (at p true) w ≡ []
unfolding end_line
end_line-discarding p w = refl

end_line-overlong :
    (p w : Text)
    → too_long p ≡ true
    → end_line (at p false) w ≡ clean (take tail_max_line_bytes p) true ∷ []
unfolding end_line
end_line-overlong p w h = ap (λ l. l ∷ []) (emit-overlong p w h)

abbrev cut_line : Text → List FramedLine
cut_line p = clean (take tail_max_line_bytes p) true ∷ []

cut-segments :
    (p w : Text) (ws : List Text)
    → too_long p ≡ true
    → push_segments (at p false) (w ∷ ws)
      ≡ before (cut_line p) (push_segments (at [] true) (w ∷ ws))
unfolding push_segments
cut-segments p w [] h =
    carry-overlong p w h ∙ ap (before (cut_line p)) (sym (carry-discarding [] w))
cut-segments p w (v ∷ ws) h =
    let rest = push_segments fresh (v ∷ ws) in
    ap (λ l. before l rest) (end_line-overlong p w h)
    ∙ ap (before (cut_line p))
        (sym (before-nil rest) ∙ ap (λ l. before l rest) (sym (end_line-discarding [] w)))

-- A partial line that is too long is cut now or later, at the same place.
pushed-overlong :
    (p s : Text)
    → too_long p ≡ true
    → pushed (at p false) s ≡ before (cut_line p) (pushed (at [] true) s)
pushed-overlong p s h = let (w, ws, e) = split_cons 10 s in rw e (cut-segments p w ws h)

carry-short : (p : Text) → too_long p ≡ false → carry (at p false) [] ≡ ([], at p false)
unfolding carry
carry-short p h = rw append-nil (rw h refl)

pushed-empty : (f : LineFramer) → pushed f [] ≡ carry f []
unfolding push_segments split
pushed-empty f = refl

abbrev then_push : Framed → Text → Framed
then_push (lines, f) text = before lines (pushed f text)

then_push-carry : (p s : Text) (d : Bool) → pushed (at p d) s ≡ then_push (carry (at p d) []) s
then_push-carry p s true =
    sym (before-nil _) ∙ ap (λ r. then_push r s) (sym (carry-discarding p []))
then_push-carry p s false = elim (Bool-cases (too_long p)) [
  | inl long ↦ pushed-overlong p s long ∙ ap (λ r. then_push r s) (sym (carry-overlong p [] long))
  | inr short ↦ sym (before-nil _) ∙ ap (λ r. then_push r s) (sym (carry-short p short))
]

fed-at : (c : ℕ) (p : Text) (d : Bool) → (p' : Text) × (d' : Bool) × (fed c p d ≡ at p' d')
fed-at c p true = (p, true, refl)
fed-at c p false = (p ++ c ∷ [], false, refl)

then_push-before :
    (lines : List FramedLine) (r : Framed) (t : Text)
    → then_push (before lines r) t ≡ before lines (then_push r t)
then_push-before lines (more, f) t = sym (before-before lines more (pushed f t))

pushed-append :
    (s t p : Text) (d : Bool) → pushed (at p d) (s ++ t) ≡ then_push (pushed (at p d) s) t
pushed-append [] t p d =
    then_push-carry p t d ∙ ap (λ r. then_push r t) (sym (pushed-empty (at p d)))
pushed-append (c ∷ s) t p d = elim (Bool-cases (c == 10)) [
  | inl e ↦
      rw (pushed-newline c (at p d) (s ++ t) e, pushed-newline c (at p d) s e)
        (ap (before _) (pushed-append s t [] false)
          ∙ sym (then_push-before (end_line (at p d) []) (pushed fresh s) t))
  | inr e ↦
      let (p', d', same) = fed-at c p d in
      rw (pushed-cons c p d (s ++ t) e, pushed-cons c p d s e, same) (pushed-append s t p' d')
]

-- The partial line is within the cap.
abbrev pub IsBounded : LineFramer → Type 0
IsBounded f = length f.partial ≤ tail_max_line_bytes

idle : (p : Text) (d : Bool) → length p ≤ tail_max_line_bytes → ([], at p d) ≡ carry (at p d) []
idle p true h = sym (carry-discarding p [])
idle p false h = sym (carry-short p (ground arith))

carry-IsBounded : (f : LineFramer) (w : Text) → IsBounded f → IsBounded (carry f w).1
unfolding carry
carry-IsBounded f w h =
    if_either (λ (r : Framed). IsBounded r.1) f.discarding (λ e. h)
      (λ e.
        if_either (λ (r : Framed). IsBounded r.1) (too_long (f.partial ++ w)) (λ long. omega arith)
          (λ short. ground (arith, short)))

push_segments-IsBounded :
    (f : LineFramer) (ws : List Text) → IsBounded f → IsBounded (push_segments f ws).1
unfolding push_segments
push_segments-IsBounded f [] h = h
push_segments-IsBounded f (w ∷ []) h = carry-IsBounded f w h
push_segments-IsBounded f (w ∷ v ∷ ws) h = push_segments-IsBounded fresh (v ∷ ws) (omega arith)

-- The partial line never grows beyond the cap.
pub push-IsBounded : (f : LineFramer) (t : Text) → IsBounded f → IsBounded (push f t).1
unfolding push
push-IsBounded f t h =
    if_either (λ (r : Framed). IsBounded r.1) (is_empty t) (λ e. h)
      (λ e. push_segments-IsBounded f (split 10 t) h)

push-pushed : (f : LineFramer) (t : Text) → IsBounded f → push f t ≡ pushed f t
unfolding push
push-pushed f [] h = idle f.partial f.discarding h ∙ sym (pushed-empty f)
push-pushed f (c ∷ t) h = refl

-- Two chunks give the lines, and leave the state, of their concatenation: where the text was cut,
-- also inside a line that is too long, makes no difference.
pub push-append :
    (f : LineFramer) (s t : Text)
    → IsBounded f
    → push f (s ++ t) ≡ ((push f s).0 ++ (push (push f s).1 t).0, (push (push f s).1 t).1)
push-append f s t h =
    let first = push-pushed f s h in
    push-pushed f (s ++ t) h
    ∙ pushed-append s t f.partial f.discarding
    ∙ ap (λ r. then_push r t) (sym first)
    ∙ ap (before (push f s).0) (sym (push-pushed (push f s).1 t (push-IsBounded f s h)))
