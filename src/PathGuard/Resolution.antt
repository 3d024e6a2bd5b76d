-- ===== src/PathGuard/Resolution.antt =====
-- The loop that resolves a path on the host: it ends, and it stops at the nearest ancestor that is
-- there.
use trekker.Prelude.{
  ℕ, zero, suc, ◌≤◌, ◌<◌, ◌≡◌, ◌≢◌, refl, sym, ap, subst, ◌∙◌, ◌⊎◌, inl, inr, false, none, some,
  List, [], ◌∷◌, ◌++◌, append-nil, append_assoc, arith, All, All-any, Bool-cases, any, true, length,
  length-append,
}
use trekker.Text.{Text, text_eq, join, cut_last}
use trekker.Text.Laws.{text_eq_refl, eq_of_text_eq, cut_last-append}
use trekker.PathGuard.{
  slash, root, Driver, Reply, answered, failed, disconnected, Attempt, value, refusal, lost,
  out_of_fuel, nothing_resolvable, clean_path, try_resolve_existing, dirname, basename,
  parent_of_cut, is_dots, with_suffix, resolve_from, resolve_on_host,
}
use trekker.PathGuard.Paths.{
  IsSegment, path_of, segments, segments-IsSegment, clean_path-segments, slashed, path_of-slashed,
  no_slash, text_eq-root,
}

-- A list is empty or ends in an element.
snoc_view :
    {A : Type 0} (xs : List A)
    → (xs ≡ []) ⊎ ((front : List A) × (last : A) × (xs ≡ front ++ last ∷ []))
snoc_view [] = inl refl
snoc_view (x ∷ xs) = elim (snoc_view xs) [
  | inl e ↦ inr ([], x, ap (λ l. x ∷ l) e)
  | inr (front, last, e) ↦ inr (x ∷ front, last, ap (λ l. x ∷ l) e)
]

slashed-snoc : (xs : List Text) (x : Text) → slashed (xs ++ x ∷ []) ≡ slashed xs ++ slash ∷ x
slashed-snoc [] x = rw append-nil
slashed-snoc (y ∷ xs) x =
    ap (λ t. slash ∷ (y ++ t)) (slashed-snoc xs x)
    ∙ ap (λ t. slash ∷ t) (sym (append_assoc y (slashed xs) (slash ∷ x)))

path_of-snoc : (xs : List Text) (x : Text) → path_of (xs ++ x ∷ []) ≡ slashed xs ++ slash ∷ x
path_of-snoc [] x = path_of-slashed x [] ∙ slashed-snoc [] x
path_of-snoc (y ∷ xs) x = path_of-slashed y (xs ++ x ∷ []) ∙ slashed-snoc (y ∷ xs) x

parent-slashed : (xs : List Text) (f p : Text) → parent_of_cut p (some (slashed xs, f)) ≡ path_of xs
unfolding join
parent-slashed [] f p = refl
parent-slashed (y ∷ xs) f p = sym (path_of-slashed y xs)

cut-snoc :
    (xs : List Text) (x : Text)
    → IsSegment x
    → cut_last slash (path_of (xs ++ x ∷ [])) ≡ some (slashed xs, slash ∷ x)
cut-snoc xs x h =
    ap (cut_last slash) (path_of-snoc xs x) ∙ cut_last-append slash (slashed xs) x (no_slash x h)

pub dirname-snoc :
    (xs : List Text) (x : Text) → IsSegment x → dirname (path_of (xs ++ x ∷ [])) ≡ path_of xs
unfolding dirname
dirname-snoc xs x h =
    ap (parent_of_cut (path_of (xs ++ x ∷ []))) (cut-snoc xs x h)
    ∙ parent-slashed xs (slash ∷ x) (path_of (xs ++ x ∷ []))

pub basename-snoc :
    (xs : List Text) (x : Text) → IsSegment x → basename (path_of (xs ++ x ∷ [])) ≡ x
unfolding basename
basename-snoc xs x h = rw (cut-snoc xs x h)

text_eq-snoc :
    (xs : List Text) (x : Text)
    → All IsSegment (xs ++ x ∷ [])
    → text_eq (path_of (xs ++ x ∷ [])) root ≡ false
text_eq-snoc [] x h = text_eq-root x [] h.0
text_eq-snoc (y ∷ xs) x h = text_eq-root y (xs ++ x ∷ []) h.0

All-front :
    {A : Type 0} (P : A → Type 0) (xs : List A) (x : A) → All P (xs ++ x ∷ []) → All P xs × P x
All-front P [] x h = (tt, h.0)
All-front P (y ∷ xs) x h = let (a, b) = All-front P xs x h.1 in ((h.0, a), b)

-- The host gives a real path for it that it can stat.
abbrev pub IsThere : Driver → Text → Text → Type 0
IsThere d path real = (d.realpath path ≡ answered real) × (d.stat real ≡ answered tt)

-- The host gives no real path for it, or one that it cannot stat.
abbrev pub IsMissing : Driver → Text → Type 0
IsMissing d path =
    (d.realpath path ≡ failed)
    ⊎ ((real : Text) × (d.realpath path ≡ answered real) × (d.stat real ≡ failed))

-- A path and segments under it, none of which is . or ..; the root of the file system brings its own
-- slash.
abbrev pub IsUnder : Text → List Text → Text → Type 0
IsUnder above [] real = real ≡ above
IsUnder above (s ∷ below) real =
    All (λ q. is_dots q ≡ false) (s ∷ below)
    × (((above ≡ root) × (real ≡ slashed (s ∷ below)))
        ⊎ ((above ≢ root) × (real ≡ above ++ slashed (s ∷ below))))

reply_cases :
    {A : Type 0} (r : Reply A) → ((a : A) × (r ≡ answered a)) ⊎ (r ≡ failed) ⊎ (r ≡ disconnected)
reply_cases (answered a) = inl (a, refl)
reply_cases failed = inr (inl refl)
reply_cases disconnected = inr (inr refl)

-- What the host said, by what is made of it.
try_cases_of :
    (d : Driver) (p : Text)
    → ((try_resolve_existing d p ≡ value none) × IsMissing d p)
      ⊎ ((r : Text) × (try_resolve_existing d p ≡ value (some r)) × IsThere d p r)
      ⊎ (try_resolve_existing d p ≡ lost)
unfolding try_resolve_existing
try_cases_of d p = elim (reply_cases (d.realpath p)) [
  | inl (r, e) ↦ elim (reply_cases (d.stat r)) [
    | inl (tt, e') ↦ inr (inl (r, rw (e, e'), (e, e')))
    | inr (inl e') ↦ inl (rw (e, e'), inr (r, e, e'))
    | inr (inr e') ↦ inr (inr (rw (e, e')))
  ]
  | inr (inl e) ↦ inl (rw e, inl e)
  | inr (inr e) ↦ inr (inr (rw e))
]

IsMissing-of : (d : Driver) (p : Text) → try_resolve_existing d p ≡ value none → IsMissing d p
IsMissing-of d p e = elim (try_cases_of d p) [
  | inl (_, missing) ↦ missing
  | inr (inl (r, found, _)) ↦ absurd (cc (e, found))
  | inr (inr gone) ↦ absurd (cc (e, gone))
]

IsThere-of : (d : Driver) (p r : Text) → try_resolve_existing d p ≡ value (some r) → IsThere d p r
IsThere-of d p r e = elim (try_cases_of d p) [
  | inl (missing, _) ↦ absurd (cc (e, missing))
  | inr (inl (q, found, there)) ↦ let same : q ≡ r = cc (e, found) in subst (IsThere d p) same there
  | inr (inr gone) ↦ absurd (cc (e, gone))
]

with_suffix-IsUnder :
    (r : Text) (suffix : List Text) {real : Text}
    → with_suffix r suffix ≡ value real
    → IsUnder r suffix real
unfolding with_suffix
with_suffix-IsUnder r [] {real} e = cc (e)
with_suffix-IsUnder r (s ∷ suffix) {real} e = elim (Bool-cases (any is_dots (s ∷ suffix))) [
  | inl bad ↦ absurd (cc (rw (with_suffix, bad) at e))
  | inr good ↦ (
    All-any is_dots (s ∷ suffix) good,
    (elim (Bool-cases (text_eq r root)) [
      | inl same ↦
          let here : slash ∷ join root (s ∷ suffix) ≡ real =
            cc (rw (with_suffix, good, same) at e) in
          inl (eq_of_text_eq r root same, sym here ∙ path_of-slashed s suffix)
      | inr other ↦
          let here : r ++ (slash ∷ join root (s ∷ suffix)) ≡ real =
            cc (rw (with_suffix, good, other) at e) in
          inr (
            (λ same. cc (other, subst (λ t. text_eq r t ≡ true) same (text_eq_refl r))),
            sym here ∙ ap (λ t. r ++ t) (path_of-slashed s suffix),
          )
    ]),
  )
]

try_cases :
    (d : Driver) (p : Text)
    → (try_resolve_existing d p ≡ value none)
      ⊎ ((r : Text) × (try_resolve_existing d p ≡ value (some r)))
      ⊎ (try_resolve_existing d p ≡ lost)
try_cases d p = elim (try_cases_of d p) [
  | inl (e, _) ↦ inl e
  | inr (inl (r, e, _)) ↦ inr (inl (r, e))
  | inr (inr e) ↦ inr (inr e)
]

-- One round that finds nothing goes on with the parent, and with one more segment to append.
resolve-missing :
    (d : Driver) (fuel : ℕ) (xs suffix : List Text) (x : Text)
    → All IsSegment (xs ++ x ∷ [])
    → try_resolve_existing d (path_of (xs ++ x ∷ [])) ≡ value none
    → resolve_from d (suc fuel) (path_of (xs ++ x ∷ [])) suffix
      ≡ resolve_from d fuel (path_of xs) (x ∷ suffix)
unfolding resolve_from
resolve-missing d fuel xs suffix x h e =
    let seg = (All-front IsSegment xs x h).1 in
    rw (e, text_eq-snoc xs x h, dirname-snoc xs x seg, basename-snoc xs x seg, resolve_from)

resolve-found :
    (d : Driver) (fuel : ℕ) (p r : Text) (suffix : List Text)
    → try_resolve_existing d p ≡ value (some r)
    → resolve_from d (suc fuel) p suffix ≡ with_suffix r suffix
unfolding resolve_from
resolve-found d fuel p r suffix e = rw (e, resolve_from)

resolve-lost :
    (d : Driver) (fuel : ℕ) (p : Text) (suffix : List Text)
    → try_resolve_existing d p ≡ lost
    → resolve_from d (suc fuel) p suffix ≡ lost
unfolding resolve_from
resolve-lost d fuel p suffix e = rw (e, resolve_from)

resolve-nothing :
    (d : Driver) (fuel : ℕ) (suffix : List Text)
    → try_resolve_existing d root ≡ value none
    → resolve_from d (suc fuel) root suffix ≡ refusal nothing_resolvable
unfolding resolve_from text_eq
resolve-nothing d fuel suffix e = rw (e, resolve_from)

with_suffix_ends : (r : Text) (suffix : List Text) → with_suffix r suffix ≢ out_of_fuel
unfolding with_suffix
with_suffix_ends r [] e = cc
with_suffix_ends r (s ∷ suffix) e = ground arith

-- None of these segments, appended one after the other, leads to something that is there.
abbrev pub Missing : Driver → List Text → List Text → Type 0
Missing d above [] = Unit
Missing d above (b ∷ below) =
    IsMissing d (path_of (above ++ b ∷ [])) × Missing d (above ++ b ∷ []) below

Missing-snoc :
    (d : Driver) (above below : List Text) (x : Text)
    → Missing d above below
    → try_resolve_existing d (path_of ((above ++ below) ++ x ∷ [])) ≡ value none
    → Missing d above (below ++ x ∷ [])
Missing-snoc d above [] x h e = (IsMissing-of d _ (rw append-nil at e), tt)
Missing-snoc d above (b ∷ below) x h e = (
  h.0,
  Missing-snoc d (above ++ b ∷ []) below x h.1 (rw (← append_assoc above (b ∷ []) below) at e),
)

-- What a result of the loop says of the segments that it was asked for.
pub record Nearest (d : Driver) (us suffix : List Text) (real : Text) : Type 0 where
  pub above : List Text
  pub below : List Text
  pub resolved : Text
  pub parts : us ≡ above ++ below
  pub exists : IsThere d (path_of above) resolved
  pub missing : Missing d above below
  pub appended : IsUnder resolved (below ++ suffix) real

abbrev Ends : Driver → List Text → List Text → Attempt Text → Type 0
Ends d us suffix (value real) = Nearest d us suffix real
Ends d us suffix (refusal c) = Unit
Ends d us suffix lost = Unit
Ends d us suffix out_of_fuel = ⊥

Ends-with_suffix :
    (d : Driver) (us suffix : List Text) (r : Text)
    → try_resolve_existing d (path_of us) ≡ value (some r)
    → (t : Attempt Text) → with_suffix r suffix ≡ t
    → Ends d us suffix t
Ends-with_suffix d us suffix r e (value real) w = record {
  above = us;
  below = [];
  resolved = r;
  parts = sym (append-nil us);
  exists = IsThere-of d (path_of us) r e;
  missing = tt;
  appended = with_suffix-IsUnder r suffix w;
}
Ends-with_suffix d us suffix r e (refusal c) w = tt
Ends-with_suffix d us suffix r e lost w = tt
Ends-with_suffix d us suffix r e out_of_fuel w = with_suffix_ends r suffix w

Ends-snoc :
    (d : Driver) (xs suffix : List Text) (x : Text) (t : Attempt Text)
    → try_resolve_existing d (path_of (xs ++ x ∷ [])) ≡ value none
    → Ends d xs (x ∷ suffix) t
    → Ends d (xs ++ x ∷ []) suffix t
Ends-snoc d xs suffix x (value real) e h = record {
  above = h.above;
  below = h.below ++ x ∷ [];
  resolved = h.resolved;
  parts = rw h.parts (append_assoc h.above h.below (x ∷ []));
  exists = h.exists;
  missing = Missing-snoc d h.above h.below x h.missing (rw h.parts at e);
  appended =
      subst (λ l. IsUnder h.resolved l real) (sym (append_assoc h.below (x ∷ []) suffix))
        h.appended;
}
Ends-snoc d xs suffix x (refusal c) e h = tt
Ends-snoc d xs suffix x lost e h = tt
Ends-snoc d xs suffix x out_of_fuel e h = h

-- A fuel above the number of segments is enough.
resolve_from-Ends :
    (d : Driver) (fuel : ℕ) (us suffix : List Text)
    → All IsSegment us
    → length us < fuel
    → Ends d us suffix (resolve_from d fuel (path_of us) suffix)
unfolding join
resolve_from-Ends d zero us suffix h lt = absurd (omega arith)
resolve_from-Ends d (suc fuel) us suffix h lt = elim (try_cases d (path_of us)) [
  | inr (inl (r, e)) ↦
      rw (resolve-found d fuel (path_of us) r suffix e) (Ends-with_suffix d us suffix r e _ refl)
  | inr (inr e) ↦ rw (resolve-lost d fuel (path_of us) suffix e) tt
  | inl e ↦ elim (snoc_view us) [
    | inl top ↦ rw (top, resolve-nothing d fuel suffix (rw top at e)) tt
    | inr (xs, x, same) ↦
        let h' = rw same at h in
        let shorter : length xs < fuel =
          omega (arith, ap length same, length-append xs (x ∷ []), lt) in
        rw (same, resolve-missing d fuel xs suffix x h' (rw same at e))
          (Ends-snoc d xs suffix x _ (rw same at e)
            (resolve_from-Ends d fuel xs (x ∷ suffix) (All-front IsSegment xs x h').0 shorter))
  ]
]

length-join : (us : List Text) → All IsSegment us → length us ≤ length (path_of us)
unfolding join
length-join [] h = omega arith
length-join ([] ∷ us) h = absurd h.0
length-join ((c ∷ u) ∷ []) h = omega arith
length-join ((c ∷ u) ∷ v ∷ us) h =
    omega (arith, length-join (v ∷ us) h.1, length-append u (root ++ join root (v ∷ us)))

resolve_on_host-Ends :
    (d : Driver) (p : Text) → Ends d (segments p) [] (resolve_on_host d (clean_path p))
unfolding resolve_on_host
resolve_on_host-Ends d p =
    let seg = segments-IsSegment p in
    let bound = length-join (segments p) seg in
    rw (clean_path-segments p) (
      resolve_from-Ends d (suc (length (path_of (segments p)))) (segments p) [] seg
        (omega (arith, bound)))

Nearest-of_Ends :
    (d : Driver) (us : List Text) (real : Text) (t : Attempt Text)
    → t ≡ value real
    → Ends d us [] t
    → Nearest d us [] real
Nearest-of_Ends d us real t e h = subst (Ends d us []) e h

-- A path that resolves is the real path that the host gives for a prefix of its segments and can stat,
-- with the other segments appended in their order, each behind a slash and none of them . or .. . Each longer prefix is missing:
-- the host gives no real path for it, or one that it cannot stat.
pub resolve_on_host-Nearest :
    (d : Driver) (p real : Text)
    → resolve_on_host d (clean_path p) ≡ value real
    → Nearest d (segments p) [] real
resolve_on_host-Nearest d p real e =
    Nearest-of_Ends d (segments p) real _ e (resolve_on_host-Ends d p)

-- The loop that walks up to an existing ancestor ends, on every path and every host.
pub resolve_on_host_ends : (d : Driver) (p : Text) → resolve_on_host d (clean_path p) ≢ out_of_fuel
resolve_on_host_ends d p e = subst (Ends d (segments p) []) e (resolve_on_host-Ends d p)
