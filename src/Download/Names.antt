-- ===== src/Download/Names.antt =====
-- The names that downloads are saved under.
use trekker.Prelude.{
  ℕ, zero, suc, ◌≡◌, refl, ◌≤◌, ◌<◌, true, ◌&&◌, [], ◌∷◌, arith, if◌then◌else◌, length, map,
  if_either, All, ◌==◌,
}
use trekker.Text.{Text, codes, is_empty, is_space, trim_end_space, trim_start_space, trim, take}
use trekker.Download.{is_safe_ascii, drop_dots, basename, ascii_filename}

abbrev pub AreSafe : Text → Type 0
AreSafe = All (λ c. is_safe_ascii c ≡ true)

map-AreSafe : (s : Text) → AreSafe (map (λ c. if is_safe_ascii c then c else 95) s)
map-AreSafe [] = tt
map-AreSafe (c ∷ s) =
    (if_either (λ d. is_safe_ascii d ≡ true) (is_safe_ascii c) (λ e. e) (λ e. refl), map-AreSafe s)

drop_dots-AreSafe : (s : Text) → AreSafe s → AreSafe (drop_dots s)
unfolding drop_dots
drop_dots-AreSafe [] h = tt
drop_dots-AreSafe (c ∷ s) h = if_either AreSafe (c == 46) (λ e. drop_dots-AreSafe s h.1) (λ e. h)

start-AreSafe : (s : Text) → AreSafe s → AreSafe (trim_start_space s)
unfolding trim_start_space
start-AreSafe [] h = tt
start-AreSafe (c ∷ s) h = if_either AreSafe (is_space c) (λ e. start-AreSafe s h.1) (λ e. h)

end-AreSafe : (s : Text) → AreSafe s → AreSafe (trim_end_space s)
unfolding trim_end_space
end-AreSafe [] h = tt
end-AreSafe (c ∷ s) h =
    if_either AreSafe (is_empty (trim_end_space s) && is_space c) (λ e. tt)
      (λ e. (h.0, end-AreSafe s h.1))

take-AreSafe : (n : ℕ) (s : Text) → AreSafe s → AreSafe (take n s)
unfolding take
take-AreSafe zero s h = tt
take-AreSafe (suc n) [] h = tt
take-AreSafe (suc n) (c ∷ s) h = (h.0, take-AreSafe n s h.1)

length-take : (n : ℕ) (s : Text) → length (take n s) ≤ n
unfolding take
length-take zero s = ground arith
length-take (suc n) [] = ground arith
length-take (suc n) (c ∷ s) = ground (arith, length-take n s)

abbrev IsQuotable : Text → Type 0
IsQuotable s = AreSafe s × (0 < length s) × (length s ≤ 200)

fallback-IsQuotable :
    (s : Text) → AreSafe s → IsQuotable (if is_empty s then codes "download" else take 200 s)
unfolding take
fallback-IsQuotable [] h =
    ((refl, (refl, (refl, (refl, (refl, (refl, (refl, (refl, tt)))))))), omega arith, omega arith)
fallback-IsQuotable (c ∷ s) h =
    ((h.0, take-AreSafe 199 s h.1), omega arith, omega (arith, length-take 199 s))

-- Whatever an entry is called, the quoted name of its download is not empty, is at most 200
-- characters long, and has letters, digits, dots, dashes, underscores and spaces only: it cannot
-- end the header it stands in.
pub ascii_filename-AreSafe :
    (name : Text)
    → AreSafe (ascii_filename name)
      × (0 < length (ascii_filename name))
      × (length (ascii_filename name) ≤ 200)
unfolding ascii_filename trim
ascii_filename-AreSafe name =
    let replaced = map (λ c. if is_safe_ascii c then c else 95) (basename name) in
    fallback-IsQuotable (trim (drop_dots replaced))
      (start-AreSafe _ (end-AreSafe _ (drop_dots-AreSafe replaced (map-AreSafe (basename name)))))
