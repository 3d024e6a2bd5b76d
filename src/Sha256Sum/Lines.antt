-- ===== src/Sha256Sum/Lines.antt =====
-- nest-api/src/hosts/sha256-sum.ts: lines as `sha256sum` prints them, and what is read of them.
use trekker.Prelude.{
  ℕ, ◌≡◌, refl, ap, subst, Bool, true, false, ◌||◌, none, some, [], ◌∷◌, ◌++◌, arith, and_true,
  ◌==◌, length, if_either, if◌then◌else◌, All, all,
}
use trekker.Text.{is_dot, Text, is_space, includes, split}
use trekker.Text.Laws.{includes-append, dots-newline, split-append}
use trekker.Sha256Sum.{
  Digests, is_hex, unescape_path, sum_path, sum_digest, sum_fields, set_digest, take_line,
  take_lines, parse_sum_lines,
}
use trekker.Sha256Sum.Escapes.{
  escape, sum_line, IsDigest, IsPlainPath, unescape-escape, ends_open-escape, escape-dots,
  plain-dots,
}
use trekker.Text.Trim.{trim_end_space-whole, ends_open-cons, ends_open-append, ends_open}

sum_path-dots :
    (s : Text) → ends_open s ≡ true → all is_dot s ≡ true → sum_path (32 ∷ 32 ∷ s) ≡ some s
unfolding sum_path is_space ends_open
sum_path-dots [] h d = cc
sum_path-dots (c ∷ s) h d = rw (d) refl

sum_digest-append :
    (digest s path : Text)
    → all is_hex digest ≡ true
    → sum_path s ≡ some path
    → sum_digest (length digest) (digest ++ s) ≡ some (digest, path)
unfolding sum_digest
sum_digest-append [] s path h e = rw (sum_digest, e) refl
sum_digest-append (c ∷ digest) s path h e =
    rw (sum_digest, sum_digest-append digest s path (ground (arith, h)) e)
      (ap (λ (b : Bool). if b then some (c ∷ digest, path) else none)
        (and_true (is_hex c) (all is_hex digest) h).0)

sum_digest-line :
    (digest s : Text)
    → IsDigest digest
    → ends_open s ≡ true
    → all is_dot s ≡ true
    → sum_digest 64 (digest ++ (32 ∷ 32 ∷ s)) ≡ some (digest, s)
sum_digest-line digest s (len, hex) open_end dots =
    subst (λ n. sum_digest n (digest ++ (32 ∷ 32 ∷ s)) ≡ some (digest, s)) len
      (sum_digest-append digest (32 ∷ 32 ∷ s) s hex (sum_path-dots s open_end dots))

hex_first : (c : ℕ) (s : Text) → all is_hex (c ∷ s) ≡ true → (c == 92) ≡ false
hex_first c s h = ground (arith, h)

sum_fields-plain :
    (digest path : Text)
    → IsDigest digest
    → IsPlainPath path
    → includes 10 path ≡ false
    → sum_fields (digest ++ (32 ∷ 32 ∷ path)) ≡ some (path, digest)
unfolding sum_fields unescape_path
sum_fields-plain [] path d p n = ground (arith, d)
sum_fields-plain (c ∷ digest) path d p n =
    rw (hex_first c digest d.1)
      (rw (sum_digest-line (c ∷ digest) path d p.0 (plain-dots path p.1 n)) refl)

-- Both kinds of line are read back.
sum_fields-sum_line :
    (digest path : Text)
    → IsDigest digest
    → IsPlainPath path
    → sum_fields (sum_line digest path) ≡ some (path, digest)
unfolding sum_fields sum_line unescape_path
sum_fields-sum_line digest path d p =
    if_either (λ (l : Text). sum_fields l ≡ some (path, digest))
      (includes 92 path || includes 10 path)
      (λ _.
        rw
          (sum_digest-line digest (escape path) d (ends_open-escape path p.0)
            (escape-dots path p.1))
          (ap (λ s. some (s, digest)) (unescape-escape path)))
      (λ e. sum_fields-plain digest path d p (ground (arith, e)))

sum_line-ends_open :
    (digest path : Text) → IsPlainPath path → ends_open (sum_line digest path) ≡ true
unfolding sum_line
sum_line-ends_open digest path p =
    let spaced : (s : Text) → ends_open s ≡ true → ends_open (digest ++ (32 ∷ 32 ∷ s)) ≡ true =
      λ s h.
        ends_open-append digest (32 ∷ 32 ∷ s)
          (ends_open-cons 32 (32 ∷ s) (ends_open-cons 32 s h)) in
    if_either (λ (l : Text). ends_open l ≡ true) (includes 92 path || includes 10 path)
      {x = 92 ∷ (digest ++ (32 ∷ 32 ∷ escape path))} {y = digest ++ (32 ∷ 32 ∷ path)}
      (λ _.
        ends_open-cons 92 (digest ++ (32 ∷ 32 ∷ escape path))
          (spaced (escape path) (ends_open-escape path p.0)))
      (λ _. spaced path p.0)

take_line-sum_line :
    (digest path : Text) (into : Digests)
    → IsDigest digest
    → IsPlainPath path
    → take_line (sum_line digest path) into ≡ set_digest path digest into
unfolding take_line
take_line-sum_line digest path into d p =
    rw
      (
        trim_end_space-whole (sum_line digest path) (sum_line-ends_open digest path p),
        sum_fields-sum_line digest path d p,
      )
      refl

-- What `sha256sum` prints for the files: a line for each, ended by a newline.
unfoldable pub sum_output : Digests → Text
sum_output [] = []
sum_output (f ∷ files) = sum_line f.1 f.0 ++ (10 ∷ sum_output files)

unfoldable pub set_digests : Digests → Digests → Digests
set_digests [] into = into
set_digests (f ∷ files) into = set_digests files (set_digest f.0 f.1 into)

abbrev pub IsPrinted : Text × Text → Type 0
IsPrinted f = IsPlainPath f.0 × IsDigest f.1

hex-newline : (s : Text) → all is_hex s ≡ true → includes 10 s ≡ false
unfolding includes
hex-newline [] h = refl
hex-newline (c ∷ s) h = let rest = hex-newline s (ground (arith, h)) in ground (arith, h, rest)

sum_line-newline :
    (digest path : Text)
    → IsDigest digest
    → IsPlainPath path
    → includes 10 (sum_line digest path) ≡ false
unfolding sum_line includes
sum_line-newline digest path d p =
    let spaced : (s : Text)
        → includes 10 s ≡ false
        → includes 10 (digest ++ (32 ∷ 32 ∷ s)) ≡ false =
      λ s h. rw (includes-append 10 digest (32 ∷ 32 ∷ s), hex-newline digest d.1) h in
    if_either (λ (l : Text). includes 10 l ≡ false) (includes 92 path || includes 10 path)
      {x = 92 ∷ (digest ++ (32 ∷ 32 ∷ escape path))} {y = digest ++ (32 ∷ 32 ∷ path)}
      (λ _. spaced (escape path) (dots-newline (escape path) (escape-dots path p.1)))
      (λ e. spaced path (ground (arith, e)))

take_lines-sum_output :
    (files into : Digests)
    → All IsPrinted files
    → take_lines (split 10 (sum_output files)) into ≡ set_digests files into
unfolding take_lines sum_output set_digests split
take_lines-sum_output [] into h = refl
take_lines-sum_output (f ∷ files) into (h, hs) =
    rw
      (
        split-append 10 (sum_line f.1 f.0) (sum_output files) (sum_line-newline f.1 f.0 h.1 h.0),
        take_lines,
        take_line-sum_line f.1 f.0 into h.1 h.0,
      )
      (take_lines-sum_output files (set_digest f.0 f.1 into) hs)

-- What `sha256sum` prints for files, a line for each with the path escaped where it holds a backslash
-- or a newline, is read back as the digest of each path, provided that each digest is 64 characters of
-- hexadecimal and that no path ends in white space or holds a carriage return or a line or paragraph
-- separator.
pub parse_sum_lines-sum_output :
    (files : Digests)
    → All IsPrinted files
    → parse_sum_lines (sum_output files) ≡ set_digests files []
unfolding parse_sum_lines
parse_sum_lines-sum_output files h = take_lines-sum_output files [] h
