-- ===== src/Sha256Sum.antt =====
-- nest-api/src/hosts/sha256-sum.ts: the calls of `sha256sum` that a list of paths is cut into, and what
-- its output says of them. The run of the command on a host is not modelled.
pub mod Chunks
pub mod Escapes
pub mod Lines
mod Tests
use trekker.Prelude.{
  ℕ, zero, suc, ◌+◌, ◌*◌, ◌-◌, Bool, true, false, not, ◌&&◌, ◌||◌, Option, none, some, List, [],
  ◌∷◌, ◌++◌, if◌then◌else◌, ltb, leb, ◌==◌, length, all,
}
use trekker.Text.{is_dot, Text, text_eq, is_empty, is_space, split, trim_end_space}

abbrev pub max_args_per_call : ℕ
max_args_per_call = 64

abbrev pub max_argv_bytes : ℕ
max_argv_bytes = 96000

abbrev pub cost : Text → ℕ
cost path = length path * 2 + 4

abbrev pub is_none : List Text → Bool
is_none [] = true
is_none (_ ∷ _) = false

-- The bounds on a call are reached, and the path opens the next one.
abbrev pub is_full : List Text → ℕ → Text → Bool
is_full current bytes path =
    not (is_none current)
    && (leb max_args_per_call (length current) || ltb max_argv_bytes (bytes + cost path))

-- The loop of `chunkPaths`, over what is left of the paths.
unfoldable pub chunk_from : List Text → ℕ → List Text → List (List Text)
chunk_from current bytes [] = if is_none current then [] else current ∷ []
chunk_from current bytes (path ∷ paths) =
    let opened = chunk_from (path ∷ []) (cost path) paths in
    let added = chunk_from (current ++ (path ∷ [])) (bytes + cost path) paths in
    if is_full current bytes path then current ∷ opened else added

unfoldable pub chunk_paths : List Text → List (List Text)
unfolding chunk_from
chunk_paths paths = chunk_from [] 0 paths

-- `replace(/\\(n|\\)/g, …)`: pairs from the left.
unfoldable pub unescape : Text → Text
unescape [] = []
unescape (c ∷ []) = c ∷ []
unescape (c ∷ d ∷ s) =
    let pair = unescape s in
    let later = unescape (d ∷ s) in
    if c == 92 && d == 110 then 10 ∷ pair else if c == 92 && d == 92 then 92 ∷ pair else c ∷ later

unfoldable pub unescape_path : Text → Bool → Text
unfolding unescape
unescape_path path escaped = if escaped then unescape path else path

-- `[0-9a-f]`
abbrev pub is_hex : ℕ → Bool
is_hex c = (leb 48 c && leb c 57) || (leb 97 c && leb c 102)

-- `\s{2}(.+)$`
unfoldable pub sum_path : Text → Option Text
unfolding is_space
sum_path (a ∷ b ∷ c ∷ s) =
    if is_space a && is_space b && all is_dot (c ∷ s) then some (c ∷ s) else none
sum_path _ = none

-- `([0-9a-f]{n})` and what follows it: the digest and the path.
unfoldable pub sum_digest : ℕ → Text → Option (Text × Text)
unfolding sum_path
sum_digest zero s = elim (sum_path s) [ none ↦ none | some path ↦ some ([], path) ]
sum_digest (suc n) [] = none
sum_digest (suc n) (c ∷ s) = elim (sum_digest n s) [
  | none ↦ none
  | some (digest, path) ↦ if is_hex c then some (c ∷ digest, path) else none
]

abbrev pub or_none : Option (Text × Text) → Bool → Option (Text × Text)
or_none none escaped = none
or_none (some (digest, path)) escaped = some (unescape_path path escaped, digest)

-- What a line says: a path and its digest. A backslash in front marks an escaped path.
unfoldable pub sum_fields : Text → Option (Text × Text)
unfolding sum_digest unescape_path
sum_fields [] = none
sum_fields (c ∷ s) =
    if c == 92 then or_none (sum_digest 64 s) true else or_none (sum_digest 64 (c ∷ s)) false

abbrev pub Digests : Type 0
Digests = List (Text × Text)

-- `Map.prototype.set`
unfoldable pub set_digest : Text → Text → Digests → Digests
unfolding text_eq
set_digest path digest [] = (path, digest) ∷ []
set_digest path digest (d ∷ digests) =
    let rest = set_digest path digest digests in
    if text_eq d.0 path then (path, digest) ∷ digests else d ∷ rest

abbrev pub add_fields : Option (Text × Text) → Digests → Digests
add_fields none into = into
add_fields (some (path, digest)) into = set_digest path digest into

unfoldable pub take_line : Text → Digests → Digests
unfolding sum_fields set_digest trim_end_space
take_line line into = add_fields (sum_fields (trim_end_space line)) into

unfoldable pub take_lines : List Text → Digests → Digests
unfolding take_line
take_lines [] into = into
take_lines (line ∷ lines) into = take_lines lines (take_line line into)

unfoldable pub parse_sum_lines : Text → Digests
unfolding take_lines split
parse_sum_lines output = take_lines (split 10 output) []
