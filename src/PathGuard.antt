-- ===== src/PathGuard.antt =====
-- nest-api/src/hosts/path-guard/path-guard.service.ts: the check that every path from a client
-- passes before a driver sees it. The driver and the database are parameters: a driver's call gives
-- an answer, an error, or a connection error, and the host does not change during one check.
pub mod Paths
pub mod Resolution
pub mod Confinement
mod Tests
mod Types
pub use Types.*
use trekker.Prelude.{
  ℕ, zero, suc, ◌+◌, Bool, true, false, not, ◌&&◌, ◌||◌, Option, none, some, List, [], ◌∷◌, ◌++◌,
  if◌then◌else◌, ◌==◌, length, any,
}
use trekker.Text.{
  Text, codes, text_eq, includes, starts_with, split, join, non_empty, is_empty, cut_last,
}

abbrev pub slash : ℕ
slash = 47

abbrev pub root : Text
root = slash ∷ []

-- Segment-wise containment.
unfoldable pub contains : Text → Text → Bool
unfolding text_eq starts_with
contains ancestor path =
    text_eq path ancestor
    || starts_with (if text_eq ancestor root then root else ancestor ++ slash ∷ []) path

abbrev pub grants : Intent → Access → Bool
grants Intent.write Access.read = false
grants _ _ = true

unfoldable pub within_roots : Text → List ResolvedRoot → Intent → Bool
unfolding contains
within_roots real_path roots intent =
    any (λ (r : ResolvedRoot). grants intent r.access && contains r.real_path real_path) roots

-- Collapses duplicate separators and drops the trailing one; `.` and `..` stay.
unfoldable pub clean_path : Text → Text
unfolding split join
clean_path path = slash ∷ join root (non_empty (split slash path))

abbrev pub stat_reply : Text → Reply (Unit {0}) → Attempt (Option Text)
stat_reply resolved (answered _) = value (some resolved)
stat_reply resolved failed = value none
stat_reply resolved disconnected = lost

abbrev pub realpath_reply : Driver → Reply Text → Attempt (Option Text)
realpath_reply driver (answered resolved) = stat_reply resolved (driver.stat resolved)
realpath_reply driver failed = value none
realpath_reply driver disconnected = lost

-- The real path if it exists on the host, `none` if it does not.
unfoldable pub try_resolve_existing : Driver → Text → Attempt (Option Text)
try_resolve_existing driver path = realpath_reply driver (driver.realpath path)

-- posix.dirname and posix.basename of a path that `clean_path` made.
abbrev pub parent_of_cut : Text → Option (Text × Text) → Text
parent_of_cut path none = codes "."
parent_of_cut path (some ([], from)) = root
parent_of_cut path (some (c ∷ before, from)) = c ∷ before

unfoldable pub dirname : Text → Text
unfolding cut_last
dirname path = parent_of_cut path (cut_last slash path)

abbrev pub name_of_cut : Text → Option (Text × Text) → Text
name_of_cut path (some (before, c ∷ name)) = name
name_of_cut path _ = path

unfoldable pub basename : Text → Text
unfolding cut_last
basename path = name_of_cut path (cut_last slash path)

abbrev pub is_dots : Text → Bool
is_dots segment = text_eq segment (codes ".") || text_eq segment (codes "..")

-- The resolved ancestor with the segments that are not there yet.
unfoldable pub with_suffix : Text → List Text → Attempt Text
unfolding join
with_suffix resolved [] = value resolved
with_suffix resolved (s ∷ suffix) =
    if any is_dots (s ∷ suffix)
    then refusal dot_segment_in_new_path
    else value (
        if text_eq resolved root
        then slash ∷ join root (s ∷ suffix)
        else resolved ++ (slash ∷ join root (s ∷ suffix)))

-- The loop of `resolveOnHost`: up to the nearest ancestor that exists.
unfoldable pub resolve_from : Driver → ℕ → Text → List Text → Attempt Text
unfolding try_resolve_existing with_suffix dirname basename
resolve_from driver zero current suffix = out_of_fuel
resolve_from driver (suc fuel) current suffix = elim (try_resolve_existing driver current) [
  | value (some resolved) ↦ with_suffix resolved suffix
  | value none ↦ elim (text_eq current root) [
    | true ↦ refusal nothing_resolvable
    | false ↦ resolve_from driver fuel (dirname current) (basename current ∷ suffix)
  ]
  | refusal c ↦ refusal c
  | lost ↦ lost
  | out_of_fuel ↦ out_of_fuel
]

unfoldable pub resolve_on_host : Driver → Text → Attempt Text
unfolding resolve_from
resolve_on_host driver cleaned = resolve_from driver (suc (length cleaned)) cleaned []

abbrev pub unrestricted_roots : List ResolvedRoot
unrestricted_roots = record { path = root; real_path = root; access = Access.write } ∷ []

abbrev pub resolved_row : RootRow → Option Text → List ResolvedRoot → List ResolvedRoot
resolved_row row none rest = rest
resolved_row row (some real) rest =
    record { path = row.path; real_path = real; access = row.access } ∷ rest

-- A root that does not exist on the host grants nothing.
unfoldable pub resolve_rows : Driver → List RootRow → Attempt (List ResolvedRoot)
unfolding try_resolve_existing clean_path
resolve_rows driver [] = value []
resolve_rows driver (row ∷ rows) = do
  found ← try_resolve_existing driver (clean_path row.path)
  rest ← resolve_rows driver rows
  value (resolved_row row found rest)

unfoldable pub resolve_root_rows : Driver → List RootRow → Role → Attempt (List ResolvedRoot)
unfolding resolve_rows
resolve_root_rows driver rows Role.owner = value unrestricted_roots
resolve_root_rows driver rows Role.member = resolve_rows driver rows

unfoldable pub is_denied_locally : List Text → Text → Bool
unfolding contains
is_denied_locally deny real_path = any (λ entry. contains entry real_path) deny

-- Connection errors surface as themselves; any other error of the resolution is a refusal.
pub data Verdict : Type 0 where
  minted : ValidatedPath → Verdict
  refused : Category → Verdict
  connection_lost no_such_host did_not_end : Verdict

abbrev pub settle : {A : Type 0} → Attempt A → (A → Verdict) → Verdict
settle (value a) k = k a
settle (refusal c) k = refused c
settle lost k = connection_lost
settle out_of_fuel k = did_not_end

abbrev pub is_local : Transport → Bool
is_local local = true
is_local ssh = false

abbrev pub outside : Intent → Category
outside Intent.read = outside_roots
outside Intent.write = outside_write_roots

abbrev pub mint : Driver → Text → Text → Intent → ValidatedPath
mint driver path real_path intent = record {
  host_id = driver.host_id;
  requested_path = path;
  real_path = real_path;
  intent = intent;
}

-- The checks on the real path, once the roots are resolved.
unfoldable pub judge_real_path :
    Host → List Text → Driver → Text → Intent → Text → List ResolvedRoot → Verdict
unfolding within_roots is_denied_locally
judge_real_path host deny driver path intent real_path roots =
    if not (within_roots real_path roots intent)
    then refused (outside intent)
    else if is_local host.transport && is_denied_locally deny real_path
    then refused denylist
    else minted (mint driver path real_path intent)

unfoldable pub validate_on : Host → List Text → Driver → Text → Intent → Verdict
unfolding includes starts_with resolve_on_host resolve_root_rows judge_real_path clean_path
validate_on host deny driver path intent =
    if includes 0 path || not (starts_with root path)
    then refused malformed
    else settle (resolve_on_host driver (clean_path path)) (λ real_path.
      settle (resolve_root_rows driver host.roots host.role)
        (λ roots. judge_real_path host deny driver path intent real_path roots))

-- `find_host` is the query of `loadHost`, by the host and its user.
unfoldable pub validate :
    (Text → Text → Option Host) → List Text → Driver → Text → Text → Intent → Verdict
unfolding validate_on
validate find_host deny driver user path intent = elim (find_host driver.host_id user) [
  | none ↦ no_such_host
  | some host ↦ validate_on host deny driver path intent
]

pub data Message : Type 0 where
  path_refused path_denylisted : Message

-- What `refuse` answers, and whether it writes an activity row; `count` is the counter's value.
unfoldable pub refusal_message : Role → Category → Message
refusal_message Role.owner denylist = path_denylisted
refusal_message _ _ = path_refused

abbrev pub crosses : ℕ → ℕ → Bool
crosses most count = count == most + 1

-- `localDenial`, `hasLocalDenial` and `disclosableDenial`, for the host that was loaded.
unfoldable pub local_denial : Host → List Text → Text → Bool
unfolding is_denied_locally
local_denial host deny real_path = is_local host.transport && is_denied_locally deny real_path

unfoldable pub has_local_denial : Host → List Text → Bool
has_local_denial host [] = false
has_local_denial host (_ ∷ _) = is_local host.transport

abbrev pub is_owner : Role → Bool
is_owner Role.owner = true
is_owner Role.member = false

unfoldable pub disclosable_denial : Host → List Text → Text → Bool
unfolding is_denied_locally
disclosable_denial host deny real_path =
    is_local host.transport && is_owner host.role && is_denied_locally deny real_path
