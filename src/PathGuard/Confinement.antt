-- ===== src/PathGuard/Confinement.antt =====
-- What a minted path guarantees: where it lies, which root grants it, and what stays closed.
use trekker.Prelude.{
  ◌≡◌, refl, ap, inl, inr, Bool, true, false, not, ◌&&◌, ◌||◌, Option, none, some, List, [], ◌∷◌,
  arith, All, Some, Some-any, All-any, subst, Bool-cases, or_false, and_true, if◌then◌else◌,
}
use trekker.Text.{Text, includes, starts_with}
use trekker.PathGuard.{
  root, Intent, Access, Role, Transport, local, ssh, denylist, ValidatedPath, RootRow, ResolvedRoot,
  Host, Driver, Attempt, value, refusal, lost, out_of_fuel, ◌>>=◌, contains, grants, within_roots,
  unrestricted_roots, clean_path, try_resolve_existing, resolve_on_host, resolved_row, resolve_rows,
  resolve_root_rows, is_denied_locally, Verdict, minted, refused, settle, is_local, outside, mint,
  judge_real_path, validate_on,
}

settle-eq-minted :
    {A : Type 0} (t : Attempt A) (k : A → Verdict) {v : ValidatedPath}
    → settle t k ≡ minted v
    → (a : A) × (t ≡ value a) × (k a ≡ minted v)
settle-eq-minted (value a) k e = (a, refl, e)
settle-eq-minted (refusal c) k e = cc
settle-eq-minted lost k e = cc
settle-eq-minted out_of_fuel k e = cc

bind-eq-value :
    {A B : Type 0} (t : Attempt A) (k : A → Attempt B) {b : B}
    → (t >>= k) ≡ value b
    → (a : A) × (t ≡ value a) × (k a ≡ value b)
bind-eq-value (value a) k e = (a, refl, e)
bind-eq-value (refusal c) k e = cc
bind-eq-value lost k e = cc
bind-eq-value out_of_fuel k e = cc

-- The facts that the checks of `validate` establish, one after the other.
pub record Checked (host : Host) (deny : List Text) (d : Driver) (path : Text) (intent : Intent)
    (v : ValidatedPath) : Type 0 where
  pub roots : List ResolvedRoot
  pub real : Text
  pub well_formed : (includes 0 path || not (starts_with root path)) ≡ false
  pub resolved : resolve_on_host d (clean_path path) ≡ value real
  pub rooted : resolve_root_rows d host.roots host.role ≡ value roots
  pub within : within_roots real roots intent ≡ true
  pub open_to : (is_local host.transport && is_denied_locally deny real) ≡ false
  pub minted_as : mint d path real intent ≡ v

judge-minted :
    (host : Host) (deny : List Text) (d : Driver) (path : Text) (intent : Intent) (real : Text)
    (roots : List ResolvedRoot) {v : ValidatedPath}
    → judge_real_path host deny d path intent real roots ≡ minted v
    → (within_roots real roots intent ≡ true)
      × ((is_local host.transport && is_denied_locally deny real) ≡ false)
      × (mint d path real intent ≡ v)
unfolding judge_real_path
judge-minted host deny d path intent real roots e =
    last_checks (within_roots real roots intent)
      (is_local host.transport && is_denied_locally deny real) e
  where
    last_checks :
        (within denied : Bool) {v : ValidatedPath}
        → (if not within
            then refused (outside intent)
            else if denied
            then refused denylist
            else minted (mint d path real intent))
          ≡ minted v
        → (within ≡ true) × (denied ≡ false) × (mint d path real intent ≡ v)
    last_checks true true e = cc
    last_checks true false e = (refl, refl, ground (arith, e))
    last_checks false _ e = cc

pub validate_on-Checked :
    (host : Host) (deny : List Text) (d : Driver) (path : Text) (intent : Intent)
    (v : ValidatedPath)
    → validate_on host deny d path intent ≡ minted v
    → Checked host deny d path intent v
unfolding validate_on
validate_on-Checked host deny d path intent v h =
    elim (Bool-cases (includes 0 path || not (starts_with root path))) [
      | inl bad ↦ absurd (cc (rw bad at h))
      | inr good ↦
          let (real, er, h1) =
            settle-eq-minted (resolve_on_host d (clean_path path)) _ (rw good at h) in
          let (roots, es, h2) = settle-eq-minted (resolve_root_rows d host.roots host.role) _ h1 in
          let (w, o, m) = judge-minted host deny d path intent real roots h2 in
          record {
            roots = roots;
            real = real;
            well_formed = good;
            resolved = er;
            rooted = es;
            within = w;
            open_to = o;
            minted_as = m;
          }
    ]

-- A configured root grants the path: it is on the host, it contains the path, and a write needs a
-- root that may be written to.
pub record Covers (d : Driver) (intent : Intent) (real : Text) (row : RootRow) : Type 0 where
  pub real_root : Text
  pub on_host : try_resolve_existing d (clean_path row.path) ≡ value (some real_root)
  pub above : contains real_root real ≡ true
  pub writable : intent ≡ Intent.write → row.access ≡ Access.write

grants-write : (a : Access) (i : Intent) → grants i a ≡ true → i ≡ Intent.write → a ≡ Access.write
grants-write Access.read Intent.read h e = cc
grants-write Access.read Intent.write h e = cc
grants-write Access.write i h e = refl

abbrev Admits : Intent → Text → ResolvedRoot → Type 0
Admits intent real r = (grants intent r.access && contains r.real_path real) ≡ true

Covers-resolved_row :
    (d : Driver) (intent : Intent) (real : Text) (row : RootRow) (rows : List RootRow)
    (found : Option Text) (rest : List ResolvedRoot)
    → try_resolve_existing d (clean_path row.path) ≡ value found
    → (Some (Admits intent real) rest → Some (Covers d intent real) rows)
    → Some (Admits intent real) (resolved_row row found rest)
    → Some (Covers d intent real) (row ∷ rows)
Covers-resolved_row d intent real row rows none rest e ih h = inr (ih h)
Covers-resolved_row d intent real row rows (some r) rest e ih (inr h) = inr (ih h)
Covers-resolved_row d intent real row rows (some r) rest e ih (inl h) =
    let (g, c) = and_true (grants intent row.access) (contains r real) h in
    inl (record {
      real_root = r;
      on_host = e;
      above = c;
      writable = grants-write row.access intent g;
    })

Covers-resolve_rows :
    (d : Driver) (intent : Intent) (real : Text) (rows : List RootRow) (roots : List ResolvedRoot)
    → resolve_rows d rows ≡ value roots
    → Some (Admits intent real) roots
    → Some (Covers d intent real) rows
unfolding resolve_rows
Covers-resolve_rows d intent real [] roots e h =
    let none_left : roots ≡ [] = ground arith in subst (Some (Admits intent real)) none_left h
Covers-resolve_rows d intent real (row ∷ rows) roots e h =
    let (found, ef, e1) = bind-eq-value (try_resolve_existing d (clean_path row.path)) _ e in
    let (rest, er, e2) = bind-eq-value (resolve_rows d rows) _ e1 in
    let same : roots ≡ resolved_row row found rest = ground (arith, e2) in
    Covers-resolved_row d intent real row rows found rest ef
      (Covers-resolve_rows d intent real rows rest er) (subst (Some (Admits intent real)) same h)

-- A member needs a root of their own; an owner may go anywhere on the file system.
abbrev pub IsGranted : Host → Driver → Intent → Text → Role → Type 0
IsGranted host d intent real Role.owner = contains root real ≡ true
IsGranted host d intent real Role.member = Some (Covers d intent real) host.roots

-- The one root of an owner is that of the file system, and may be written to.
anywhere :
    (intent : Intent) (real : Text)
    → within_roots real unrestricted_roots intent ≡ true
    → contains root real ≡ true
unfolding within_roots
anywhere Intent.read real e = ground (arith, e)
anywhere Intent.write real e = ground (arith, e)

IsGranted-resolve_root_rows :
    (host : Host) (d : Driver) (intent : Intent) (real : Text) (role : Role)
    (roots : List ResolvedRoot)
    → resolve_root_rows d host.roots role ≡ value roots
    → within_roots real roots intent ≡ true
    → IsGranted host d intent real role
unfolding resolve_root_rows within_roots
IsGranted-resolve_root_rows host d intent real Role.owner roots e w =
    let all_of_it : roots ≡ unrestricted_roots = ground (arith, e) in
    let within : within_roots real unrestricted_roots intent ≡ true =
      subst (λ rs. within_roots real rs intent ≡ true) all_of_it w in
    anywhere intent real within
IsGranted-resolve_root_rows host d intent real Role.member roots e w =
    Covers-resolve_rows d intent real host.roots roots e (Some-any _ roots w)

stays_closed :
    (t : Transport) (deny : List Text) (real : Text)
    → (is_local t && is_denied_locally deny real) ≡ false
    → t ≡ local
    → All (λ entry. contains entry real ≡ false) deny
unfolding is_denied_locally
stays_closed local deny real h e = All-any _ deny h
stays_closed ssh deny real h e = cc

-- What a minted path guarantees.
pub record IsConfined (host : Host) (deny : List Text) (d : Driver) (path : Text) (intent : Intent)
    (v : ValidatedPath) : Type 0 where
  pub absolute : starts_with root path ≡ true
  pub no_nul : includes 0 path ≡ false
  pub resolved : resolve_on_host d (clean_path path) ≡ value v.real_path
  pub granted : IsGranted host d intent v.real_path host.role
  pub closed : host.transport ≡ local → All (λ entry. contains entry v.real_path ≡ false) deny
  pub minted_as : mint d path v.real_path intent ≡ v

-- A path is minted only if it is absolute and holds no NUL, and its real path is what the host resolves
-- it to. For a member, the real path lies under a root configured for that member, one that may be
-- written to where the intent is to write; for an owner, configured roots do not bind, and it lies
-- anywhere under the root of the file system. On the local host no entry of the denylist contains it,
-- whatever the role.
pub validate_on-IsConfined :
    (host : Host) (deny : List Text) (d : Driver) (path : Text) (intent : Intent)
    (v : ValidatedPath)
    → validate_on host deny d path intent ≡ minted v
    → IsConfined host deny d path intent v
validate_on-IsConfined host deny d path intent v h =
    let c = validate_on-Checked host deny d path intent v h in
    let (no_nul, is_abs) = or_false (includes 0 path) (not (starts_with root path)) c.well_formed in
    let same : c.real ≡ v.real_path = ap (λ (x : ValidatedPath). x.real_path) c.minted_as in
    record {
      absolute = ground (arith, is_abs);
      no_nul = no_nul;
      resolved = rw (← same) c.resolved;
      granted =
          subst (λ r. IsGranted host d intent r host.role) same
            (IsGranted-resolve_root_rows host d intent c.real host.role c.roots c.rooted c.within);
      closed =
          subst (λ r. host.transport ≡ local → All (λ entry. contains entry r ≡ false) deny) same
            (stays_closed host.transport deny c.real c.open_to);
      minted_as = subst (λ r. mint d path r intent ≡ v) same c.minted_as;
    }
