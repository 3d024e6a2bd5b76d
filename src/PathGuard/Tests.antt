-- ===== src/PathGuard/Tests.antt =====
-- Runs of the path guard, on a host with a link and a directory.
use trekker.Prelude.{◌≢◌, ◌≡◌, refl, List, [], ◌∷◌, if◌then◌else◌}
use trekker.Text.{Text, codes, text_eq}
use trekker.PathGuard.{
  root, Intent, Access, Role, local, outside_write_roots, dot_segment_in_new_path, denylist,
  ValidatedPath, Host, Driver, Reply, answered, failed, value, out_of_fuel, clean_path,
  resolve_on_host, minted, refused, mint, validate_on,
}
use trekker.PathGuard.Paths.{segments}
use trekker.PathGuard.Resolution.{Nearest, resolve_on_host-Nearest, resolve_on_host_ends}
use trekker.PathGuard.Confinement.{IsConfined, validate_on-IsConfined}

-- `/link` points to `/srv/app`; only `/`, `/srv/app` and `/srv/keys` are there besides.
abbrev real_path_of : Text → Reply Text
real_path_of p =
    if text_eq p (codes "/link")
    then answered (codes "/srv/app")
    else if text_eq p (codes "/srv/app")
    then answered p
    else if text_eq p (codes "/srv/keys")
    then answered p
    else if text_eq p root
    then answered p
    else failed

abbrev box : Driver
box = record { host_id = codes "h1"; realpath = real_path_of; stat = λ p. answered tt }

abbrev shared : Host
shared = record {
  transport = local;
  roots =
      record { path = codes "/link/"; access = Access.write }
      ∷ record { path = codes "/srv/keys"; access = Access.read }
      ∷ [];
  role = Role.member;
}

abbrev keys : List Text
keys = codes "/srv/keys" ∷ []

new_file : ValidatedPath
new_file = mint box (codes "//link/a/b") (codes "/srv/app/a/b") Intent.write

validate_new : validate_on shared keys box (codes "//link/a/b") Intent.write ≡ minted new_file
unfolding validate_on new_file
validate_new = refl

validate_refusals :
    (validate_on shared keys box (codes "/srv/keys/x") Intent.write ≡ refused outside_write_roots)
    × (validate_on shared keys box (codes "/srv/keys") Intent.read ≡ refused denylist)
    × (validate_on shared keys box (codes "/link/a/../x") Intent.read
        ≡ refused dot_segment_in_new_path)
unfolding validate_on
validate_refusals = (refl, refl, refl)

validate_on-IsConfined_example :
    IsConfined shared keys box (codes "//link/a/b") Intent.write new_file
validate_on-IsConfined_example =
    validate_on-IsConfined shared keys box (codes "//link/a/b") Intent.write new_file validate_new

resolve_link : resolve_on_host box (clean_path (codes "/link/a")) ≡ value (codes "/srv/app/a")
unfolding resolve_on_host clean_path text_eq
resolve_link = refl

resolve_on_host-Nearest_example : Nearest box (segments (codes "/link/a")) [] (codes "/srv/app/a")
resolve_on_host-Nearest_example =
    resolve_on_host-Nearest box (codes "/link/a") (codes "/srv/app/a") resolve_link

resolve_on_host_ends_example : resolve_on_host box (clean_path (codes "/a/b")) ≢ out_of_fuel
resolve_on_host_ends_example = resolve_on_host_ends box (codes "/a/b")
