-- ===== src/Listing/Tests.antt =====
-- front/src/helpers/listing.ts: paths of the explorer.
use trekker.Prelude.{◌≡◌, refl, []}
use trekker.Text.{codes}
use trekker.Listing.{resolve_target, parent_path, join_path, breadcrumbs}
use trekker.Listing.Crumbs.{IsTrail, end_of, labels, breadcrumbs-IsTrail}
use trekker.PathGuard.{clean_path}

resolve_target_relative :
    resolve_target (codes "/srv/app/") (codes "../releases/./9") ≡ codes "/srv/releases/9"
unfolding resolve_target
resolve_target_relative = refl

-- The way up stops at the root.
resolve_target_root : resolve_target (codes "/srv") (codes "/../../etc") ≡ codes "/etc"
unfolding resolve_target
resolve_target_root = refl

parent_path_twice : parent_path (parent_path (join_path (codes "/") (codes "a"))) ≡ codes "/"
unfolding parent_path join_path
parent_path_twice = refl

breadcrumbs-IsTrail_example :
    IsTrail (codes "/") (breadcrumbs (codes "/var//log/"))
    × (end_of [] (breadcrumbs (codes "/var//log/")) ≡ clean_path (codes "/var//log/"))
    × (labels (breadcrumbs (codes "/var//log/")) ≡ clean_path (codes "/var//log/"))
breadcrumbs-IsTrail_example = breadcrumbs-IsTrail (codes "/var//log/")
