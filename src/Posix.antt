-- ===== src/Posix.antt =====
-- `posix.join`, `posix.normalize` and `posix.dirname` of node:path.
use trekker.Prelude.{Option, none, some, Bool, false, List, [], ◌∷◌, ◌++◌, if◌then◌else◌, ◌==◌}
use trekker.Text.{
  Text, codes, text_eq, is_empty, split, join, non_empty, starts_with, trim_end, cut_last,
}

abbrev pub separator : Text
separator = 47 ∷ []

unfoldable pub ends_with_slash : Text → Bool
ends_with_slash [] = false
ends_with_slash (c ∷ []) = c == 47
ends_with_slash (c ∷ d ∷ s) = ends_with_slash (d ∷ s)

-- What `..` does to the segments so far, the last one first.
unfoldable pub go_up : Bool → List Text → List Text
unfolding text_eq
go_up absolute [] = if absolute then [] else codes ".." ∷ []
go_up absolute (s ∷ above) = if text_eq s (codes "..") then codes ".." ∷ s ∷ above else above

unfoldable pub resolve_dots : Bool → List Text → List Text → List Text
unfolding text_eq go_up
resolve_dots absolute above [] = above
resolve_dots absolute above (s ∷ segments) =
    resolve_dots absolute
      (if text_eq s (codes ".")
        then above
        else if text_eq s (codes "..")
        then go_up absolute above
        else s ∷ above)
      segments

unfoldable pub in_order : List Text → List Text → List Text
in_order [] done = done
in_order (s ∷ above) done = in_order above (s ∷ done)

unfoldable pub normalize : Text → Text
unfolding resolve_dots in_order split join ends_with_slash starts_with
normalize path =
    let absolute = starts_with separator path in
    let body =
      join separator (in_order (resolve_dots absolute [] (non_empty (split 47 path))) []) in
    let tail = if ends_with_slash path then separator else [] in
    if absolute
    then (if is_empty body then separator else separator ++ (body ++ tail))
    else (if is_empty body then codes "." ++ tail else body ++ tail)

unfoldable pub posix_join : Text → Text → Text
unfolding normalize join
posix_join a b = normalize (join separator (non_empty (a ∷ b ∷ [])))

abbrev pub directory_of : Text → Option (Text × Text) → Text
directory_of path none = if starts_with separator path then separator else codes "."
directory_of path (some ([], from)) = separator
directory_of path (some (c ∷ [], from)) = if c == 47 then separator ++ separator else c ∷ []
directory_of path (some (c ∷ d ∷ before, from)) = c ∷ d ∷ before

unfoldable pub dirname : Text → Text
unfolding trim_end cut_last starts_with
dirname path = directory_of path (cut_last 47 (trim_end 47 path))
