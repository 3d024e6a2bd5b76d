-- ===== src/PaneState/Targets.antt =====
-- front/src/components/explorer/pane-state.ts: the paths that a pane goes to.
use trekker.Prelude.{
  ℕ, ◌+◌, ◌-◌, min, Bool, not, ◌||◌, Option, none, some, List, [], ◌∷◌, ◌++◌, if◌then◌else◌, ltb,
  ◌==◌, length,
}
use trekker.Text.{Text, codes, text_eq}
use trekker.Listing.{parent_path, join_path}
use trekker.PaneState.{PaneMemory, tab_at, without_tab, closable, is_parent}

-- A path with both stacks.
pub record Target : Type 0 where
  pub path : Text
  pub hist : List Text
  pub fwd : List Text

-- The names at the end that are the path go, and the last one before them is the answer.
unfoldable pub pop_back : Text → List Text → Option (Text × List Text)
unfolding text_eq
pop_back path [] = none
pop_back path (h ∷ hist) = elim (pop_back path hist) [
  | some (last, before) ↦ some (last, h ∷ before)
  | none ↦ if text_eq h path then none else some (h, [])
]

unfoldable pub back_target : PaneMemory → Text → Option Target
unfolding pop_back
back_target pane path = elim (pop_back path pane.hist) [
  | none ↦ none
  | some (last, before) ↦ some (record { path = last; hist = before; fwd = path ∷ pane.fwd })
]

unfoldable pub pop_front : Text → List Text → Option (Text × List Text)
unfolding text_eq
pop_front path [] = none
pop_front path (f ∷ fwd) =
    let later = pop_front path fwd in if text_eq f path then later else some (f, fwd)

unfoldable pub forward_target : PaneMemory → Text → Option Target
unfolding pop_front
forward_target pane path = elim (pop_front path pane.fwd) [
  | none ↦ none
  | some (next, fwd) ↦ some (record { path = next; hist = pane.hist ++ (path ∷ []); fwd = fwd })
]

unfoldable pub close_tab_target : PaneMemory → ℕ → Option Text
unfolding closable without_tab tab_at
close_tab_target pane tab =
    let tabs = without_tab tab pane.tabs in
    if not (closable pane tab) || not (tab == pane.tab)
    then none
    else tab_at (min tab (length tabs - 1)) tabs

unfoldable pub close_other_tabs_target : PaneMemory → ℕ → Option Text
unfolding closable tab_at
close_other_tabs_target pane tab =
    if not (closable pane tab) || tab == pane.tab then none else tab_at tab pane.tabs

abbrev pub can_close_tabs : PaneMemory → Bool
can_close_tabs pane = ltb 1 (length pane.tabs)

unfoldable pub up_target : Text → Option Text
unfolding parent_path text_eq
up_target path = if text_eq path (codes "/") then none else some (parent_path path)

abbrev pub open_target : Text → Text → Text
open_target path name = join_path path name

-- The row of the cursor in the window, where the parent is row 0; none for -1.
unfoldable pub cursor_window_index : Option Text → Option ℕ → Bool → Option ℕ
unfolding text_eq
cursor_window_index none row has_parent = none
cursor_window_index (some current) row has_parent =
    if is_parent current
    then (if has_parent then some 0 else none)
    else elim row [ none ↦ none | some i ↦ some (if has_parent then i + 1 else i) ]
