-- ===== src/PaneState/Tests.antt =====
-- front/src/components/explorer/pane-state.ts: runs of the panes.
use trekker.Prelude.{◌≡◌, refl, true, false, none, some, List, [], ◌∷◌, arith}
use trekker.Text.{Text, codes, text_eq}
use trekker.PaneState.{
  PaneMemory, ExplorerAction, on_pane, left_pane, right_pane, new_tab, close_tab, click, reveal,
  cursor, go, close, tab_at, parent_name, initial_state,
}
use trekker.PaneState.Targets.{
  Target, back_target, forward_target, close_tab_target, up_target, cursor_window_index,
}
use trekker.PaneState.Tabs.{open_path, or_stay, reduce_all, close-close_tab_target}
use trekker.PaneState.History.{take, back_target-go}
use trekker.PaneState.Selection.{AreNames, reduce_all-AreNames}

abbrev three_tabs : PaneMemory
three_tabs = record {
  tabs = codes "/a" ∷ codes "/b" ∷ codes "/c" ∷ [];
  tab = 1;
  hist = codes "/x" ∷ [];
  fwd = codes "/y" ∷ [];
  sel = codes "n" ∷ [];
  cur = some (codes "n");
}

close-close_tab_target_example :
    open_path (close three_tabs 1) ≡ or_stay three_tabs (close_tab_target three_tabs 1)
close-close_tab_target_example = close-close_tab_target three_tabs 1 (omega arith)

back_target-go_example :
    let gone : PaneMemory = go three_tabs (codes "/d") true in
    let back : Target = record {
      path = codes "/b";
      hist = codes "/x" ∷ [];
      fwd = codes "/d" ∷ [];
    } in
    (back_target gone (codes "/d") ≡ some back)
    × (forward_target (take gone back) (codes "/b")
        ≡ some (record { path = codes "/d"; hist = gone.hist; fwd = [] }))
unfolding text_eq tab_at
back_target-go_example = back_target-go three_tabs (codes "/d") refl

abbrev listed : List Text
listed = parent_name ∷ codes "a" ∷ codes "b" ∷ []

abbrev some_actions : List ExplorerAction
some_actions =
    on_pane left_pane (cursor (some parent_name))
    ∷ on_pane left_pane (click (codes "b") listed true false)
    ∷ on_pane right_pane (new_tab (codes "/d"))
    ∷ on_pane right_pane (close_tab 0)
    ∷ on_pane right_pane (reveal (codes "a"))
    ∷ []

reduce_all-AreNames_example :
    AreNames (reduce_all some_actions (initial_state (codes "/a"))).left
    × AreNames (reduce_all some_actions (initial_state (codes "/a"))).right
unfolding text_eq
reduce_all-AreNames_example =
    reduce_all-AreNames (codes "/a") some_actions (tt, (tt, (tt, (tt, (refl, tt)))))

some_actions_run :
    (reduce_all some_actions (initial_state (codes "/a"))).left.sel ≡ codes "a" ∷ codes "b" ∷ []
unfolding reduce_all
some_actions_run = refl

up_target_root : (up_target (codes "/") ≡ none) × (up_target (codes "/a/b") ≡ some (codes "/a"))
unfolding up_target
up_target_root = (refl, refl)

-- The row of the parent counts when it is there.
cursor_window_index_rows :
    (cursor_window_index (some parent_name) none true ≡ some 0)
    × (cursor_window_index (some (codes "a")) (some 2) true ≡ some 3)
    × (cursor_window_index (some (codes "a")) none true ≡ none)
unfolding cursor_window_index
cursor_window_index_rows = (refl, refl, refl)
