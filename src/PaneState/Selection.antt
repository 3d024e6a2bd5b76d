-- ===== src/PaneState/Selection.antt =====
-- front/src/components/explorer/pane-state.ts: the parent is never selected.
use trekker.Prelude.{
  ℕ, suc, min, max, ◌≡◌, Bool, true, false, not, Option, none, some, List, [], ◌∷◌, if_either,
  if◌then◌else◌, filter, length, ◌==◌, leb, ◌||◌, Bool-cases, All, All-filter, All-append, inl, inr,
}
use trekker.Text.{Text, text_eq, member}
use trekker.Clipboard.{ClipboardMode}
use trekker.PaneState.{
  PaneMemory, ExplorerState, ExplorerAction, on_pane, left_pane, right_pane, hold, release,
  PaneAction, navigate, stacks, new_tab, select_tab, close_tab, close_other_tabs, click, move,
  select_all, select_none, reveal, cursor, tab_at, closable, or_root, go, close, close_others,
  slice, range_of, ends_of, truthy, toggled, extend_to, pick, click_on, move_by, land, stepped,
  cursor_index, is_parent, pane_reducer, explorer_reducer, take_names, initial_state,
}
use trekker.PaneState.Tabs.{reduce_all}

abbrev pub IsName : Text → Type 0
IsName name = is_parent name ≡ false

-- No name that is selected is the parent's.
abbrev pub AreNames : PaneMemory → Type 0
AreNames pane = All IsName pane.sel

-- The actions that bring their names with them bring no parent.
abbrev pub BringsNames : PaneAction → Type 0
BringsNames (navigate path history) = Unit
BringsNames (stacks path hist fwd) = Unit
BringsNames (new_tab path) = Unit
BringsNames (select_tab tab) = Unit
BringsNames (close_tab tab) = Unit
BringsNames (close_other_tabs tab) = Unit
BringsNames (click name names extend toggle) = Unit
BringsNames (move delta names) = Unit
BringsNames (select_all names) = All IsName names
BringsNames select_none = Unit
BringsNames (reveal name) = IsName name
BringsNames (cursor name) = Unit

abbrev pub OnNames : ExplorerAction → Type 0
OnNames (on_pane pane action) = BringsNames action
OnNames (hold mode host directory names) = Unit
OnNames release = Unit

filter-AreNames : (names : List Text) → All IsName (filter (λ name. not (is_parent name)) names)
filter-AreNames [] = tt
filter-AreNames (n ∷ names) = elim (Bool-cases (is_parent n)) [
  | inl e ↦ rw (e) (filter-AreNames names)
  | inr e ↦ rw (e) (e, filter-AreNames names)
]

go-AreNames :
    (pane : PaneMemory) (path : Text) (push : Bool) → AreNames pane → AreNames (go pane path push)
unfolding go
go-AreNames pane path push h =
    if_either AreNames (text_eq path (or_root (tab_at pane.tab pane.tabs))) (λ _. h) (λ _. tt)

close-AreNames : (pane : PaneMemory) (tab : ℕ) → AreNames pane → AreNames (close pane tab)
unfolding close
close-AreNames pane tab h =
    if_either AreNames (not (closable pane tab)) (λ _. h)
      (λ _. if_either AreNames (tab == pane.tab) (λ _. tt) (λ _. h))

close_others-AreNames :
    (pane : PaneMemory) (tab : ℕ) → AreNames pane → AreNames (close_others pane tab)
unfolding close_others
close_others-AreNames pane tab h =
    if_either AreNames (not (closable pane tab)) (λ _. h)
      (λ _. if_either AreNames (tab == pane.tab) (λ _. h) (λ _. tt))

toggled-AreNames :
    (name : Text) (sel : List Text) → IsName name → All IsName sel → All IsName (toggled name sel)
toggled-AreNames name sel e h =
    if_either (All IsName) (member name sel)
      (λ _. All-filter IsName (λ n. not (text_eq n name)) sel h)
      (λ _. All-append IsName sel (name ∷ []) h (e, tt))

pick-AreNames :
    (pane : PaneMemory) (name : Text) (toggle : Bool)
    → IsName name
    → AreNames pane
    → AreNames (pick pane name toggle)
pick-AreNames pane name true e h = toggled-AreNames name pane.sel e h
pick-AreNames pane name false e h = (e, tt)

click_on-AreNames :
    (pane : PaneMemory) (name : Text) (names : List Text) (extend toggle : Bool)
    → AreNames pane
    → AreNames (click_on pane name names extend toggle)
unfolding click_on range_of
click_on-AreNames pane name names extend toggle h =
    if_either AreNames (is_parent name) (λ _. h)
      (λ e. extended e (if extend then ends_of (truthy pane.cur) name names else none))
  where
    extended :
        IsName name → (ends : Option (ℕ × ℕ)) → AreNames (extend_to pane name names toggle ends)
    extended e none = pick-AreNames pane name toggle e h
    extended e (some (from, to)) = filter-AreNames (slice (min from to) (suc (max from to)) names)

land-AreNames : (pane : PaneMemory) (name : Option Text) → AreNames pane → AreNames (land pane name)
land-AreNames pane none h = h
land-AreNames pane (some name) h = if_either AreNames (is_parent name) (λ _. h) (λ e. (e, tt))

pane_reducer-AreNames :
    (pane : PaneMemory) (action : PaneAction)
    → BringsNames action
    → AreNames pane
    → AreNames (pane_reducer pane action)
unfolding pane_reducer move_by
pane_reducer-AreNames pane (navigate path history) b h = go-AreNames pane path history h
pane_reducer-AreNames pane (stacks path hist fwd) b h = tt
pane_reducer-AreNames pane (new_tab path) b h = tt
pane_reducer-AreNames pane (select_tab tab) b h =
    if_either AreNames (tab == pane.tab || leb (length pane.tabs) tab) (λ _. h) (λ _. tt)
pane_reducer-AreNames pane (close_tab tab) b h = close-AreNames pane tab h
pane_reducer-AreNames pane (close_other_tabs tab) b h = close_others-AreNames pane tab h
pane_reducer-AreNames pane (click name names extend toggle) b h =
    click_on-AreNames pane name names extend toggle h
pane_reducer-AreNames pane (move delta names) b h =
    land-AreNames pane (tab_at (stepped (cursor_index pane.cur names) delta (length names)) names) h
pane_reducer-AreNames pane (select_all []) b h = h
pane_reducer-AreNames pane (select_all (n ∷ names)) b h = b
pane_reducer-AreNames pane select_none b h = tt
pane_reducer-AreNames pane (reveal name) b h = (b, tt)
pane_reducer-AreNames pane (cursor name) b h = h

take_names-AreNames :
    (mode : ClipboardMode) (host directory : Text) (names : List Text) (state : ExplorerState)
    → AreNames state.left × AreNames state.right
    → AreNames (take_names mode host directory names state).left
      × AreNames (take_names mode host directory names state).right
take_names-AreNames mode host directory [] state h = h
take_names-AreNames mode host directory (n ∷ names) state h = h

explorer_reducer-AreNames :
    (state : ExplorerState) (action : ExplorerAction)
    → OnNames action
    → AreNames state.left × AreNames state.right
    → AreNames (explorer_reducer state action).left × AreNames (explorer_reducer state action).right
unfolding explorer_reducer
explorer_reducer-AreNames state (on_pane left_pane action) b h =
    (pane_reducer-AreNames state.left action b h.0, h.1)
explorer_reducer-AreNames state (on_pane right_pane action) b h =
    (h.0, pane_reducer-AreNames state.right action b h.1)
explorer_reducer-AreNames state (hold mode host directory names) b h =
    take_names-AreNames mode host directory names state h
explorer_reducer-AreNames state release b h = h

-- Where no select_all and no reveal names the parent, no actions on a fresh explorer make the parent one of
-- the selected names of a pane, whatever the clicks, ranges and moves.
pub reduce_all-AreNames :
    (path : Text) (actions : List ExplorerAction)
    → All OnNames actions
    → let state : ExplorerState = reduce_all actions (initial_state path) in
      AreNames state.left × AreNames state.right
unfolding reduce_all
reduce_all-AreNames path actions brought = from actions (initial_state path) brought (tt, tt)
  where
    from :
        (actions : List ExplorerAction) (state : ExplorerState)
        → All OnNames actions
        → AreNames state.left × AreNames state.right
        → AreNames (reduce_all actions state).left × AreNames (reduce_all actions state).right
    from [] state b h = h
    from (action ∷ actions) state b h =
        from actions (explorer_reducer state action) b.1
          (explorer_reducer-AreNames state action b.0 h)
