-- ===== src/PaneState.antt =====
-- front/src/components/explorer/pane-state.ts, with the paths of front/src/helpers/listing.ts: what the two
-- panes of the explorer remember. The path, which the address bar owns, is an argument. Indices of tabs
-- are natural numbers.
pub mod Targets
pub mod Tabs
pub mod Selection
pub mod History
mod Tests
use trekker.Prelude.{
  ℕ, zero, suc, ◌+◌, ◌-◌, min, max, Bool, true, false, not, ◌&&◌, ◌||◌, Option, none, some, List,
  [], ◌∷◌, ◌++◌, if◌then◌else◌, ltb, leb, ◌==◌, length, filter,
}
use trekker.Clipboard.{Clipboard, ClipboardMode}
use trekker.Text.{Text, codes, text_eq, member, split, join, non_empty}

pub record PaneMemory : Type 0 where
  pub tabs : List Text
  pub tab : ℕ
  pub hist : List Text
  pub fwd : List Text
  pub sel : List Text
  pub cur : Option Text

abbrev pub parent_name : Text
parent_name = codes ".."

pub record ExplorerState : Type 0 where
  pub left : PaneMemory
  pub right : PaneMemory
  pub clip : Option Clipboard

pub data PaneIndex : Type 0 where
  left_pane right_pane : PaneIndex

abbrev pub new_pane : Text → PaneMemory
new_pane path = record { tabs = path ∷ []; tab = 0; hist = []; fwd = []; sel = []; cur = none }

abbrev pub initial_state : Text → ExplorerState
initial_state path = record { left = new_pane path; right = new_pane path; clip = none }

-- How far the cursor moves.
pub data Delta : Type 0 where
  up down : ℕ → Delta

-- The actions of a pane, with `history` of a navigation as it is after its default.
pub data PaneAction : Type 0 where
  navigate : Text → Bool → PaneAction
  stacks : Text → List Text → List Text → PaneAction
  new_tab : Text → PaneAction
  select_tab close_tab close_other_tabs : ℕ → PaneAction
  click : Text → List Text → Bool → Bool → PaneAction
  move : Delta → List Text → PaneAction
  select_all : List Text → PaneAction
  select_none : PaneAction
  reveal : Text → PaneAction
  cursor : Option Text → PaneAction

pub data ExplorerAction : Type 0 where
  on_pane : PaneIndex → PaneAction → ExplorerAction
  hold : ClipboardMode → Text → Text → List Text → ExplorerAction
  release : ExplorerAction

unfoldable pub tab_at : ℕ → List Text → Option Text
tab_at n [] = none
tab_at zero (t ∷ ts) = some t
tab_at (suc n) (t ∷ ts) = tab_at n ts

-- `tabs[n] = path`, for an index of the list.
unfoldable pub set_tab : ℕ → Text → List Text → List Text
set_tab n path [] = []
set_tab zero path (t ∷ ts) = path ∷ ts
set_tab (suc n) path (t ∷ ts) = t ∷ set_tab n path ts

-- All tabs but the one of the index.
unfoldable pub without_tab : ℕ → List Text → List Text
without_tab n [] = []
without_tab zero (t ∷ ts) = ts
without_tab (suc n) (t ∷ ts) = t ∷ without_tab n ts

unfoldable pub closable : PaneMemory → ℕ → Bool
closable pane tab = ltb 1 (length pane.tabs) && ltb tab (length pane.tabs)

abbrev pub or_root : Option Text → Text
or_root none = codes "/"
or_root (some path) = path

unfoldable pub go : PaneMemory → Text → Bool → PaneMemory
unfolding tab_at set_tab text_eq
go pane path push_history =
    let current = or_root (tab_at pane.tab pane.tabs) in
    if text_eq path current then pane else record pane {
      tabs = set_tab pane.tab path pane.tabs;
      sel = [];
      cur = none;
      hist = if push_history then pane.hist ++ (current ∷ []) else pane.hist;
      fwd = if push_history then [] else pane.fwd;
    }

-- Where the open tab is once one has been closed.
abbrev pub tab_after : ℕ → ℕ → ℕ → ℕ
tab_after open_tab closed left =
    if ltb closed open_tab then open_tab - 1 else min open_tab (left - 1)

unfoldable pub close : PaneMemory → ℕ → PaneMemory
unfolding closable without_tab
close pane tab =
    let tabs = without_tab tab pane.tabs in
    let after = tab_after pane.tab tab (length tabs) in
    if not (closable pane tab)
    then pane
    else if tab == pane.tab
    then record pane { tabs = tabs; tab = after; sel = []; cur = none }
    else record pane { tabs = tabs; tab = after }

abbrev pub only : Option Text → List Text
only none = []
only (some path) = path ∷ []

unfoldable pub close_others : PaneMemory → ℕ → PaneMemory
unfolding closable tab_at
close_others pane tab =
    let tabs = only (tab_at tab pane.tabs) in
    if not (closable pane tab)
    then pane
    else if tab == pane.tab
    then record pane { tabs = tabs; tab = 0 }
    else record pane { tabs = tabs; tab = 0; sel = []; cur = none }

unfoldable pub index_of : Text → List Text → Option ℕ
unfolding text_eq
index_of name [] = none
index_of name (n ∷ ns) =
    let later = index_of name ns in
    if text_eq n name then some 0 else elim later [ none ↦ none | some i ↦ some (suc i) ]

-- `slice(from, to)`
unfoldable pub slice : ℕ → ℕ → List Text → List Text
slice from to [] = []
slice from zero (x ∷ xs) = []
slice zero (suc to) (x ∷ xs) = x ∷ slice zero to xs
slice (suc from) (suc to) (x ∷ xs) = slice from to xs

abbrev pub is_parent : Text → Bool
is_parent name = text_eq name parent_name

-- The names from the cursor to the one that was clicked, without the parent.
unfoldable pub range_of : ℕ → ℕ → List Text → List Text
unfolding slice text_eq
range_of from to names =
    filter (λ name. not (is_parent name)) (slice (min from to) (suc (max from to)) names)

-- Where a range can be taken: from the cursor to the name.
abbrev pub ends_of : Option Text → Text → List Text → Option (ℕ × ℕ)
ends_of none name names = none
ends_of (some current) name names = elim (index_of current names) [
  | none ↦ none
  | some from ↦ elim (index_of name names) [ none ↦ none | some to ↦ some (from, to) ]
]

abbrev pub toggled : Text → List Text → List Text
toggled name sel =
    if member name sel then filter (λ n. not (text_eq n name)) sel else sel ++ (name ∷ [])

-- A click that extends nothing.
abbrev pub pick : PaneMemory → Text → Bool → PaneMemory
pick pane name toggle = record pane {
  sel = if toggle then toggled name pane.sel else name ∷ [];
  cur = some name;
}

abbrev pub extend_to : PaneMemory → Text → List Text → Bool → Option (ℕ × ℕ) → PaneMemory
extend_to pane name names toggle none = pick pane name toggle
extend_to pane name names toggle (some (from, to)) = record pane {
  sel = range_of from to names;
  cur = some name;
}

-- An empty name of the cursor is as none.
abbrev pub truthy : Option Text → Option Text
truthy none = none
truthy (some []) = none
truthy (some (c ∷ s)) = some (c ∷ s)

unfoldable pub click_on : PaneMemory → Text → List Text → Bool → Bool → PaneMemory
unfolding text_eq member index_of range_of
click_on pane name names extend toggle =
    if is_parent name
    then record pane { cur = some name }
    else extend_to pane name names toggle
        (if extend then ends_of (truthy pane.cur) name names else none)

-- The index that a move comes to, between the first name and the last.
abbrev pub stepped : Option ℕ → Delta → ℕ → ℕ
stepped none delta count = 0
stepped (some i) (up n) count = min (count - 1) (i - n)
stepped (some i) (down n) count = min (count - 1) (i + n)

abbrev pub cursor_index : Option Text → List Text → Option ℕ
cursor_index none names = none
cursor_index (some current) names = index_of current names

abbrev pub land : PaneMemory → Option Text → PaneMemory
land pane none = pane
land pane (some name) =
    if is_parent name
    then record pane { cur = some name }
    else record pane { cur = some name; sel = name ∷ [] }

unfoldable pub move_by : PaneMemory → Delta → List Text → PaneMemory
unfolding index_of tab_at text_eq
move_by pane delta names =
    land pane (tab_at (stepped (cursor_index pane.cur names) delta (length names)) names)

abbrev pub or_first : Option Text → Text → Option Text
or_first none first = some first
or_first (some current) first = some current

unfoldable pub pane_reducer : PaneMemory → PaneAction → PaneMemory
unfolding go close close_others set_tab click_on move_by
pane_reducer pane (navigate path history) = go pane path history
pane_reducer pane (stacks path hist fwd) = record pane {
  tabs = set_tab pane.tab path pane.tabs;
  hist = hist;
  fwd = fwd;
  sel = [];
  cur = none;
}
pane_reducer pane (new_tab path) = record pane {
  tabs = pane.tabs ++ (path ∷ []);
  tab = length pane.tabs;
  sel = [];
  cur = none;
}
pane_reducer pane (select_tab tab) =
    if tab == pane.tab || leb (length pane.tabs) tab
    then pane
    else record pane { tab = tab; sel = []; cur = none }
pane_reducer pane (close_tab tab) = close pane tab
pane_reducer pane (close_other_tabs tab) = close_others pane tab
pane_reducer pane (click name names extend toggle) = click_on pane name names extend toggle
pane_reducer pane (move delta names) = move_by pane delta names
pane_reducer pane (select_all []) = pane
pane_reducer pane (select_all (n ∷ names)) = record pane {
  sel = n ∷ names;
  cur = or_first pane.cur n;
}
pane_reducer pane select_none = record pane { sel = []; cur = none }
pane_reducer pane (reveal name) = record pane { sel = name ∷ []; cur = some name }
pane_reducer pane (cursor name) = record pane { cur = name }

abbrev pub take_names : ClipboardMode → Text → Text → List Text → ExplorerState → ExplorerState
take_names mode host directory [] state = state
take_names mode host directory (n ∷ names) state = record state {
  clip = some (record { mode = mode; host_id = host; directory = directory; names = n ∷ names });
}

unfoldable pub explorer_reducer : ExplorerState → ExplorerAction → ExplorerState
unfolding pane_reducer
explorer_reducer state (on_pane left_pane action) = record state {
  left = pane_reducer state.left action;
}
explorer_reducer state (on_pane right_pane action) = record state {
  right = pane_reducer state.right action;
}
explorer_reducer state (hold mode host directory names) = take_names mode host directory names state
explorer_reducer state release = record state { clip = none }
