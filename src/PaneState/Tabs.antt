-- ===== src/PaneState/Tabs.antt =====
-- front/src/components/explorer/pane-state.ts: the open tabs.
use trekker.Prelude.{
  ℕ, zero, suc, ◌-◌, min, ◌≤◌, ◌<◌, ◌≡◌, refl, ap, ◌∙◌, inl, inr, Bool, not, ◌||◌, Option, none,
  some, List, [], ◌∷◌, arith, if_either, if◌then◌else◌, ltb, leb, ◌==◌, length, length-append,
  Bool-cases,
}
use trekker.Text.{Text, text_eq}
use trekker.Clipboard.{ClipboardMode}
use trekker.PaneState.{
  PaneMemory, ExplorerState, ExplorerAction, on_pane, left_pane, right_pane, hold, release,
  PaneAction, navigate, stacks, new_tab, select_tab, close_tab, close_other_tabs, click, move,
  select_all, select_none, reveal, cursor, tab_at, set_tab, without_tab, closable, or_root, go,
  tab_after, close, only, close_others, ends_of, truthy, extend_to, click_on, move_by, land,
  stepped, cursor_index, is_parent, pane_reducer, explorer_reducer, take_names, initial_state,
}
use trekker.PaneState.Targets.{close_tab_target}

-- The open tab is one of the tabs.
abbrev pub IsOpen : PaneMemory → Type 0
IsOpen pane = pane.tab < length pane.tabs

abbrev pub AreOpen : ExplorerState → Type 0
AreOpen state = IsOpen state.left × IsOpen state.right

length-set_tab :
    (n : ℕ) (path : Text) (tabs : List Text) → length (set_tab n path tabs) ≡ length tabs
unfolding set_tab
length-set_tab n path [] = omega arith
length-set_tab zero path (t ∷ ts) = omega arith
length-set_tab (suc n) path (t ∷ ts) = omega (arith, length-set_tab n path ts)

length-without_tab :
    (n : ℕ) (tabs : List Text) → n < length tabs → suc (length (without_tab n tabs)) ≡ length tabs
unfolding without_tab
length-without_tab n [] h = omega arith
length-without_tab zero (t ∷ ts) h = omega arith
length-without_tab (suc n) (t ∷ ts) h = omega (arith, length-without_tab n ts (omega arith))

go-IsOpen :
    (pane : PaneMemory) (path : Text) (push : Bool) → IsOpen pane → IsOpen (go pane path push)
unfolding go
go-IsOpen pane path push h =
    if_either IsOpen (text_eq path (or_root (tab_at pane.tab pane.tabs))) (λ _. h)
      (λ _. omega (arith, h, length-set_tab pane.tab path pane.tabs))

close-IsOpen : (pane : PaneMemory) (tab : ℕ) → IsOpen pane → IsOpen (close pane tab)
unfolding close closable
close-IsOpen pane tab h =
    if_either IsOpen (not (closable pane tab)) (λ _. h)
      (λ e.
        let fewer : suc (length (without_tab tab pane.tabs)) ≡ length pane.tabs =
          length-without_tab tab pane.tabs (ground (arith, e)) in
        let inside : tab_after pane.tab tab (length (without_tab tab pane.tabs))
            < length (without_tab tab pane.tabs) =
          ground (arith, e, h, fewer) in
        if_either IsOpen (tab == pane.tab) (λ _. inside) (λ _. inside))

length-only : (tab : ℕ) (tabs : List Text) → tab < length tabs → length (only (tab_at tab tabs)) ≡ 1
unfolding tab_at
length-only tab [] h = omega arith
length-only zero (t ∷ ts) h = omega arith
length-only (suc n) (t ∷ ts) h = length-only n ts (omega arith)

close_others-IsOpen : (pane : PaneMemory) (tab : ℕ) → IsOpen pane → IsOpen (close_others pane tab)
unfolding close_others closable
close_others-IsOpen pane tab h =
    if_either IsOpen (not (closable pane tab)) (λ _. h)
      (λ e.
        let one = length-only tab pane.tabs (ground (arith, e)) in
        if_either IsOpen (tab == pane.tab) (λ _. omega (arith, one)) (λ _. omega (arith, one)))

click_on-tabs :
    (pane : PaneMemory) (name : Text) (names : List Text) (extend toggle : Bool)
    → IsOpen pane
    → IsOpen (click_on pane name names extend toggle)
unfolding click_on
click_on-tabs pane name names extend toggle h =
    if_either IsOpen (is_parent name) (λ _. h)
      (λ _. extended (if extend then ends_of (truthy pane.cur) name names else none))
  where
    extended : (ends : Option (ℕ × ℕ)) → IsOpen (extend_to pane name names toggle ends)
    extended none = h
    extended (some (from, to)) = h

land-IsOpen : (pane : PaneMemory) (name : Option Text) → IsOpen pane → IsOpen (land pane name)
land-IsOpen pane none h = h
land-IsOpen pane (some name) h = if_either IsOpen (is_parent name) (λ _. h) (λ _. h)

pane_reducer-IsOpen :
    (pane : PaneMemory) (action : PaneAction) → IsOpen pane → IsOpen (pane_reducer pane action)
unfolding pane_reducer move_by
pane_reducer-IsOpen pane (navigate path history) h = go-IsOpen pane path history h
pane_reducer-IsOpen pane (stacks path hist fwd) h =
    omega (arith, h, length-set_tab pane.tab path pane.tabs)
pane_reducer-IsOpen pane (new_tab path) h = omega (arith, length-append pane.tabs (path ∷ []))
pane_reducer-IsOpen pane (select_tab tab) h =
    if_either IsOpen (tab == pane.tab || leb (length pane.tabs) tab) (λ _. h)
      (λ e. ground (arith, e))
pane_reducer-IsOpen pane (close_tab tab) h = close-IsOpen pane tab h
pane_reducer-IsOpen pane (close_other_tabs tab) h = close_others-IsOpen pane tab h
pane_reducer-IsOpen pane (click name names extend toggle) h =
    click_on-tabs pane name names extend toggle h
pane_reducer-IsOpen pane (move delta names) h =
    land-IsOpen pane (tab_at (stepped (cursor_index pane.cur names) delta (length names)) names) h
pane_reducer-IsOpen pane (select_all []) h = h
pane_reducer-IsOpen pane (select_all (n ∷ names)) h = h
pane_reducer-IsOpen pane select_none h = h
pane_reducer-IsOpen pane (reveal name) h = h
pane_reducer-IsOpen pane (cursor name) h = h

take_names-AreOpen :
    (mode : ClipboardMode) (host directory : Text) (names : List Text) (state : ExplorerState)
    → AreOpen state
    → AreOpen (take_names mode host directory names state)
take_names-AreOpen mode host directory [] state h = h
take_names-AreOpen mode host directory (n ∷ names) state h = h

pub explorer_reducer-AreOpen :
    (state : ExplorerState) (action : ExplorerAction)
    → AreOpen state
    → AreOpen (explorer_reducer state action)
unfolding explorer_reducer
explorer_reducer-AreOpen state (on_pane left_pane action) h =
    (pane_reducer-IsOpen state.left action h.0, h.1)
explorer_reducer-AreOpen state (on_pane right_pane action) h =
    (h.0, pane_reducer-IsOpen state.right action h.1)
explorer_reducer-AreOpen state (hold mode host directory names) h =
    take_names-AreOpen mode host directory names state h
explorer_reducer-AreOpen state release h = h

-- Actions one after another.
unfoldable pub reduce_all : List ExplorerAction → ExplorerState → ExplorerState
unfolding explorer_reducer
reduce_all [] state = state
reduce_all (action ∷ actions) state = reduce_all actions (explorer_reducer state action)

-- A tab before the one that is closed stays where it is, and one behind it moves up.
tab_at-without_before :
    (n tab : ℕ) (tabs : List Text) → n < tab → tab_at n (without_tab tab tabs) ≡ tab_at n tabs
unfolding tab_at without_tab
tab_at-without_before n tab [] h = refl
tab_at-without_before n zero (t ∷ ts) h = ground arith
tab_at-without_before zero (suc tab) (t ∷ ts) h = refl
tab_at-without_before (suc n) (suc tab) (t ∷ ts) h = tab_at-without_before n tab ts (omega arith)

tab_at-without_behind :
    (n tab : ℕ) (tabs : List Text) → tab ≤ n → tab_at n (without_tab tab tabs) ≡ tab_at (suc n) tabs
unfolding tab_at without_tab
tab_at-without_behind n tab [] h = refl
tab_at-without_behind n zero (t ∷ ts) h = refl
tab_at-without_behind zero (suc tab) (t ∷ ts) h = ground arith
tab_at-without_behind (suc n) (suc tab) (t ∷ ts) h = tab_at-without_behind n tab ts (omega arith)

-- The path of the open tab.
abbrev pub open_path : PaneMemory → Option Text
open_path pane = tab_at pane.tab pane.tabs

abbrev pub or_stay : PaneMemory → Option Text → Option Text
or_stay pane none = open_path pane
or_stay pane (some path) = some path

or_stay-tab_at :
    (pane : PaneMemory) (n : ℕ) (tabs : List Text)
    → n < length tabs
    → tab_at n tabs ≡ or_stay pane (tab_at n tabs)
unfolding tab_at
or_stay-tab_at pane n [] h = absurd (omega (arith, h))
or_stay-tab_at pane zero (t ∷ ts) h = refl
or_stay-tab_at pane (suc n) (t ∷ ts) h = or_stay-tab_at pane n ts (omega arith)

-- The tab that was open is found again where it is once another one is gone.
tab_at-after :
    (tab : ℕ) (pane : PaneMemory)
    → IsOpen pane
    → tab < length pane.tabs
    → ¬ tab ≡ pane.tab
    → tab_at
        (tab_after pane.tab tab (length (without_tab tab pane.tabs)))
        (without_tab tab pane.tabs)
      ≡ open_path pane
tab_at-after tab pane open_ here other =
    let fewer = length-without_tab tab pane.tabs here in
    let left = without_tab tab pane.tabs in
    elim (Bool-cases (ltb tab pane.tab)) [
      | inl e ↦
          let place : tab_after pane.tab tab (length left) ≡ pane.tab - 1 = ground (arith, e) in
          let back : suc (pane.tab - 1) ≡ pane.tab = ground (arith, e) in
          ap (λ n. tab_at n left) place
          ∙ tab_at-without_behind (pane.tab - 1) tab pane.tabs (ground (arith, e))
          ∙ ap (λ n. tab_at n pane.tabs) back
      | inr e ↦
          let place : tab_after pane.tab tab (length left) ≡ pane.tab =
            ground (arith, e, fewer, other) in
          ap (λ n. tab_at n left) place
          ∙ tab_at-without_before pane.tab tab pane.tabs (ground (arith, e, other))
    ]

-- At all times, whatever the actions on a fresh explorer, the open tab of each pane is one of its tabs.
pub reduce_all-AreOpen :
    (path : Text) (actions : List ExplorerAction)
    → AreOpen (reduce_all actions (initial_state path))
unfolding reduce_all
reduce_all-AreOpen path actions = from actions (initial_state path) (omega arith, omega arith)
  where
    from :
        (actions : List ExplorerAction) (state : ExplorerState)
        → AreOpen state
        → AreOpen (reduce_all actions state)
    from [] state h = h
    from (action ∷ actions) state h =
        from actions (explorer_reducer state action) (explorer_reducer-AreOpen state action h)

-- Where the open tab is one of the tabs, the tab that is open once a tab is closed is the one that
-- close_tab_target announces, and is as before where it announces nothing.
pub close-close_tab_target :
    (pane : PaneMemory) (tab : ℕ)
    → IsOpen pane
    → open_path (close pane tab) ≡ or_stay pane (close_tab_target pane tab)
unfolding closable close tab_at close_tab_target
close-close_tab_target pane tab h = elim (Bool-cases (closable pane tab)) [
  | inr e ↦ rw (close, close_tab_target, e) refl
  | inl e ↦
      let here : tab < length pane.tabs = ground (arith, e) in
      let fewer = length-without_tab tab pane.tabs here in
      let left = without_tab tab pane.tabs in
      elim (Bool-cases (tab == pane.tab)) [
        | inl same ↦
            let place : tab_after pane.tab tab (length left) ≡ min tab (length left - 1) =
              ground (arith, same) in
            rw (close, close_tab_target, e, same)
              (ap (λ n. tab_at n left) place
                ∙ or_stay-tab_at pane (min tab (length left - 1)) left (ground (arith, e)))
        | inr other ↦
            let apart : ¬ tab ≡ pane.tab = λ is. ground (arith, is, other) in
            rw (close, close_tab_target, e, other) (tab_at-after tab pane h here apart)
      ]
]
