-- ===== src/PaneState/History.antt =====
-- front/src/components/explorer/pane-state.ts: the way back and the way forward.
use trekker.Prelude.{◌≡◌, refl, ◌∙◌, true, false, none, some, List, [], ◌∷◌, ◌++◌}
use trekker.Text.{Text, text_eq}
use trekker.Text.Laws.{text_eq_comm}
use trekker.PaneState.{PaneMemory, stacks, or_root, tab_at, set_tab, go, pane_reducer}
use trekker.PaneState.Targets.{Target, pop_back, back_target, pop_front, forward_target}

-- The path that the open tab shows.
abbrev pub shown : PaneMemory → Text
shown pane = or_root (tab_at pane.tab pane.tabs)

pop_back-append :
    (path last : Text) (hist : List Text)
    → text_eq last path ≡ false
    → pop_back path (hist ++ (last ∷ [])) ≡ some (last, hist)
unfolding pop_back
pop_back-append path last [] e = rw (e) refl
pop_back-append path last (h ∷ hist) e = rw (pop_back-append path last hist e) refl

-- What the pane does on the way to a target.
abbrev pub take : PaneMemory → Target → PaneMemory
take pane target = pane_reducer pane (stacks target.path target.hist target.fwd)

-- The pane once it shows another path.
abbrev moved : PaneMemory → Text → PaneMemory
moved pane path = record pane {
  tabs = set_tab pane.tab path pane.tabs;
  sel = [];
  cur = none;
  hist = pane.hist ++ (shown pane ∷ []);
  fwd = [];
}

go-moved :
    (pane : PaneMemory) (path : Text)
    → text_eq path (shown pane) ≡ false
    → go pane path true ≡ moved pane path
unfolding go
go-moved pane path new = rw (go, new) refl

back_target-append :
    (pane : PaneMemory) (path last : Text) (hist : List Text)
    → text_eq last path ≡ false
    → pane.hist ≡ hist ++ (last ∷ [])
    → back_target pane path ≡ some (record { path = last; hist = hist; fwd = path ∷ pane.fwd })
unfolding back_target
back_target-append pane path last hist e kept =
    rw (back_target, kept, pop_back-append path last hist e) refl

forward_target-cons :
    (pane : PaneMemory) (path next : Text) (fwd : List Text)
    → text_eq next path ≡ false
    → pane.fwd ≡ next ∷ fwd
    → forward_target pane path
      ≡ some (record { path = next; hist = pane.hist ++ (path ∷ []); fwd = fwd })
unfolding forward_target pop_front
forward_target-cons pane path next fwd e kept = rw (forward_target, kept, pop_front, e) refl

-- After a navigation to another path, kept in the history, the way back leads to the path that was shown,
-- with the history as it was and the way forward to the new path. From there, the way forward leads to the
-- new path again, with the history that the navigation made, and nothing behind it.
pub back_target-go :
    (pane : PaneMemory) (path : Text)
    → text_eq path (shown pane) ≡ false
    → let gone : PaneMemory = go pane path true in
      let back : Target = record { path = shown pane; hist = pane.hist; fwd = path ∷ [] } in
      (back_target gone path ≡ some back)
      × (forward_target (take gone back) (shown pane)
          ≡ some (record { path = path; hist = gone.hist; fwd = [] }))
unfolding pane_reducer
back_target-go pane path new =
    let old : text_eq (shown pane) path ≡ false = text_eq_comm (shown pane) path ∙ new in
    let back : Target = record { path = shown pane; hist = pane.hist; fwd = path ∷ [] } in
    rw (go-moved pane path new) (
      back_target-append (moved pane path) path (shown pane) pane.hist old refl,
      forward_target-cons (take (moved pane path) back) (shown pane) path [] new refl,
    )
