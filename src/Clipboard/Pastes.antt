-- ===== src/Clipboard/Pastes.antt =====
-- front/src/helpers/clipboard.ts: the dimmed names and the pastes agree.
use trekker.Prelude.{
  ◌≡◌, refl, Bool, true, false, ◌&&◌, Option, none, some, List, [], ◌∷◌, if◌then◌else◌,
}
use trekker.Text.{Text, text_eq}
use trekker.Clipboard.{
  Clipboard, PasteDecision, empty, unbound, same_directory, transfer, TransferOperation, is_cut,
  operation_of, paste_names, resolve_paste, cut_on, cut_names_in,
}

abbrev pub is_same : PasteDecision → Bool
is_same empty = false
is_same unbound = false
is_same same_directory = true
is_same (transfer operation clip) = false

-- Some names are dimmed.
abbrev pub is_dimmed : Option (List Text) → Bool
is_dimmed none = false
is_dimmed (some []) = false
is_dimmed (some (n ∷ names)) = true

-- The two tests of a name that is held, whatever the mode and the place.
agree-names :
    (is_taken same_host same_path : Bool) (o : TransferOperation) (clip : Clipboard) (n : Text)
    (names : List Text)
    → is_same (if is_taken && same_host && same_path then same_directory else transfer o clip)
      ≡ is_dimmed
          (if is_taken then (if same_host && same_path then some (n ∷ names) else none) else none)
agree-names true true true o clip n names = refl
agree-names true true false o clip n names = refl
agree-names true false same_path o clip n names = refl
agree-names false same_host same_path o clip n names = refl

agree-nothing :
    (is_taken here : Bool)
    → false ≡ is_dimmed (if is_taken then (if here then some [] else none) else none)
agree-nothing true true = refl
agree-nothing true false = refl
agree-nothing false here = refl

agree-unbound : (is_taken : Bool) → false ≡ is_dimmed (if is_taken then none else none)
agree-unbound true = refl
agree-unbound false = refl

agree :
    (clip : Clipboard) (names : List Text) (host : Option Text) (path : Text)
    → is_same (paste_names clip names (record { host_id = host; path = path }))
      ≡ is_dimmed (if is_cut clip.mode then cut_on clip names host path else none)
agree clip [] none path = agree-unbound (is_cut clip.mode)
agree clip [] (some host) path =
    agree-nothing (is_cut clip.mode) (text_eq clip.host_id host && text_eq clip.directory path)
agree clip (n ∷ names) none path = agree-unbound (is_cut clip.mode)
agree clip (n ∷ names) (some host) path =
    agree-names (is_cut clip.mode) (text_eq clip.host_id host) (text_eq clip.directory path)
      (operation_of clip.mode) clip n names

-- Whatever is held, a paste has nothing to do in a directory just where that directory shows held names as cut.
pub resolve_paste-cut_names_in :
    (clip : Option Clipboard) (host : Option Text) (path : Text)
    → is_same (resolve_paste clip (record { host_id = host; path = path }))
      ≡ is_dimmed (cut_names_in clip host path)
unfolding resolve_paste cut_names_in
resolve_paste-cut_names_in none host path = refl
resolve_paste-cut_names_in (some clip) host path = agree clip clip.names host path
