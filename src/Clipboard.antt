-- ===== src/Clipboard.antt =====
-- front/src/helpers/clipboard.ts: what a paste means.
pub mod Pastes
mod Tests
use trekker.Prelude.{Bool, true, false, ◌&&◌, Option, none, some, List, [], ◌∷◌, if◌then◌else◌}
use trekker.Text.{Text, text_eq, member}

pub data ClipboardMode : Type 0 where
  cut copy : ClipboardMode

pub record Clipboard : Type 0 where
  pub mode : ClipboardMode
  pub host_id : Text
  pub directory : Text
  pub names : List Text

pub record PasteDestination : Type 0 where
  pub host_id : Option Text
  pub path : Text

pub data TransferOperation : Type 0 where
  copying moving : TransferOperation

pub data PasteDecision : Type 0 where
  empty unbound same_directory : PasteDecision
  transfer : TransferOperation → Clipboard → PasteDecision

abbrev pub is_cut : ClipboardMode → Bool
is_cut cut = true
is_cut copy = false

abbrev pub operation_of : ClipboardMode → TransferOperation
operation_of cut = moving
operation_of copy = copying

-- A paste of names to a host.
abbrev pub paste_to : Clipboard → Option Text → Text → PasteDecision
paste_to clip none path = unbound
paste_to clip (some host) path =
    if is_cut clip.mode && text_eq clip.host_id host && text_eq clip.directory path
    then same_directory
    else transfer (operation_of clip.mode) clip

abbrev pub paste_names : Clipboard → List Text → PasteDestination → PasteDecision
paste_names clip [] destination = empty
paste_names clip (n ∷ names) destination = paste_to clip destination.host_id destination.path

unfoldable pub resolve_paste : Option Clipboard → PasteDestination → PasteDecision
unfolding text_eq
resolve_paste none destination = empty
resolve_paste (some clip) destination = paste_names clip clip.names destination

pub record SplitNames : Type 0 where
  pub present : List Text
  pub missing : List Text

unfoldable pub split_held : List Text → List Text → SplitNames
unfolding member
split_held [] existing = record { present = []; missing = [] }
split_held (n ∷ names) existing =
    let later = split_held names existing in
    if member n existing
    then record later { present = n ∷ later.present }
    else record later { missing = n ∷ later.missing }

-- The names that are cut in a directory of a host.
abbrev pub cut_on : Clipboard → List Text → Option Text → Text → Option (List Text)
cut_on clip names none path = none
cut_on clip names (some host) path =
    if text_eq clip.host_id host && text_eq clip.directory path then some names else none

unfoldable pub cut_names_in : Option Clipboard → Option Text → Text → Option (List Text)
unfolding text_eq
cut_names_in none host path = none
cut_names_in (some clip) host path =
    if is_cut clip.mode then cut_on clip clip.names host path else none
