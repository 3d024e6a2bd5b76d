-- ===== src/Clipboard/Tests.antt =====
-- front/src/helpers/clipboard.ts: pastes.
use trekker.Prelude.{◌≡◌, refl, some, [], ◌∷◌}
use trekker.Text.{codes}
use trekker.Clipboard.{Clipboard, cut, same_directory, transfer, moving, resolve_paste, split_held}

abbrev two_cut : Clipboard
two_cut = record {
  mode = cut;
  host_id = codes "h";
  directory = codes "/a";
  names = codes "x" ∷ codes "y" ∷ [];
}

two_cut_pasted :
    (resolve_paste (some two_cut) (record { host_id = some (codes "h"); path = codes "/a" })
      ≡ same_directory)
    × (resolve_paste (some two_cut) (record { host_id = some (codes "h"); path = codes "/b" })
        ≡ transfer moving two_cut)
unfolding resolve_paste
two_cut_pasted = (refl, refl)

held_split :
    split_held two_cut.names (codes "z" ∷ codes "y" ∷ [])
    ≡ record { present = codes "y" ∷ []; missing = codes "x" ∷ [] }
unfolding split_held
held_split = refl
