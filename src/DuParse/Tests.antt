-- ===== src/DuParse/Tests.antt =====
-- The output of `du` on small inputs.
use trekker.Prelude.{◌≡◌, refl, true, false, some, List, [], ◌∷◌, ◌++◌, map, filter, length, not}
use trekker.Text.{
  Text, codes, trim, trim_start_space, trim_end_space, is_space, includes, starts_with, split,
}
use trekker.DuParse.Rungs.{DuRung, gnu, should_demote, is_refusal}
use trekker.Text.Cases.{holds, begins}
use trekker.DuParse.{new_parser, push, count_unreadable, count_lines, counts_as_unreadable}
use trekker.DuParse.Chunks.{push_all, concat, push_all-concat}
use trekker.DuParse.Records.{Item, has_number, told, output, push-output}

abbrev rung : DuRung
rung = record {
  flavour = gnu;
  args = [];
  null_terminated = true;
  unit_bytes = 1;
  has_time = true;
  has_files = true;
}

abbrev chunks : List Text
chunks = codes "12\t3\t/" ∷ (codes "a" ++ (0 ∷ codes "7\t")) ∷ []

push_all-concat_example : push_all (new_parser rung) chunks ≡ push (new_parser rung) (concat chunks)
unfolding includes
push_all-concat_example = push_all-concat (new_parser rung) chunks refl

-- A name with a newline and a made-up record in it, and a file from before 1970.
abbrev items : List Item
items =
    record { size = codes "5"; epoch = codes "9"; path = codes "/a\n8\t9\t/b" }
    ∷ record { size = codes "6"; epoch = codes "-86400"; path = codes "/old" }
    ∷ []

push-output_example : push (new_parser rung) (output rung items) ≡ (
  map (told rung) (filter (has_number rung) items),
  record (new_parser rung) {
    malformed = length (filter (λ (i : Item). not (has_number rung i)) items);
  },
)
unfolding includes starts_with
push-output_example =
    push-output rung items
      ((refl, (refl, refl), refl, refl), ((refl, (refl, refl), refl, refl), tt))

one_lost : length (filter (λ (i : Item). not (has_number rung i)) items) ≡ 1
one_lost = refl

demoted : should_demote (some 1) [] (codes "du: Illegal option -- B") ≡ true
unfolding should_demote is_refusal holds begins trim trim_start_space trim_end_space is_space
demoted = refl

not_demoted : should_demote (some 1) (codes "5\t/a") (codes "du: cannot read directory") ≡ false
unfolding should_demote is_refusal holds begins trim trim_start_space trim_end_space is_space
not_demoted = refl

unreadable : count_unreadable (codes "du: cannot read directory\nDU: Cannot access x\nok") ≡ 2
unfolding count_unreadable count_lines counts_as_unreadable split begins trim trim_start_space
    trim_end_space is_space
unreadable = refl
