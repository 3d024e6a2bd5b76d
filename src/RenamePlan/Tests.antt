-- ===== src/RenamePlan/Tests.antt =====
-- Runs of the rename plan.
use trekker.Prelude.{◌≡◌, refl, true, false, none, some, [], ◌∷◌, map}
use trekker.Text.{Text, codes, member}
use trekker.Text.Unique.{AreUnique}
use trekker.RenamePlan.{
  RenameInput, RenamePlan, RenameMapping, Applied, duplicate, exists, judge, is_refused, moves_of,
  byte_length,
}
use trekker.RenamePlan.Safety.{renamed, renamed-AreUnique}

abbrev to : Text → Applied
to t = record { next = t; match = none }

-- `a` takes the place of `b`, which moves on to `c`; `d` stays.
abbrev chain : RenameInput
chain = record {
  names = codes "a" ∷ codes "b" ∷ [];
  existing = codes "a" ∷ codes "b" ∷ codes "d" ∷ [];
}

abbrev mapping : Text → Text → RenameMapping
mapping name next = record {
  name = name;
  next = next;
  changed = true;
  match = none;
  problem = none;
}

abbrev chained : RenamePlan
chained = record {
  mappings = mapping (codes "a") (codes "b") ∷ mapping (codes "b") (codes "c") ∷ [];
  changed = 2;
  error = none;
}

judge-chain : judge chain (to (codes "b") ∷ to (codes "c") ∷ []) ≡ some chained
unfolding judge
judge-chain = refl

judge_collision :
    judge chain (to (codes "x") ∷ to (codes "x") ∷ [])
    ≡ some (record {
      mappings =
          record (mapping (codes "a") (codes "x")) {
            problem = some (record { code = duplicate; collides_with = some (codes "b") });
          }
          ∷ record (mapping (codes "b") (codes "x")) {
            problem = some (record { code = duplicate; collides_with = some (codes "a") });
          }
          ∷ [];
      changed = 2;
      error = none;
    })
unfolding judge
judge_collision = refl

judge_taken :
    judge chain (to (codes "d") ∷ to (codes "b") ∷ [])
    ≡ some (record {
      mappings =
          record (mapping (codes "a") (codes "d")) {
            problem = some (record { code = exists; collides_with = none });
          }
          ∷ record (mapping (codes "b") (codes "b")) { changed = false }
          ∷ [];
      changed = 1;
      error = none;
    })
unfolding judge
judge_taken = refl

bytes_test : byte_length (codes "aé") ≡ 3
unfolding byte_length
bytes_test = refl

chain-AreUnique : AreUnique chain.existing
unfolding member
chain-AreUnique = (refl, (refl, (refl, tt)))

chained_accepted : is_refused chained ≡ false
unfolding is_refused
chained_accepted = refl

renamed-AreUnique_example : AreUnique (map (renamed (moves_of chained)) chain.existing)
renamed-AreUnique_example =
    renamed-AreUnique chain (to (codes "b") ∷ to (codes "c") ∷ []) chained judge-chain
      chained_accepted chain-AreUnique
