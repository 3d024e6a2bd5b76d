-- ===== src/ScanAggregator/Tests.antt =====
-- A small walk.
use trekker.Prelude.{ℕ, ◌≡◌, refl, true, Option, none, some, List, [], ◌∷◌, All, map}
use trekker.Text.{Text, codes, text_eq, trim_end, cut_last, starts_with}
use trekker.Posix.{dirname}
use trekker.ScanAggregator.{
  AggregatedEntry, EntryKind, AggregatorOptions, DuRecord, Aggregator, AggregateResult, no_records,
  add, add_all, normalise, is_directory, depth_of, after_prefix, slashes, close_parent, find_parent,
  update_parent, new_parent, offer, offer_top, splice, pop, record_facts, record_size, find_size,
  push_path, add_inside,
}
use trekker.ScanAggregator.Emit.{
  sum_bytes, level_of, emit_levels, levels_from, rank_candidates, finish,
}
use trekker.ScanAggregator.Largest.{IsTop, IsKept, offer_each, offer_each-largest}
use trekker.ScanAggregator.Bounds.{IsWithin, add_all-IsWithin}

abbrev options : AggregatorOptions
options = record {
  root = codes "/r/";
  depth = 2;
  has_time = true;
  has_files = true;
  now = 40000000000;
}

abbrev du : Text → ℕ → DuRecord
du path bytes = record { bytes = bytes; mtime_ms = some 7; path = path }

abbrev records : List DuRecord
records =
    du (codes "/r/d/f") 5 ∷ du (codes "/r/d") 6 ∷ du (codes "/r/g") 3 ∷ du (codes "/r") 10 ∷ []

abbrev child_floor : ℕ → ℕ
child_floor total = 0

abbrev walked : Aggregator
walked = add_all options records no_records

abbrev sizes_of : Option AggregateResult → List ℕ
sizes_of none = []
sizes_of (some r) = map (λ (e : AggregatedEntry). e.bytes) r.entries

-- The root, its two children and the rest of it, and the child of `/r/d` and the rest of that.
tiles : sizes_of (finish child_floor options walked) ≡ 10 ∷ 6 ∷ 3 ∷ 1 ∷ 5 ∷ 1 ∷ []
unfolding add_all add normalise is_directory depth_of after_prefix slashes close_parent find_parent
    update_parent new_parent offer offer_top splice pop record_facts record_size find_size push_path
    add_inside text_eq trim_end cut_last starts_with dirname finish levels_from emit_levels level_of
    sum_bytes rank_candidates
tiles = refl

abbrev child_of : ℕ → AggregatedEntry
child_of bytes = record {
  path = codes "/r/x";
  bytes = bytes;
  parent_path = codes "/r";
  depth = 1;
  kind = EntryKind.file;
}

offer_each-largest_example :
    IsTop (offer_each (child_of 2 ∷ child_of 5 ∷ []) [])
    × All
        (λ (e : AggregatedEntry). IsKept e (offer_each (child_of 2 ∷ child_of 5 ∷ []) []))
        (child_of 2 ∷ child_of 5 ∷ [])
offer_each-largest_example = offer_each-largest (child_of 2 ∷ child_of 5 ∷ [])

add_all-IsWithin_example : IsWithin (add_all options records no_records)
add_all-IsWithin_example = add_all-IsWithin options records
