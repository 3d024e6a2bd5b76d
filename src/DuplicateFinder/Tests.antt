-- ===== src/DuplicateFinder/Tests.antt =====
-- Duplicates among a few files.
use trekker.Prelude.{◌≡◌, refl, false, List, [], ◌∷◌, map}
use trekker.Text.{Text, codes, text_eq}
use trekker.ScanAggregator.{DuplicateCandidate}
use trekker.Sha256Sum.{chunk_paths, chunk_from, set_digest}
use trekker.DuplicateFinder.{
  digests, Finder, run_pass, confirm_duplicates, confirm_each, confirm_group, hash_group,
  hash_chunks, set_all, tally, by_digest, count_digest, has_copies, reclaim, first,
}

-- Each file has the same digest.
abbrev finder : Finder
finder = record {
  aborted = λ n. false;
  sum_chunk = λ n chunk. digests (map (λ (p : Text). (p, codes "0")) chunk);
}

abbrev groups : List DuplicateCandidate
groups = record { bytes = 5; paths = codes "/a" ∷ codes "/b" ∷ codes "/c" ∷ [] } ∷ []

reclaimed : (confirm_duplicates finder groups 1).reclaimable_bytes ≡ 10
unfolding confirm_duplicates run_pass confirm_each confirm_group hash_group hash_chunks set_all
    set_digest chunk_paths chunk_from tally by_digest count_digest has_copies reclaim first text_eq
reclaimed = refl
