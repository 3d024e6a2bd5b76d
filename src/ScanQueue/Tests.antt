-- ===== src/ScanQueue/Tests.antt =====
-- The queue of scans on small inputs.
use trekker.Prelude.{◌≡◌, refl, List, [], ◌∷◌, map}
use trekker.Text.{Text, codes, text_eq}
use trekker.ScanQueue.{
  QueuedScan, no_scans, enqueue, cancel, pump, pump_scans, next_scan, is_running, start, abort_scan,
  drop_scan,
}
use trekker.ScanQueue.Pump.{IsFair}
use trekker.ScanQueue.Events.{ScanEvent, enqueues, cancels, react_all, react_all-IsFair}

abbrev scan : Text → Text → QueuedScan
scan id host = record {
  id = id;
  host_id = host;
  user_id = codes "u";
  root = codes "/";
  real_path = codes "/";
  depth = 3;
}

abbrev requests : List ScanEvent
requests =
    enqueues (scan (codes "1") (codes "a"))
    ∷ enqueues (scan (codes "2") (codes "a"))
    ∷ enqueues (scan (codes "3") (codes "b"))
    ∷ enqueues (scan (codes "4") (codes "c"))
    ∷ cancels (codes "1")
    ∷ []

-- The second scan of a host is passed over, and waits with the one that is over the limit.
react_all_passed :
    map (λ (s : QueuedScan). s.id) (react_all 2 requests no_scans).waiting
    ≡ codes "2" ∷ codes "4" ∷ []
unfolding react_all enqueue cancel pump pump_scans next_scan is_running start abort_scan drop_scan
    text_eq
react_all_passed = refl

react_all-IsFair_example : IsFair 2 (react_all 2 requests no_scans)
react_all-IsFair_example = react_all-IsFair 2 requests
