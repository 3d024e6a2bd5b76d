-- ===== src/ScanQueue/Events.antt =====
-- The events of the queue of scans, in any order, and what holds after them.
use trekker.Prelude.{
  ℕ, ◌≤◌, ◌≡◌, refl, ap, inl, inr, ◌⊎◌, false, not, List, [], ◌∷◌, ◌++◌, arith, map, any, length,
  if_either, All, filter, length-filter, length-map,
}
use trekker.Text.{Text, text_eq, member}
use trekker.Text.Unique.{IsFresh, AreUnique}
use trekker.ScanQueue.{
  QueuedScan, RunningScan, ScanQueue, Cancellation, Cancelled, cancelled_by_shutdown, no_scans,
  enqueue, abort, abort_scan, drop_scan, cancel, end_scan, shut_down,
}
use trekker.ScanQueue.Pump.{hosts, IsHeld, IsFair, pump-IsFair}

enqueue-IsFair :
    (limit : ℕ) (scan : QueuedScan) (q : ScanQueue)
    → IsFair limit q
    → IsFair limit (enqueue limit scan q)
unfolding enqueue
enqueue-IsFair limit scan q h =
    if_either (IsFair limit) q.stopping (λ _. h)
      (λ e. pump-IsFair limit (record q { waiting = q.waiting ++ (scan ∷ []) }) h.0 h.1 (inl e))

hosts-abort_scan :
    (id : Text) (running : List RunningScan) → hosts (abort_scan id running) ≡ hosts running
unfolding abort_scan
hosts-abort_scan id [] = refl
hosts-abort_scan id (r ∷ running) =
    if_either (λ (l : List RunningScan). hosts l ≡ r.host_id ∷ hosts running) (text_eq r.scan_id id)
      (λ _. refl) (λ _. ap (λ hs. r.host_id ∷ hs) (hosts-abort_scan id running))

hosts-map-abort :
    (reason : Cancellation) (running : List RunningScan)
    → hosts (map (abort reason) running) ≡ hosts running
hosts-map-abort reason [] = refl
hosts-map-abort reason (r ∷ running) = ap (λ hs. r.host_id ∷ hs) (hosts-map-abort reason running)

-- The same hosts hold the same scans.
IsHeld-hosts :
    (a b : List RunningScan) (waiting : List QueuedScan)
    → hosts a ≡ hosts b
    → All (IsHeld b) waiting
    → All (IsHeld a) waiting
IsHeld-hosts a b [] e h = tt
IsHeld-hosts a b (s ∷ waiting) e (h, hs) = (rw (e) h, IsHeld-hosts a b waiting e hs)

drop_scan-All :
    (P : QueuedScan → Type 0) (id : Text) (waiting : List QueuedScan)
    → All P waiting
    → All P (drop_scan id waiting)
unfolding drop_scan
drop_scan-All P id [] h = h
drop_scan-All P id (s ∷ waiting) (h, hs) =
    if_either (All P) (text_eq s.id id) (λ _. hs) (λ _. (h, drop_scan-All P id waiting hs))

drop_scan-nil : (id : Text) (waiting : List QueuedScan) → waiting ≡ [] → drop_scan id waiting ≡ []
unfolding drop_scan
drop_scan-nil id [] h = refl
drop_scan-nil id (s ∷ waiting) h = cc

cancel-IsFair :
    (limit : ℕ) (id : Text) (q : ScanQueue) → IsFair limit q → IsFair limit (cancel id q).0
unfolding cancel
cancel-IsFair limit id q (u, h, busy, s) =
    let P : ScanQueue × Cancelled → Type 0 = λ r. IsFair limit r.0 in
    if_either P (any (λ (r : RunningScan). text_eq r.scan_id id) q.running)
      (λ _.
        let same = hosts-abort_scan id q.running in
        (rw (same) u, rw (same) h, aborted same busy, s))
      (λ _.
        if_either P (any (λ (s : QueuedScan). text_eq s.id id) q.waiting)
          (λ _. (u, h, dropped busy, unless_stopped s)) (λ _. (u, h, busy, s)))
  where
    aborted :
        hosts (abort_scan id q.running) ≡ hosts q.running
        → (All (IsHeld q.running) q.waiting ⊎ (limit ≤ length (hosts q.running)))
        → All (IsHeld (abort_scan id q.running)) q.waiting
          ⊎ (limit ≤ length (hosts (abort_scan id q.running)))
    aborted same (inl all) =
        inl (IsHeld-hosts (abort_scan id q.running) q.running q.waiting same all)
    aborted same (inr full) = inr (rw (same) full)

    dropped :
        (All (IsHeld q.running) q.waiting ⊎ (limit ≤ length (hosts q.running)))
        → All (IsHeld q.running) (drop_scan id q.waiting) ⊎ (limit ≤ length (hosts q.running))
    dropped (inl all) = inl (drop_scan-All (IsHeld q.running) id q.waiting all)
    dropped (inr full) = inr full

    unless_stopped :
        (q.stopping ≡ false) ⊎ (q.waiting ≡ [])
        → (q.stopping ≡ false) ⊎ (drop_scan id q.waiting ≡ [])
    unless_stopped (inl e) = inl e
    unless_stopped (inr e) = inr (drop_scan-nil id q.waiting e)

abbrev without : Text → List RunningScan → List RunningScan
without host running = filter (λ (r : RunningScan). not (text_eq r.host_id host)) running

without-IsFresh :
    (x host : Text) (running : List RunningScan)
    → IsFresh x (hosts running)
    → IsFresh x (hosts (without host running))
unfolding member
without-IsFresh x host [] h = h
without-IsFresh x host (r ∷ running) h =
    let rest = without-IsFresh x host running (ground (arith, h)) in
    if_either (λ (l : List RunningScan). IsFresh x (hosts l)) (not (text_eq r.host_id host))
      (λ _. ground (arith, h, rest)) (λ _. rest)

without-AreUnique :
    (host : Text) (running : List RunningScan)
    → AreUnique (hosts running)
    → AreUnique (hosts (without host running))
without-AreUnique host [] u = u
without-AreUnique host (r ∷ running) (fresh, u) =
    let rest = without-AreUnique host running u in
    if_either (λ (l : List RunningScan). AreUnique (hosts l)) (not (text_eq r.host_id host))
      (λ _. (without-IsFresh r.host_id host running fresh, rest)) (λ _. rest)

end_scan-IsFair :
    (limit : ℕ) (host : Text) (q : ScanQueue)
    → IsFair limit q
    → IsFair limit (end_scan limit host q)
unfolding end_scan
end_scan-IsFair limit host q h =
    let fewer = length-filter (λ (r : RunningScan). not (text_eq r.host_id host)) q.running in
    pump-IsFair limit (record q { running = without host q.running })
      (without-AreUnique host q.running h.0)
      (omega (
        arith,
        fewer,
        h.1,
        length-map (λ (r : RunningScan). r.host_id) q.running,
        length-map (λ (r : RunningScan). r.host_id) (without host q.running),
      ))
      h.3

shut_down-IsFair : (limit : ℕ) (q : ScanQueue) → IsFair limit q → IsFair limit (shut_down q)
unfolding shut_down
shut_down-IsFair limit q h =
    let same = hosts-map-abort cancelled_by_shutdown q.running in
    (rw (same) h.0, rw (same) h.1, inl tt, inr refl)

-- A request, the end of a scan, or the shutdown.
pub data ScanEvent : Type 0 where
  enqueues : QueuedScan → ScanEvent
  cancels : Text → ScanEvent
  ends : Text → ScanEvent
  shuts_down : ScanEvent

abbrev pub react : ℕ → ScanEvent → ScanQueue → ScanQueue
react limit (enqueues scan) q = enqueue limit scan q
react limit (cancels id) q = (cancel id q).0
react limit (ends host) q = end_scan limit host q
react limit shuts_down q = shut_down q

unfoldable pub react_all : ℕ → List ScanEvent → ScanQueue → ScanQueue
react_all limit [] q = q
react_all limit (event ∷ events) q = react_all limit events (react limit event q)

react-IsFair :
    (limit : ℕ) (event : ScanEvent) (q : ScanQueue)
    → IsFair limit q
    → IsFair limit (react limit event q)
react-IsFair limit (enqueues scan) q h = enqueue-IsFair limit scan q h
react-IsFair limit (cancels id) q h = cancel-IsFair limit id q h
react-IsFair limit (ends host) q h = end_scan-IsFair limit host q h
react-IsFair limit shuts_down q h = shut_down-IsFair limit q h

pub react_all-keeps :
    (limit : ℕ) (events : List ScanEvent) (q : ScanQueue)
    → IsFair limit q
    → IsFair limit (react_all limit events q)
unfolding react_all
react_all-keeps limit [] q h = h
react_all-keeps limit (event ∷ events) q h =
    react_all-keeps limit events (react limit event q) (react-IsFair limit event q h)

-- Whatever is requested and ends, in whatever order, from an empty queue: no host is scanned twice at
-- once, no more scans run than the limit, a scan that waits while one more could run has its host
-- being scanned, and none waits once the queue has stopped.
pub react_all-IsFair :
    (limit : ℕ) (events : List ScanEvent) → IsFair limit (react_all limit events no_scans)
react_all-IsFair limit events =
    react_all-keeps limit events no_scans (tt, omega arith, inl tt, inl refl)
