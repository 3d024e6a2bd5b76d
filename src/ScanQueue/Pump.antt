-- ===== src/ScanQueue/Pump.antt =====
-- What pumping the queue of scans leaves.
use trekker.Prelude.{
  ℕ, zero, suc, ◌≤◌, ◌≡◌, refl, ap, sym, subst, ◌∙◌, inl, inr, ◌⊎◌, true, false, Option, none, some,
  List, [], ◌∷◌, ◌++◌, arith, map, ltb, length, if_either, if◌then◌else◌, Bool-cases, All,
  length-append, length-map,
}
use trekker.Text.{Text, text_eq, member}
use trekker.Text.Unique.{AreUnique, AreUnique-push}
use trekker.ScanQueue.{
  QueuedScan, RunningScan, ScanQueue, is_running, start, next_scan, pump_scans, pump,
}

abbrev pub hosts : List RunningScan → List Text
hosts running = map (λ (r : RunningScan). r.host_id) running

-- The host of the scan is being scanned.
abbrev pub IsHeld : List RunningScan → QueuedScan → Type 0
IsHeld running scan = member scan.host_id (hosts running) ≡ true

-- No host is scanned twice at once, no more scans run than may, each scan that waits waits for its host
-- while one more could run, and none waits once the queue stops.
abbrev pub IsFair : ℕ → ScanQueue → Type 0
IsFair limit q =
    AreUnique (hosts q.running)
    × (length (hosts q.running) ≤ limit)
    × (All (IsHeld q.running) q.waiting ⊎ (limit ≤ length (hosts q.running)))
    × ((q.stopping ≡ false) ⊎ (q.waiting ≡ []))

pub is_running-member :
    (host : Text) (running : List RunningScan)
    → is_running host running ≡ member host (hosts running)
unfolding is_running member
is_running-member host [] = refl
is_running-member host (r ∷ running) = rw (is_running-member host running) refl

hosts-start :
    (scan : QueuedScan) (running : List RunningScan)
    → member scan.host_id (hosts running) ≡ false
    → hosts (start scan running) ≡ hosts running ++ (scan.host_id ∷ [])
unfolding start member
hosts-start scan [] h = refl
hosts-start scan (r ∷ running) h = elim (Bool-cases (text_eq r.host_id scan.host_id)) [
  | inl same ↦ ground (arith, h, same)
  | inr other ↦
      rw (other) (ap (λ hs. r.host_id ∷ hs) (hosts-start scan running (ground (arith, h))))
]

-- The next scan to start is on a free host, and one shorter is the line behind it.
abbrev IsNext : List RunningScan → List QueuedScan → Option (QueuedScan × List QueuedScan) → Type 0
IsNext running waiting none = All (IsHeld running) waiting
IsNext running waiting (some (scan, left)) =
    (member scan.host_id (hosts running) ≡ false) × (suc (length left) ≡ length waiting)

next_scan-IsNext :
    (running : List RunningScan) (waiting : List QueuedScan)
    → IsNext running waiting (next_scan running waiting)
unfolding next_scan
next_scan-IsNext running [] = tt
next_scan-IsNext running (scan ∷ waiting) =
    let held = is_running-member scan.host_id running in
    if_either (IsNext running (scan ∷ waiting)) (is_running scan.host_id running)
      (λ e. skip (next_scan running waiting) (sym held ∙ e) (next_scan-IsNext running waiting))
      (λ e. (sym held ∙ e, refl))
  where
    skip :
        (later : Option (QueuedScan × List QueuedScan))
        → IsHeld running scan
        → IsNext running waiting later
        → IsNext running
            (scan ∷ waiting)
            (elim later [ none ↦ none | some (found, left) ↦ some (found, scan ∷ left) ])
    skip none h all = (h, all)
    skip (some (found, left)) h (free, len) = (free, ap suc len)

-- What pumping leaves, whatever the fuel was enough for.
abbrev IsPumped : ℕ → List RunningScan × List QueuedScan → Type 0
IsPumped limit p =
    AreUnique (hosts p.0)
    × (length (hosts p.0) ≤ limit)
    × (All (IsHeld p.0) p.1 ⊎ (limit ≤ length (hosts p.0)))

pump_scans-IsPumped :
    (limit fuel : ℕ) (running : List RunningScan) (waiting : List QueuedScan)
    → length waiting ≤ fuel
    → AreUnique (hosts running)
    → length (hosts running) ≤ limit
    → IsPumped limit (pump_scans limit fuel running waiting)
unfolding pump_scans
pump_scans-IsPumped limit zero running [] enough u h = (u, h, inl tt)
pump_scans-IsPumped limit zero running (_ ∷ _) enough u h = ground arith
pump_scans-IsPumped limit (suc fuel) running waiting enough u h =
    round (next_scan running waiting) (next_scan-IsNext running waiting)
      (λ scan left. pump_scans-IsPumped limit fuel (start scan running) left)
  where
    round :
        (next : Option (QueuedScan × List QueuedScan))
        → IsNext running waiting next
        → ((scan : QueuedScan) (left : List QueuedScan)
            → length left ≤ fuel
            → AreUnique (hosts (start scan running))
            → length (hosts (start scan running)) ≤ limit
            → IsPumped limit (pump_scans limit fuel (start scan running) left))
        → IsPumped limit (elim next [
          | none ↦ (running, waiting)
          | some (scan, left) ↦
              if ltb (length running) limit
              then pump_scans limit fuel (start scan running) left
              else (running, waiting)
        ])
    round none all more = (u, h, inl all)
    round (some (scan, left)) (free, len) more =
        let grown = hosts-start scan running free in
        if_either (IsPumped limit) (ltb (length running) limit)
          (λ room.
            more scan left (omega (arith, enough, len))
              (subst AreUnique (sym grown) (AreUnique-push (hosts running) scan.host_id u free))
              (rw (grown) (
                ground (
                  arith,
                  room,
                  length-append (hosts running) (scan.host_id ∷ []),
                  length-map (λ (r : RunningScan). r.host_id) running,
                ))))
          (λ full.
            (u, h, inr (ground (arith, full, length-map (λ (r : RunningScan). r.host_id) running))))

pub pump-IsFair :
    (limit : ℕ) (q : ScanQueue)
    → AreUnique (hosts q.running)
    → length (hosts q.running) ≤ limit
    → (q.stopping ≡ false) ⊎ (q.waiting ≡ [])
    → IsFair limit (pump limit q)
unfolding pump
pump-IsFair limit q u h s =
    let p = pump_scans-IsPumped limit (length q.waiting) q.running q.waiting (omega arith) u h in
    if_either (IsFair limit) q.stopping (λ e. (u, h, inl (none_waits s e), s))
      (λ e. (p.0, p.1, p.2, inl e))
  where
    none_waits :
        (q.stopping ≡ false) ⊎ (q.waiting ≡ [])
        → q.stopping ≡ true
        → All (IsHeld q.running) q.waiting
    none_waits (inl f) e = absurd (cc (e, f))
    none_waits (inr w) e = rw (w) tt
