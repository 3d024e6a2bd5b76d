-- ===== src/TailRegistry/Delivery.antt =====
-- nest-api/src/fs/tail-registry.service.ts: what one subscriber gets out of a series of broadcasts.
use trekker.Prelude.{
  ℕ, zero, suc, ◌+◌, ◌≤◌, true, not, List, [], ◌∷◌, ◌++◌, ◌≡◌, refl, ◌⊎◌, inl, inr, arith,
  if_either, ltb, All,
}
use trekker.TailRegistry.Entry.{
  recover, write, slow_client, truncated_line, TailFrame, lines_frame, gap_frame, rotated_frame,
  error_frame, count_of, Held, Socket, offer,
}

-- What a frame tells a client of: its lines, those it reports as missed, or one thing.
abbrev pub told_of : TailFrame → ℕ
told_of (lines_frame lines index) = count_of (lines_frame lines index)
told_of (gap_frame dropped slow_client) = dropped
told_of (gap_frame dropped truncated_line) = 1
told_of (rotated_frame _) = 1
told_of (error_frame _ _) = 1

unfoldable pub told_by : List TailFrame → ℕ
told_by [] = 0
told_by (f ∷ fs) = told_of f + told_by fs

unfoldable pub count_all : List TailFrame → ℕ
count_all [] = 0
count_all (f ∷ fs) = count_of f + count_all fs

-- A frame that a source has broadcast: what a slow client missed is never one.
abbrev pub IsBroadcast : TailFrame → Type 0
IsBroadcast frame = told_of frame ≡ count_of frame

-- A socket that answers and takes two writes in a call.
abbrev pub Holds : Socket → Type 0
Holds socket = (socket.answers ≡ true) × (2 ≤ socket.writes)

-- What is counted as dropped is still to be told.
abbrev pub Owes : Held → Type 0
Owes held = (held.wants_gap ≡ true) ⊎ (held.dropped ≡ 0)

told_by-append : (xs ys : List TailFrame) → told_by (xs ++ ys) ≡ told_by xs + told_by ys
unfolding told_by
told_by-append [] ys = omega arith
told_by-append (x ∷ xs) ys = omega (arith, told_by-append xs ys)

-- The subscriber in a series of broadcasts, each with the socket as it is then.
unfoldable pub offer_all : ℕ → List (Socket × TailFrame) → Held → Held
unfolding offer
offer_all cap [] held = held
offer_all cap (x ∷ xs) held = offer_all cap xs (offer cap x.0 x.1 held)

abbrev pub frames : List (Socket × TailFrame) → List TailFrame
frames [] = []
frames (x ∷ xs) = x.1 ∷ frames xs

abbrev pub Accounts : ℕ → Held → Held → Type 0
Accounts n before after =
    (told_by after.sent + after.dropped ≡ told_by before.sent + before.dropped + n) × Owes after

told_by-send :
    (frame : TailFrame) (sent : List TailFrame)
    → told_by (sent ++ (frame ∷ [])) ≡ told_by sent + told_of frame
unfolding told_by
told_by-send frame sent = omega (arith, told_by-append sent (frame ∷ []))

recover-Accounts :
    (writes : ℕ) (frame : TailFrame) (held : Held)
    → 2 ≤ writes
    → IsBroadcast frame
    → Accounts (count_of frame) held (recover writes frame held)
recover-Accounts zero frame held two own = ground arith
recover-Accounts (suc zero) frame held two own = ground arith
recover-Accounts (suc (suc w)) frame held two own =
    let gap = gap_frame held.dropped slow_client in
    (
      omega (arith, own, told_by-send gap held.sent, told_by-send frame (held.sent ++ (gap ∷ []))),
      inr refl,
    )

write-Accounts :
    (writes : ℕ) (frame : TailFrame) (held : Held)
    → 2 ≤ writes
    → IsBroadcast frame
    → Owes held
    → Accounts (count_of frame) held (write writes frame held)
write-Accounts zero frame held two own owes = ground arith
write-Accounts (suc w) frame held two own owes =
    (omega (arith, own, told_by-send frame held.sent), owes)

offer-Accounts :
    (cap : ℕ) (socket : Socket) (frame : TailFrame) (held : Held)
    → Holds socket
    → IsBroadcast frame
    → Owes held
    → Accounts (count_of frame) held (offer cap socket frame held)
unfolding offer
offer-Accounts cap socket frame held (answers, two) own owes =
    let P : Held → Type 0 = Accounts (count_of frame) held in
    if_either P (not socket.answers) (λ e. ground (arith, e, answers))
      (λ _.
        if_either P (ltb cap socket.buffered) (λ _. (omega arith, inl refl))
          (λ _.
            if_either P held.wants_gap (λ _. recover-Accounts socket.writes frame held two own)
              (λ _. write-Accounts socket.writes frame held two own owes)))

abbrev pub AreHeld : List (Socket × TailFrame) → Type 0
AreHeld = All (λ (x : Socket × TailFrame). Holds x.0 × IsBroadcast x.1)

-- Over any series of broadcasts to a subscriber whose socket answers and takes what is written to it,
-- slow or not, nothing is lost without being counted: what the subscriber was told, in lines and in
-- the numbers of the gaps, grows, with what is still to be reported, by exactly what was broadcast;
-- and what is still to be reported is marked for the next write, or there is none.
pub offer_all-Accounts :
    (cap : ℕ) (calls : List (Socket × TailFrame)) (held : Held)
    → AreHeld calls
    → Owes held
    → Accounts (count_all (frames calls)) held (offer_all cap calls held)
unfolding offer_all count_all
offer_all-Accounts cap [] held hs owes = (omega arith, owes)
offer_all-Accounts cap (x ∷ xs) held (h, hs) owes =
    let one = offer-Accounts cap x.0 x.1 held h.0 h.1 owes in
    let more = offer_all-Accounts cap xs (offer cap x.0 x.1 held) hs one.1 in
    (omega (arith, one.0, more.0), more.1)
