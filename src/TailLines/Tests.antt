-- ===== src/TailLines/Tests.antt =====
-- Runs of the line framer.
use trekker.Prelude.{◌≡◌, refl, false, [], ◌∷◌, ◌++◌, arith}
use trekker.Text.{Text, codes}
use trekker.TailLines.{fresh, clean, push, flush, emit}
use trekker.TailLines.Chunks.{push-append}

framing : Unit {0}
unfolding push clean emit flush
framing = tt

-- A colour sequence and a carriage return go; the rest of a chunk is carried.
colours : Text
colours = 27 ∷ 91 ∷ codes "31mred" ++ (27 ∷ 91 ∷ codes "0m" ++ 13 ∷ 10 ∷ codes "next")

push-colours : push fresh colours ≡ (
  record { text = codes "red"; truncated = false } ∷ [],
  record { partial = codes "next"; discarding = false },
)
unfolding framing colours
push-colours = refl

flush_test :
    flush (record { partial = codes "ab"; discarding = false }) (codes "c")
    ≡ (record { text = codes "abc"; truncated = false } ∷ [], fresh)
unfolding framing
flush_test = refl

push-append_example : push fresh (codes "one\ntw" ++ codes "o\n") ≡ (
  (push fresh (codes "one\ntw")).0 ++ (push (push fresh (codes "one\ntw")).1 (codes "o\n")).0,
  (push (push fresh (codes "one\ntw")).1 (codes "o\n")).1,
)
push-append_example = push-append fresh (codes "one\ntw") (codes "o\n") (omega arith)
