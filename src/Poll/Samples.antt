-- ===== src/Poll/Samples.antt =====
-- The theorems on the reader of three pipes at a concrete course of events.
use cn_lab.Base.{◌≡◌, refl, List, [], ◌∷◌, map, codes}
use cn_lab.Poll.{opened, visit, visit_all, round, Event, happen, run}
use cn_lab.Poll.Pipes.{Invariant, run-Invariant}
use cn_lab.Poll.Ends.{got_of, run_left}

-- The first writer writes twice and goes; p1.c has looked only once.
abbrev events : List Event
events =
    Event.write 0 (codes "one")
    ∷ Event.poll
    ∷ Event.write 0 (codes "two")
    ∷ Event.close 0
    ∷ Event.close 1
    ∷ Event.close 2
    ∷ []

run-Invariant_example : Invariant (run events opened)
run-Invariant_example = run-Invariant events

run_left_example :
    ((round (run events opened)).nopenfds ≡ 0)
    × (map got_of (round (run events opened)).pipes ≡ map got_of (run events opened).pipes)
unfolding run happen opened round visit_all visit
run_left_example = run_left events (refl, (refl, (refl, tt)))

two_lost : map got_of (run (Event.poll ∷ []) (run events opened)).pipes ≡ codes "one" ∷ [] ∷ [] ∷ []
unfolding run happen opened round visit_all visit
two_lost = refl
