-- ===== src/Poll/Ends.antt =====
-- The end of p1.c's loop, and what it does not read any more.
use cn_lab.Base.{
  ℕ, ◌≡◌, refl, ap, inl, inr, List, [], ◌∷◌, map, All, true, false, ◌==◌, ==_iff, if◌then◌else◌,
  Bool-cases, arith,
}
use cn_lab.Poll.{Pipe, Reader, opened, pollhup, pollin, visit, visit_all, round, Event, run}
use cn_lab.Poll.Pipes.{open_count, open_one, Invariant, visit_all_lem, run-Invariant}

-- Its writer has closed it.
abbrev pub IsLeft : Pipe → Type 0
IsLeft p = p.has_writer ≡ false

abbrev pub got_of : Pipe → List ℕ
got_of p = p.got

visit_left :
    (n : ℕ) (p : Pipe) → IsLeft p → (open_one (visit n p).1 ≡ 0) × ((visit n p).1.got ≡ p.got)
unfolding visit
visit_left n p left = elim (Bool-cases p.has_fd) [
  | inl fd ↦ let hup : pollhup p ≡ true = rw (fd, left) refl in rw hup (refl, refl)
  | inr none_left ↦
      let quiet : pollhup p ≡ false = rw none_left refl in
      let idle : pollin p ≡ false = rw none_left refl in
      let one : open_one p ≡ 0 = ap (λ b. if b then 1 else 0) none_left in
      rw (quiet, idle) (one, refl)
]

visit_all_left :
    (n : ℕ) (pipes : List Pipe)
    → All IsLeft pipes
    → (open_count (visit_all n pipes).1 ≡ 0) × (map got_of (visit_all n pipes).1 ≡ map got_of pipes)
unfolding visit_all
visit_all_left n [] h = (refl, refl)
visit_all_left n (p ∷ pipes) (left, h) =
    let (none_open, got) = visit_left n p left in
    let (rest, more) = visit_all_left (visit n p).0 pipes h in
    (omega (arith, none_open, rest), λ i. got i ∷ more i)

round_left :
    (s : Reader)
    → Invariant s
    → All IsLeft s.pipes
    → ((round s).nopenfds ≡ 0) × (map got_of (round s).pipes ≡ map got_of s.pipes)
unfolding round
round_left s inv left = elim (Bool-cases (s.nopenfds == 0)) [
  | inl over ↦ rw over ((==_iff s.nopenfds 0).0 over, refl)
  | inr going ↦
      let (count, _) = visit_all_lem s.nopenfds s.pipes (omega (arith, inv.count)) inv.sound in
      let (none_open, got) = visit_all_left s.nopenfds s.pipes left in
      rw going (omega (arith, count, none_open, inv.count), got)
]

-- Whatever has happened: once every writer has closed its pipe, the next round is the last one of the
-- loop, and it reads nothing: the bytes that are then still in the pipes are never read.
pub run_left :
    (events : List Event)
    → All IsLeft (run events opened).pipes
    → ((round (run events opened)).nopenfds ≡ 0)
      × (map got_of (round (run events opened)).pipes ≡ map got_of (run events opened).pipes)
run_left events left = round_left (run events opened) (run-Invariant events) left
