-- ===== src/Group/Runs.antt =====
-- What has come about in 12-1-22/group_signal when p1.c has done with its calls of setpgid.
use cn_lab.Base.{ℕ, ◌≡◌, refl, ap, List, [], ◌∷◌, Bool, true, false, not, ◌&&◌, ◌||◌, ◌==◌, ==_iff}
use cn_lab.Base.Packet.{same_text, eq_of_same_text}
use cn_lab.Base.Explore.{Run, every_in, run-every, same_texts, &&-fst, &&-snd}
use cn_lab.Ring.Signals.{msgrcv}
use cn_lab.Group.{World, started, main1, main2, main3, main4}
use cn_lab.Group.Moves.{
  forming, moves, load, store, kill1, kill2, set_pgid, msgsnd, perform, proceed, interrupt,
  is_deliverable, sigusr1_handler, deliver1, deliver2, is_alive,
}
use cn_lab.Group.States.{key, decode, decode-key, states, start-states, states-closed}

module _ (is_patient : Bool) (p : World → Bool) (h : every_in p (states is_patient) ≡ true) where
  always : {n : ℕ} {w : World} → Run (forming is_patient) started n w → p w ≡ true
  always r =
      run-every (forming is_patient) key decode decode-key p (states is_patient)
        (start-states is_patient) (states-closed is_patient) h r

-- The ids that p1.c has found: p2pid, p3pid and p4pid.
abbrev pub ids : World → List ℕ
ids w = w.p1.next_id ∷ w.p1.third_id ∷ w.p1.prev_id ∷ []

-- Whether each of p1.c to p4.c is in the group of p1.c.
abbrev pub members : World → List Bool
members w = w.p1.in_group ∷ w.p2.in_group ∷ w.p3.in_group ∷ w.p4.in_group ∷ []

abbrev only_first : World → Bool
only_first w = w.p1.in_group && not (w.p2.in_group || w.p3.in_group || w.p4.in_group)

abbrev pub all_alive : World → Bool
all_alive w =
    is_alive w.p1.status && is_alive w.p2.status && is_alive w.p3.status && is_alive w.p4.status

abbrev is_acquainted : World → Bool
is_acquainted w =
    not (w.p1.place == 12) || (same_text (ids w) (2 ∷ 3 ∷ 4 ∷ []) && (only_first w && all_alive w))

acquainted : (is_patient : Bool) → every_in is_acquainted (states is_patient) ≡ true
unfolding forming moves load store kill1 kill2 set_pgid msgsnd perform proceed interrupt
    is_deliverable sigusr1_handler deliver1 deliver2 msgrcv main1 main2 main3 main4 same_text
    same_texts
acquainted false = refl
acquainted true = refl

not-or : (a b : Bool) → a ≡ true → (not a || b) ≡ true → b ≡ true
not-or true b e h = h
not-or false b e h = cc

only_members :
    (a b c d : Bool)
    → (a && not (b || c || d)) ≡ true
    → a ∷ b ∷ c ∷ d ∷ [] ≡ true ∷ false ∷ false ∷ false ∷ []
only_members true false false false h = refl
only_members false b c d h = cc
only_members true true c d h = cc
only_members true false true d h = cc
only_members true false false true h = cc

at_setpgid_end :
    (is_patient : Bool) {n : ℕ} {w : World}
    → Run (forming is_patient) started n w
    → w.p1.place ≡ 12
    → (ids w ≡ 2 ∷ 3 ∷ 4 ∷ [])
      × (members w ≡ true ∷ false ∷ false ∷ false ∷ [])
      × (all_alive w ≡ true)
at_setpgid_end is_patient {w = w} r e =
    let h =
      not-or (w.p1.place == 12)
        (same_text (ids w) (2 ∷ 3 ∷ 4 ∷ []) && (only_first w && all_alive w))
        ((==_iff w.p1.place 12).1 e) (always is_patient is_acquainted (acquainted is_patient) r) in
    let rest = &&-snd (same_text (ids w) (2 ∷ 3 ∷ 4 ∷ [])) (only_first w && all_alive w) h in
    (
      eq_of_same_text (ids w) (2 ∷ 3 ∷ 4 ∷ [])
          (&&-fst (same_text (ids w) (2 ∷ 3 ∷ 4 ∷ [])) (only_first w && all_alive w) h),
      only_members w.p1.in_group w.p2.in_group w.p3.in_group w.p4.in_group
          (&&-fst (only_first w) (all_alive w) rest),
      &&-snd (only_first w) (all_alive w) rest,
    )

abbrev is_empty : List World → Bool
is_empty [] = true
is_empty (w ∷ ws) = false

completes : every_in (λ w. not (is_empty (forming true w)) || w.p1.place == 12) (states true) ≡ true
unfolding forming moves load store kill1 kill2 set_pgid msgsnd perform proceed interrupt
    is_deliverable sigusr1_handler deliver1 deliver2 msgrcv main1 main2 main3 main4 same_text
    same_texts
completes = refl

-- Where no handler runs between the test of a while loop and its pause(), the processes do not get
-- stuck before p1.c has done with its calls of setpgid, whatever the order of the moves. Then p2pid,
-- p3pid and p4pid are the ids of p2.c, p3.c and p4.c, none of the four processes has ended, and the
-- group has p1.c alone in it.
pub patient_alone :
    {n : ℕ} {w : World}
    → Run (forming true) started n w
    → forming true w ≡ []
    → (w.p1.place ≡ 12)
      × (ids w ≡ 2 ∷ 3 ∷ 4 ∷ [])
      × (members w ≡ true ∷ false ∷ false ∷ false ∷ [])
      × (all_alive w ≡ true)
patient_alone {w = w} r stuck =
    let e = (==_iff w.p1.place 12).0 (
      not-or (is_empty (forming true w)) (w.p1.place == 12) (ap is_empty stuck)
        (always true (λ u. not (is_empty (forming true u)) || u.p1.place == 12) completes r)) in
    let (found, alone, alive) = at_setpgid_end true r e in (e, found, alone, alive)
