-- ===== src/Ring/Rounds.antt =====
-- What every run of the ring does.
use cn_lab.Base.{
  ℕ, ◌+◌, ◌*◌, ◌≤◌, ◌≡◌, ◌⊎◌, inl, inr, refl, ap, List, [], ◌∷◌, Bool, true, false, not, ◌&&◌, ◌||◌,
  ◌==◌, ==_iff, leb, ltb, leb→le, arith,
}
use cn_lab.Base.Packet.{same_text, eq_of_same_text}
use cn_lab.Base.Explore.{
  Run, every, every_in, run-every, run-measure, same_texts, &&-fst, &&-snd, ||-cases,
}
use cn_lab.Ring.{Process, Ring, started, times, main1, main2, main3, main4}
use cn_lab.Ring.Signals.{
  moves, set_pending, is_pending, kill, sigusr1_handler, sigusr2_handler, wake, is_about_to_pause,
  deliver, msgrcv, perform, proceed,
}
use cn_lab.Ring.States.{key, decode, decode-key, states, start-states, states-closed}

module _ (is_patient : Bool) (p : Ring → Bool) (h : every_in p (states is_patient) ≡ true) where
  always : {n : ℕ} {s : Ring} → Run (moves is_patient) started n s → p s ≡ true
  always r =
      run-every (moves is_patient) key decode decode-key p (states is_patient)
        (start-states is_patient) (states-closed is_patient) h r

abbrev pub usr1_counts : Ring → List ℕ
usr1_counts s = s.p1.usr1_count ∷ s.p2.usr1_count ∷ s.p3.usr1_count ∷ s.p4.usr1_count ∷ []

abbrev pub usr2_counts : Ring → List ℕ
usr2_counts s = s.p2.usr2_count ∷ s.p3.usr2_count ∷ s.p4.usr2_count ∷ []

abbrev pub has_ended : Ring → Bool
has_ended s = not (s.p1.is_alive || s.p2.is_alive || s.p3.is_alive || s.p4.is_alive)

abbrev is_complete : Ring → Bool
is_complete s =
    has_ended s
    && (same_text (usr1_counts s) (4 ∷ 4 ∷ 4 ∷ 4 ∷ [])
        && same_text (usr2_counts s) (4 ∷ 4 ∷ 4 ∷ []))

pub IsComplete : Ring → Type 0
IsComplete s =
    (has_ended s ≡ true) × (usr1_counts s ≡ 4 ∷ 4 ∷ 4 ∷ 4 ∷ []) × (usr2_counts s ≡ 4 ∷ 4 ∷ 4 ∷ [])

is_complete_lem : (s : Ring) → is_complete s ≡ true → IsComplete s
unfolding IsComplete
is_complete_lem s h =
    let counts = &&-snd (has_ended s) _ h in
    (
      &&-fst (has_ended s) _ h,
      eq_of_same_text (usr1_counts s) _ (&&-fst (same_text (usr1_counts s) _) _ counts),
      eq_of_same_text (usr2_counts s) _ (&&-snd (same_text (usr1_counts s) _) _ counts),
    )

abbrev is_empty : List Ring → Bool
is_empty [] = true
is_empty (s ∷ r) = false

not-or : (a b : Bool) → a ≡ true → (not a || b) ≡ true → b ≡ true
not-or true b e h = h
not-or false b e h = cc

completes : every_in (λ s. not (is_empty (moves true s)) || is_complete s) (states true) ≡ true
unfolding moves set_pending is_pending kill sigusr1_handler sigusr2_handler wake is_about_to_pause
    deliver msgrcv perform proceed times main1 main2 main3 main4 same_text same_texts
completes = refl

-- Where no handler runs between the call before a pause() and the sleep in it, the ring never gets
-- stuck: when nothing can move any more, all four processes have ended, each has received SIGUSR1
-- four times, and p2.c, p3.c and p4.c have received SIGUSR2 four times.
pub patient_end :
    {n : ℕ} {s : Ring} → Run (moves true) started n s → moves true s ≡ [] → IsComplete s
patient_end {s} r stuck = is_complete_lem s (
    not-or (is_empty (moves true s)) (is_complete s) (ap is_empty stuck)
      (always true (λ u. not (is_empty (moves true u)) || is_complete u) completes r))

completes_or_sleeps :
    every_in
      (λ s. not (is_empty (moves false s)) || (is_complete s || (s.p1.is_alive && s.p1.is_asleep)))
      (states false)
    ≡ true
unfolding moves set_pending is_pending kill sigusr1_handler sigusr2_handler wake is_about_to_pause
    deliver msgrcv perform proceed times main1 main2 main3 main4 same_text same_texts
completes_or_sleeps = refl

-- With signals at any time, a run that cannot go on has either completed all rounds, as above, or
-- p1.c sleeps in pause() for good.
pub ring_end :
    {n : ℕ} {s : Ring}
    → Run (moves false) started n s
    → moves false s ≡ []
    → IsComplete s ⊎ ((s.p1.is_alive && s.p1.is_asleep) ≡ true)
ring_end {s} r stuck =
    let h =
      not-or (is_empty (moves false s)) (is_complete s || (s.p1.is_alive && s.p1.is_asleep))
        (ap is_empty stuck)
        (always false
          (λ u.
            not (is_empty (moves false u)) || (is_complete u || (u.p1.is_alive && u.p1.is_asleep)))
          completes_or_sleeps r) in
    elim (||-cases (is_complete s) (s.p1.is_alive && s.p1.is_asleep) h) [
      | inl e ↦ inl (is_complete_lem s e)
      | inr e ↦ inr e
    ]

abbrev in_order : Ring → Bool
in_order s =
    (leb s.p3.usr1_count s.p2.usr1_count && leb s.p4.usr1_count s.p3.usr1_count)
    && (leb s.p1.usr1_count s.p4.usr1_count && leb s.p2.usr1_count (s.p1.usr1_count + 1))

abbrev is_sound : Ring → Bool
is_sound s =
    (not s.is_merged && not s.is_stray)
    && (in_order s && (s.p4.usr2_count == 0 || s.p1.usr1_count == 4))

sound : every_in is_sound (states false) ≡ true
unfolding moves set_pending is_pending kill sigusr1_handler sigusr2_handler wake is_about_to_pause
    deliver msgrcv perform proceed times main1 main2 main3 main4 same_text same_texts
sound = refl

not-true : (b : Bool) → not b ≡ true → b ≡ false
not-true true h = cc
not-true false h = refl

in_order_lem :
    (s : Ring)
    → in_order s ≡ true
    → (s.p1.usr1_count ≤ s.p4.usr1_count)
      × (s.p4.usr1_count ≤ s.p3.usr1_count)
      × (s.p3.usr1_count ≤ s.p2.usr1_count)
      × (s.p2.usr1_count ≤ s.p1.usr1_count + 1)
in_order_lem s h =
    let first =
      &&-fst (leb s.p3.usr1_count s.p2.usr1_count && leb s.p4.usr1_count s.p3.usr1_count) _ h in
    let second =
      &&-snd (leb s.p3.usr1_count s.p2.usr1_count && leb s.p4.usr1_count s.p3.usr1_count) _ h in
    (
      leb→le s.p1.usr1_count s.p4.usr1_count (&&-fst _ _ second),
      leb→le s.p4.usr1_count s.p3.usr1_count (&&-snd _ _ first),
      leb→le s.p3.usr1_count s.p2.usr1_count (&&-fst _ _ first),
      leb→le s.p2.usr1_count (s.p1.usr1_count + 1) (&&-snd _ _ second),
    )

backward_lem : (a b : ℕ) → (a == 0 || b == 4) ≡ true → (a ≡ 0) ⊎ (b ≡ 4)
backward_lem a b h = elim (||-cases (a == 0) (b == 4) h) [
  | inl e ↦ inl ((==_iff a 0).0 e)
  | inr e ↦ inr ((==_iff b 4).0 e)
]

-- At any time of any run: no signal is lost by being sent while the same one is pending, no process
-- signals an id that it does not know, the SIGUSR1 go round in the order p2, p3, p4, p1, one round
-- after the other, and p4.c receives no SIGUSR2 before p1.c has received its four SIGUSR1.
pub run_signals :
    {n : ℕ} {s : Ring}
    → Run (moves false) started n s
    → (s.is_merged ≡ false)
      × (s.is_stray ≡ false)
      × ((s.p1.usr1_count ≤ s.p4.usr1_count)
          × (s.p4.usr1_count ≤ s.p3.usr1_count)
          × (s.p3.usr1_count ≤ s.p2.usr1_count)
          × (s.p2.usr1_count ≤ s.p1.usr1_count + 1))
      × ((s.p4.usr2_count ≡ 0) ⊎ (s.p1.usr1_count ≡ 4))
run_signals {s} r =
    let h = always false is_sound sound r in
    let flags = &&-fst (not s.is_merged && not s.is_stray) _ h in
    let rest = &&-snd (not s.is_merged && not s.is_stray) _ h in
    (
      not-true s.is_merged (&&-fst (not s.is_merged) _ flags),
      not-true s.is_stray (&&-snd (not s.is_merged) _ flags),
      in_order_lem s (&&-fst (in_order s) _ rest),
      backward_lem s.p4.usr2_count s.p1.usr1_count (&&-snd (in_order s) _ rest),
    )

abbrev bit : Bool → ℕ
bit true = 1
bit false = 0

abbrev measure_of : Process → ℕ
measure_of p =
    4 * (p.usr1_count + p.usr2_count) + 2 * p.place + bit p.is_asleep + bit (not p.is_alive)

abbrev measure : Ring → ℕ
measure s =
    measure_of s.p1 + measure_of s.p2 + measure_of s.p3 + measure_of s.p4 + bit (s.p1.pending2 == 0)

measure_grows :
    (is_patient : Bool)
    → every_in
        (λ s. every (λ t. ltb (measure s) (measure t)) (moves is_patient s))
        (states is_patient)
      ≡ true
unfolding moves set_pending is_pending kill sigusr1_handler sigusr2_handler wake is_about_to_pause
    deliver msgrcv perform proceed times main1 main2 main3 main4 same_text same_texts
measure_grows true = refl
measure_grows false = refl

measure_bounded :
    (is_patient : Bool) → every_in (λ s. leb (measure s) 183) (states is_patient) ≡ true
unfolding moves set_pending is_pending kill sigusr1_handler sigusr2_handler wake is_about_to_pause
    deliver msgrcv perform proceed times main1 main2 main3 main4 same_text same_texts
measure_bounded true = refl
measure_bounded false = refl

-- No run of the ring, patient or not, has more than 182 moves.
pub ring_bound :
    (is_patient : Bool) {n : ℕ} {s : Ring} → Run (moves is_patient) started n s → n ≤ 182
ring_bound is_patient {s} r =
    let grown =
      run-measure (moves is_patient) key decode decode-key measure (states is_patient)
        (start-states is_patient) (states-closed is_patient) (measure_grows is_patient) r in
    let bounded =
      leb→le (measure s) 183
        (always is_patient (λ u. leb (measure u) 183) (measure_bounded is_patient) r) in
    omega (arith, grown, bounded)
