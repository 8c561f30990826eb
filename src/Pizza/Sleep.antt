-- ===== src/Pizza/Sleep.antt =====
-- The boss's sleep and the signal that ends it.
use cn_lab.Base.{
  ℕ, suc, ◌+◌, ◌≤◌, ◌≡◌, ◌≢◌, refl, ap, sym, ◌∙◌, List, [], ◌∷◌, ◌++◌, Bool, false, ◌==◌,
  if◌then◌else◌, Bool-cases, ◌⊎◌, inl, inr, arith,
}
use cn_lab.Pizza.{
  Boss, Message, Waiter, Shop, opened, woken, Step, by_boss, by_waiter, by_boy, accepts, chooses,
  sends_fd, sends_combo, sleeps, sigusr1_handler, passes, waiter_recv_fd, waiter_recv_combo,
  waiter_recv_items, waiter_kill, waiter_send, boy_recv_fd, boy_poll, boy_recv, boy_send, Reach,
  here, later,
}

-- How many customers a waiter has been sent for whom it has not signalled yet.
abbrev asked_for : List Message → ℕ
asked_for [] = 0
asked_for (Message.customer c ∷ ms) = suc (asked_for ms)
asked_for (Message.combo c ∷ ms) = asked_for ms

abbrev occupied : Waiter → ℕ
occupied Waiter.recv_fd = 0
occupied (Waiter.recv_combo c) = 1
occupied (Waiter.recv_items c) = 1
occupied (Waiter.kill t) = 1
occupied (Waiter.send t) = 0

abbrev pub in_hand : Shop → ℕ → ℕ
in_hand s w = occupied (s.waiters w) + asked_for (s.orders w)

abbrev pub bit : Bool → ℕ
bit b = if b then 1 else 0

-- The signals that are still to come to the boss: those pending and those its waiter will send.
abbrev pub due : Shop → ℕ
due s = in_hand s s.chosen + bit s.pending

-- Whether the boss has sent a customer to a waiter and has not been woken for it.
abbrev pub waits : Boss → ℕ
waits (Boss.send_combo c) = 1
waits (Boss.pause c) = 1
waits (Boss.asleep c) = 1
waits _ = 0

pub record IsOrderly (s : Shop) : Type 0 where
  pub elsewhere : (v : ℕ) → v ≢ s.chosen → in_hand s v ≡ 0
  pub signals : due s ≤ waits s.boss

asked_for-append : (xs ys : List Message) → asked_for (xs ++ ys) ≡ asked_for xs + asked_for ys
asked_for-append [] ys = omega arith
asked_for-append (Message.customer c ∷ xs) ys = omega (arith, asked_for-append xs ys)
asked_for-append (Message.combo c ∷ xs) ys = asked_for-append xs ys

-- A move that neither signals nor gives a waiter a customer.
work-IsOrderly :
    (s t : Shop)
    → t.chosen ≡ s.chosen
    → waits t.boss ≡ waits s.boss
    → t.pending ≡ s.pending
    → ((v : ℕ) → in_hand t v ≡ in_hand s v)
    → IsOrderly s
    → IsOrderly t
work-IsOrderly s t chosen boss pending same i = record {
  elsewhere = λ v ne. same v ∙ i.elsewhere v (rw chosen at ne);
  signals = rw (boss, same t.chosen, chosen, pending) i.signals;
}

none_in_hand : (s : Shop) → IsOrderly s → due s ≡ 0 → (v : ℕ) → in_hand s v ≡ 0
none_in_hand s i none_due v = elim (Bool-cases (v == s.chosen)) [
  | inl same ↦ let e : v ≡ s.chosen = ground arith in rw e (omega (arith, none_due))
  | inr other ↦ i.elsewhere v (ground arith)
]

quiet : (s : Shop) → IsOrderly s → waits s.boss ≡ 0 → (v : ℕ) → in_hand s v ≡ 0
quiet s i none_waits v = none_in_hand s i (omega (arith, i.signals, none_waits)) v

-- The boss's waiter is the only one with a customer in hand.
chosen_in_hand : (s : Shop) → IsOrderly s → (v : ℕ) → 1 ≤ in_hand s v → v ≡ s.chosen
chosen_in_hand s i v busy = elim (Bool-cases (v == s.chosen)) [
  | inl same ↦ ground arith
  | inr other ↦ absurd (omega (arith, busy, i.elsewhere v (ground arith)))
]

waits_at_most : (b : Boss) → waits b ≤ 1
waits_at_most b = ground arith

waits-woken : (b : Boss) (k : ℕ) → k + 1 ≤ waits b → k + 0 ≤ waits (woken b)
unfolding woken
waits-woken b k h = ground arith

module _ (items : ℕ → List ℕ) (may : ℕ → Bool) where
  step-IsOrderly : (s t : Shop) → Step items may s t → IsOrderly s → IsOrderly t
  step-IsOrderly s _ (by_boss (accepts b)) i = record {
    elsewhere = i.elsewhere;
    signals = rw b at i.signals;
  }
  step-IsOrderly s _ (by_boss (chooses c w b _ _)) i = record {
    elsewhere = λ v ne. quiet s i (ap waits b) v;
    signals = omega (arith, quiet s i (ap waits b) w, i.signals, ap waits b);
  }
  step-IsOrderly s _ (by_boss (sends_fd c b)) i =
      let none_due : due s ≡ 0 = omega (arith, i.signals, ap waits b) in
      record {
        elsewhere = λ v ne. ground (arith, i.elsewhere v ne);
        signals =
            ground
              (arith, none_due, asked_for-append (s.orders s.chosen) (Message.customer c ∷ []));
      }
  step-IsOrderly s _ (by_boss (sends_combo c b)) i =
      work-IsOrderly s _ refl (sym (ap waits b)) refl
        (λ v. ground (arith, asked_for-append (s.orders s.chosen) (Message.combo c ∷ []))) i
  step-IsOrderly s _ (by_boss (sleeps c b)) i = record {
    elsewhere = i.elsewhere;
    signals = rw b at i.signals;
  }
  step-IsOrderly s _ (by_boss (sigusr1_handler p)) i = record {
    elsewhere = i.elsewhere;
    signals = waits-woken s.boss (in_hand s s.chosen) (rw p at i.signals);
  }
  step-IsOrderly s _ (by_boss (passes c b)) i = record {
    elsewhere = i.elsewhere;
    signals = rw b at i.signals;
  }
  step-IsOrderly s _ (by_waiter (waiter_recv_fd v c rest p q)) i =
      work-IsOrderly s _ refl refl refl (λ u. ground (arith, p, q)) i
  step-IsOrderly s _ (by_waiter (waiter_recv_combo v c d rest p q)) i =
      work-IsOrderly s _ refl refl refl (λ u. ground (arith, p, q)) i
  step-IsOrderly s _ (by_waiter (waiter_recv_items v c p)) i =
      work-IsOrderly s _ refl refl refl (λ u. ground (arith, p)) i
  step-IsOrderly s _ (by_waiter (waiter_kill v t p)) i =
      let e = chosen_in_hand s i v (rw p (omega arith)) in
      record {
        elsewhere = λ u ne. ground (arith, i.elsewhere u ne, e);
        signals =
            let p_chosen : s.waiters s.chosen ≡ Waiter.kill t = rw e at p in
            let at_most : 1 + asked_for (s.orders s.chosen) + bit s.pending ≤ waits s.boss =
              rw p_chosen at i.signals in
            ground (arith, at_most, waits_at_most s.boss, e);
      }
  step-IsOrderly s _ (by_waiter (waiter_send v t p)) i =
      work-IsOrderly s _ refl refl refl (λ u. ground (arith, p)) i
  step-IsOrderly s _ (by_boy (boy_recv_fd c rest b q)) i = record {
    elsewhere = i.elsewhere;
    signals = i.signals;
  }
  step-IsOrderly s _ (by_boy (boy_poll c v b _)) i = record {
    elsewhere = i.elsewhere;
    signals = i.signals;
  }
  step-IsOrderly s _ (by_boy (boy_recv c v t rest b q)) i = record {
    elsewhere = i.elsewhere;
    signals = i.signals;
  }
  step-IsOrderly s _ (by_boy (boy_send c t b)) i = record {
    elsewhere = i.elsewhere;
    signals = i.signals;
  }

  started-IsOrderly : IsOrderly opened
  unfolding opened
  started-IsOrderly = record { elsewhere = λ v ne. refl; signals = omega arith }

  pub reach-IsOrderly : {s : Shop} → Reach items may opened s → IsOrderly s
  reach-IsOrderly here = started-IsOrderly
  reach-IsOrderly (later {s} {t} r step) = step-IsOrderly s t step (reach-IsOrderly r)

  -- Whatever the order of the moves, no waiter but the one that the boss has chosen has a customer
  -- for whom it has not signalled, that one has at most one and only while the boss waits for the
  -- signal, and when the boss accepts or passes a customer no signal is pending.
  pub one_customer :
      {s : Shop} (w : ℕ)
      → Reach items may opened s
      → (in_hand s w + bit s.pending ≤ waits s.boss) × ((w ≡ s.chosen) ⊎ (in_hand s w ≡ 0))
  one_customer {s} w r =
      let i = reach-IsOrderly r in
      elim (Bool-cases (w == s.chosen)) [
        | inl same ↦ let e : w ≡ s.chosen = ground arith in (rw e i.signals, inl e)
        | inr other ↦
            let none_here = i.elsewhere w (ground arith) in
            (omega (arith, none_here, i.signals), inr none_here)
      ]

  -- A boss that no signal will wake sleeps on.
  asleep-step :
      (c : ℕ) (s t : Shop)
      → Step items may s t
      → s.boss ≡ Boss.asleep c
      → s.pending ≡ false
      → ((v : ℕ) → in_hand s v ≡ 0)
      → (t.boss ≡ Boss.asleep c) × (t.pending ≡ false) × ((v : ℕ) → in_hand t v ≡ 0)
  asleep-step c s _ (by_boss (accepts b)) a p q = absurd (cc)
  asleep-step c s _ (by_boss (chooses d w b _ _)) a p q = absurd (cc)
  asleep-step c s _ (by_boss (sends_fd d b)) a p q = absurd (cc)
  asleep-step c s _ (by_boss (sends_combo d b)) a p q = absurd (cc)
  asleep-step c s _ (by_boss (sleeps d b)) a p q = absurd (cc)
  asleep-step c s _ (by_boss (sigusr1_handler m)) a p q = absurd (cc)
  asleep-step c s _ (by_boss (passes d b)) a p q = absurd (cc)
  asleep-step c s _ (by_waiter (waiter_recv_fd w d rest m n)) a p q =
      let busy = q w in absurd (omega (arith, (rw (m, n) at busy)))
  asleep-step c s _ (by_waiter (waiter_recv_combo w d _ rest m n)) a p q =
      let busy = q w in absurd (omega (arith, (rw (m, n) at busy)))
  asleep-step c s _ (by_waiter (waiter_recv_items w d m)) a p q =
      let busy = q w in absurd (omega (arith, (rw m at busy)))
  asleep-step c s _ (by_waiter (waiter_kill w text m)) a p q =
      let busy = q w in absurd (omega (arith, (rw m at busy)))
  asleep-step c s _ (by_waiter (waiter_send w text m)) a p q = (a, p, λ u. ground (arith, m, q u))
  asleep-step c s _ (by_boy (boy_recv_fd d rest _ _)) a p q = (a, p, q)
  asleep-step c s _ (by_boy (boy_poll d w _ _)) a p q = (a, p, q)
  asleep-step c s _ (by_boy (boy_recv d w text rest _ _)) a p q = (a, p, q)
  asleep-step c s _ (by_boy (boy_send d text _)) a p q = (a, p, q)

  asleep-reach :
      {c : ℕ} {s t : Shop}
      → Reach items may s t
      → s.boss ≡ Boss.asleep c
      → s.pending ≡ false
      → ((v : ℕ) → in_hand s v ≡ 0)
      → (t.boss ≡ Boss.asleep c) × (t.pending ≡ false) × ((v : ℕ) → in_hand t v ≡ 0)
  asleep-reach here a p q = (a, p, q)
  asleep-reach {c} (later {s = u} {t = v} r step) a p q =
      let (b, m, n) = asleep-reach {c = c} r a p q in asleep-step c u v step b m n

  -- A boss in pause() either has exactly one signal to come, or it lost that signal before the call,
  -- and then it stays in pause() whatever the others do: no further customer is served.
  pub oversleeps :
      {c : ℕ} {s t : Shop}
      → Reach items may opened s
      → s.boss ≡ Boss.asleep c
      → Reach items may s t
      → (due s ≡ 1) ⊎ (t.boss ≡ Boss.asleep c)
  oversleeps {c} {s} {t} r a later_on =
      let i = reach-IsOrderly r in
      let at_most : due s ≤ 1 = omega (arith, i.signals, waits_at_most s.boss) in
      elim (Bool-cases (due s == 1)) [
        | inl one ↦ inl (ground arith)
        | inr other ↦
            let lost : due s ≡ 0 = ground arith in
            inr (asleep-reach later_on a (ground (arith, lost)) (none_in_hand s i lost)).0
      ]
