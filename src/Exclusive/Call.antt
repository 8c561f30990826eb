-- ===== src/Exclusive/Call.antt =====
-- The moves by which the holder calls the next client: it takes its id, listens and signals.
use cn_lab.Base.{
  ℕ, suc, ◌≡◌, ◌≢◌, refl, sym, ap, ◌∙◌, some, List, [], ◌∷◌, true, false, ◌==◌, arith,
}
use cn_lab.Exclusive.{Place, Client, Ess, update, at}
use cn_lab.Exclusive.Token.{
  count, Stage, alone, about, called, sending, other, holder, partner, role_of, ok, Inv,
  is_received, each_one, each_two,
}
use cn_lab.Exclusive.Keep.{not_queued}

-- The roles without the tests on ids.
pub as_holder :
    (h : ℕ) (st : Stage) (c : Client) (k : ℕ)
    → ok (role_of h st h) c k ≡ true
    → ok (holder st) c k ≡ true
unfolding ok
as_holder h st c k okh = ground arith

as_other :
    (h n : ℕ) (c : Client) (k : ℕ) → n ≢ h → ok (role_of h alone n) c k ≡ true → ok other c k ≡ true
unfolding ok
as_other h n c k ne okn = ground arith

ok-takes :
    (n : ℕ) (c : Client) (k : ℕ)
    → ok (holder alone) c k ≡ true
    → ok (holder (about n)) (record c { place = Place.listen n }) 0 ≡ true
unfolding ok
ok-takes n c k h = ground arith

ok-taken :
    (n : ℕ) (c : Client) (k : ℕ) → ok other c (suc k) ≡ true → ok (partner (about n)) c k ≡ true
unfolding ok
ok-taken n c k h = ground arith

count_ne : (q n : ℕ) (rest : List ℕ) → q ≢ n → count q (n ∷ rest) ≡ count q rest
count_ne q n rest ne = ground arith

count_self : (n : ℕ) (rest : List ℕ) → count n (n ∷ rest) ≡ suc (count n rest)
count_self n rest = ground arith

pub step-takes :
    (s : Ess) (p n : ℕ) (rest : List ℕ)
    → Inv s p alone
    → s.queue ≡ n ∷ rest
    → Inv (at (record s { queue = rest }) p (Place.listen n)) p (about n)
step-takes s p n rest i e =
    let none_of_p : count p (n ∷ rest) ≡ 0 =
      sym (ap (count p) e) ∙ not_queued p alone (s.clients p) (count p s.queue) (i.each p) in
    let ne : n ≢ p = λ f.
      let g : count p (p ∷ rest) ≡ 0 = ap (λ x. count p (x ∷ rest)) (sym f) ∙ none_of_p in
      omega (arith, g, count_self p rest) in
    let different : (n == p) ≡ false = ground arith in
    let itself : (n == n) ≡ true = ground arith in
    let none_left : count p rest ≡ 0 = omega (arith, none_of_p) in
    let same : (p == p) ≡ true = ground arith in
    record {
      each =
          each_two p alone p (about n) p n s.clients
            (update p (record (s.clients p) { place = Place.listen n }) s.clients) s.queue rest
            i.each
            (λ q np nn.
              let q_p : (q == p) ≡ false = ground arith in
              let q_n : (q == n) ≡ false = ground arith in rw (q_p, q_n, e, count_ne q n rest nn))
            (rw (same, none_left)
              (ok-takes n (s.clients p) (count p s.queue)
                (as_holder p alone (s.clients p) (count p s.queue) (i.each p))))
            (rw (different, itself)
              (ok-taken n (s.clients n) (count n rest) (
                rw (e, count_self n rest) at
                  (as_other p n (s.clients n) (count n s.queue) ne (i.each n)))));
      linked = (ne, rw same, rw same);
    }

ok-listens :
    (n : ℕ) (c : Client) (k : ℕ)
    → ok (holder (about n)) c k ≡ true
    → ok (holder (about n)) (record c { place = Place.kill n }) k ≡ true
unfolding ok
ok-listens n c k h = ground arith

pub step-listens :
    (s : Ess) (p n : ℕ)
    → Inv s p (about n)
    → Inv (at (record s { listener = some p; backlog = [] }) p (Place.kill n)) p (about n)
step-listens s p n i =
    let same : (p == p) ≡ true = ground arith in
    record {
      each =
          each_one p (about n) p (record (s.clients p) { place = Place.kill n }) s.clients s.queue
            s.queue i.each (λ q ne. refl)
            (rw same (
              ok-listens n (s.clients p) (count p s.queue)
                (as_holder p (about n) (s.clients p) (count p s.queue) (i.each p))));
      linked = (i.linked.0, rw same, rw same);
    }

pub as_partner :
    (h n : ℕ) (c : Client) (k : ℕ)
    → n ≢ h
    → (ok (role_of h (about n) n) c k ≡ true → ok (partner (about n)) c k ≡ true)
      × (ok (role_of h (called n) n) c k ≡ true → ok (partner (called n)) c k ≡ true)
      × (ok (role_of h (sending n) n) c k ≡ true → ok (partner (sending n)) c k ≡ true)
unfolding ok
as_partner h n c k ne = (λ okn. ground arith, λ okn. ground arith, λ okn. ground arith)

ok-kills :
    (n : ℕ) (c : Client) (k : ℕ)
    → ok (holder (about n)) c k ≡ true
    → ok (holder (called n)) (record c { place = Place.accept n }) k ≡ true
unfolding ok
ok-kills n c k h = ground arith

ok-killed :
    (n : ℕ) (c : Client) (k : ℕ)
    → ok (partner (about n)) c k ≡ true
    → (ok (partner (called n)) (record c { pending = true }) k ≡ true)
      × (is_received c.place ≡ false)
unfolding ok
ok-killed n c k h = ground arith

pub step-kills :
    (s : Ess) (p n : ℕ)
    → (s.clients p).place ≡ Place.kill n
    → Inv s p (about n)
    → Inv
        (record s {
          clients =
              update n
                (record (s.clients n) { pending = true })
                (update p (record (s.clients p) { place = Place.accept n }) s.clients);
        })
        p
        (called n)
step-kills s p n e i =
    let ne = i.linked.0 in
    let same : (p == p) ≡ true = ground arith in
    let itself : (n == n) ≡ true = ground arith in
    let different : (n == p) ≡ false = ground arith in
    let different' : (p == n) ≡ false = ground arith in
    let okn =
      ok-killed n (s.clients n) (count n s.queue)
        ((as_partner p n (s.clients n) (count n s.queue) ne).0 (i.each n)) in
    record {
      each =
          each_two p (about n) p (called n) p n s.clients
            (update n (record (s.clients n) { pending = true })
              (update p (record (s.clients p) { place = Place.accept n }) s.clients))
            s.queue s.queue i.each
            (λ q np nn.
              let q_p : (q == p) ≡ false = ground arith in
              let q_n : (q == n) ≡ false = ground arith in rw (q_p, q_n))
            (rw (same, different')
              (ok-kills n (s.clients p) (count p s.queue)
                (as_holder p (about n) (s.clients p) (count p s.queue) (i.each p))))
            (rw (different, itself) okn.0);
      linked = (ne, rw e at i.linked.1, rw (itself, okn.1) (rw e at i.linked.2));
    }
