-- ===== src/Exclusive/Token.antt =====
-- Who holds the connection: one client at a time, and at most one more that it is being passed to.
use cn_lab.Base.{
  ℕ, ◌+◌, ◌≡◌, ◌≢◌, refl, sym, ◌∙◌, inl, inr, some, List, [], ◌∷◌, ◌++◌, Bool, true, false, not,
  ◌&&◌, ◌==◌, ==_iff, if◌then◌else◌, Bool-cases, arith,
}
use mathlib.Core.Path.{subst}
use cn_lab.Exclusive.{Place, Client, Ess, update, woken}

abbrev pub count : ℕ → List ℕ → ℕ
count q [] = 0
count q (x ∷ xs) = (if q == x then 1 else 0) + count q xs

-- How far the holder is: it has the connection for itself, or has taken the next client's id from
-- the queue, has signalled that client, or has accepted its connection.
pub data Stage : Type 0 where
  alone : Stage
  about called sending : (n : ℕ) → Stage

pub data Role : Type 0 where
  other : Role
  holder partner : Stage → Role

abbrev pub is_partner : Stage → ℕ → Bool
is_partner alone q = false
is_partner (about n) q = q == n
is_partner (called n) q = q == n
is_partner (sending n) q = q == n

abbrev pub role_of : ℕ → Stage → ℕ → Role
role_of h st q = if q == h then holder st else if is_partner st q then partner st else other

abbrev is_quiet : Client → Bool
is_quiet c = not c.pending && not c.ready && not c.granted

abbrev is_called : Client → Bool
is_called c = if c.pending then not c.ready else c.ready

-- What a client looks like in its role, and how often its id stands in the queue.
abbrev ok_other : Client → ℕ → Bool
ok_other c k = elim c.place [
  | Place.msgsnd ↦ is_quiet c && k == 0
  | Place.test_ready ↦ is_quiet c && k == 1
  | Place.pause ↦ is_quiet c && k == 1
  | Place.asleep ↦ is_quiet c && k == 1
  | Place.exited ↦ not c.pending && k == 0
  | _ ↦ false
]

abbrev ok_holder : Stage → Client → ℕ → Bool
ok_holder alone c k = not c.pending && k == 0 && elim c.place [
  | Place.recv_fd ↦ c.granted
  | Place.serve ↦ true
  | Place.msgrcv ↦ true
  | _ ↦ false
]
ok_holder (about n) c k =
    not c.pending
    && k == 0
    && elim c.place [ Place.listen m ↦ m == n | Place.kill m ↦ m == n | _ ↦ false ]
ok_holder (called n) c k =
    not c.pending && k == 0 && elim c.place [ Place.accept m ↦ m == n | _ ↦ false ]
ok_holder (sending n) c k =
    not c.pending && k == 0 && elim c.place [ Place.send_fd m ↦ m == n | _ ↦ false ]

abbrev is_waiting : Place → Bool
is_waiting p = elim p [
  | Place.test_ready ↦ true
  | Place.pause ↦ true
  | Place.asleep ↦ true
  | _ ↦ false
]

abbrev ok_partner : Stage → Client → ℕ → Bool
ok_partner alone c k = false
ok_partner (about n) c k = is_quiet c && k == 0 && is_waiting c.place
ok_partner (called n) c k = not c.granted && k == 0 && elim c.place [
  | Place.test_ready ↦ is_called c
  | Place.pause ↦ is_called c
  | Place.asleep ↦ is_called c
  | Place.connect ↦ not c.pending && c.ready
  | Place.recv_fd ↦ not c.pending
  | _ ↦ false
]
ok_partner (sending n) c k =
    not c.granted && k == 0 && not c.pending && elim c.place [ Place.recv_fd ↦ true | _ ↦ false ]

unfoldable pub ok : Role → Client → ℕ → Bool
ok other c k = ok_other c k
ok (holder st) c k = ok_holder st c k
ok (partner st) c k = ok_partner st c k

abbrev pub is_received : Place → Bool
is_received p = elim p [ Place.recv_fd ↦ true | _ ↦ false ]

abbrev pub is_bound : Place → Bool
is_bound p = elim p [ Place.kill n ↦ true | _ ↦ false ]

-- The connection between the holder and its partner, from when the holder's socket is bound.
abbrev pub Link : Ess → ℕ → Stage → Type 0
Link s h alone = Unit
Link s h (about n) =
    (n ≢ h)
    × ((if is_bound (s.clients h).place then s.listener else some h) ≡ some h)
    × ((if is_bound (s.clients h).place then s.backlog else []) ≡ [])
Link s h (called n) =
    (n ≢ h)
    × (s.listener ≡ some h)
    × (s.backlog ≡ (if is_received (s.clients n).place then n ∷ [] else []))
Link s h (sending n) = n ≢ h

pub record Inv (s : Ess) (h : ℕ) (st : Stage) : Type 0 where
  pub each : (q : ℕ) → ok (role_of h st q) (s.clients q) (count q s.queue) ≡ true
  pub linked : Link s h st

pub ne_of_test : (a b : ℕ) → (a == b) ≡ false → a ≢ b
ne_of_test a b h = ground arith

-- A client that moves within its role, and whose part of the queue alone may change.
pub each_one :
    (h : ℕ) (st : Stage) (p : ℕ) (c : Client) (clients : ℕ → Client) (queue queue' : List ℕ)
    → ((q : ℕ) → ok (role_of h st q) (clients q) (count q queue) ≡ true)
    → ((q : ℕ) → q ≢ p → count q queue' ≡ count q queue)
    → ok (role_of h st p) c (count p queue') ≡ true
    → (q : ℕ) → ok (role_of h st q) (update p c clients q) (count q queue') ≡ true
each_one h st p c clients queue queue' each same okp q = elim (Bool-cases (q == p)) [
  | inl e ↦ let f = (==_iff q p).0 e in rw (f, (==_iff p p).1 refl) okp
  | inr e ↦ rw (e, same q (λ f. cc (e, (==_iff q p).1 f))) (each q)
]

-- Two clients move, and their roles may change.
pub each_two :
    (h : ℕ) (st : Stage) (h' : ℕ) (st' : Stage) (a b : ℕ) (clients clients' : ℕ → Client)
    (queue queue' : List ℕ)
    → ((q : ℕ) → ok (role_of h st q) (clients q) (count q queue) ≡ true)
    → ((q : ℕ)
        → q ≢ a
        → q ≢ b
        → ok (role_of h' st' q) (clients' q) (count q queue')
          ≡ ok (role_of h st q) (clients q) (count q queue))
    → ok (role_of h' st' a) (clients' a) (count a queue') ≡ true
    → ok (role_of h' st' b) (clients' b) (count b queue') ≡ true
    → (q : ℕ) → ok (role_of h' st' q) (clients' q) (count q queue') ≡ true
each_two h st h' st' a b clients clients' queue queue' each same oka okb q =
    elim (Bool-cases (q == a)) [
      | inl e ↦
          subst (λ r. ok (role_of h' st' r) (clients' r) (count r queue') ≡ true)
            (sym ((==_iff q a).0 e)) oka
      | inr e ↦ elim (Bool-cases (q == b)) [
        | inl g ↦
            subst (λ r. ok (role_of h' st' r) (clients' r) (count r queue') ≡ true)
              (sym ((==_iff q b).0 g)) okb
        | inr g ↦ same q (ne_of_test q a e) (ne_of_test q b g) ∙ each q
      ]
    ]

pub count-append :
    (q : ℕ) (xs : List ℕ) (p : ℕ) → count q (xs ++ p ∷ []) ≡ count q xs + (if q == p then 1 else 0)
count-append q [] p = omega arith
count-append q (x ∷ xs) p = omega (arith, count-append q xs p)

pub ok-enters :
    (r : Role) (c : Client) (k : ℕ)
    → ok r c k ≡ true
    → c.place ≡ Place.msgsnd
    → ok r (record c { place = Place.test_ready }) (k + 1) ≡ true
unfolding ok
ok-enters r c k h e = ground arith

pub ok-is_ready :
    (r : Role) (c : Client) (k : ℕ)
    → ok r c k ≡ true
    → c.place ≡ Place.test_ready
    → c.ready ≡ true
    → ok r (record c { place = Place.connect }) k ≡ true
unfolding ok
ok-is_ready r c k h e f = ground arith

pub ok-handler :
    (r : Role) (c : Client) (k : ℕ)
    → ok r c k ≡ true
    → c.pending ≡ true
    → ok r (record c { place = woken c.place; pending = false; ready = true }) k ≡ true
unfolding ok woken
ok-handler r c k h e = ground arith

pub ok-sleeps :
    (r : Role) (c : Client) (k : ℕ)
    → ok r c k ≡ true
    → c.place ≡ Place.pause
    → ok r (record c { place = Place.asleep }) k ≡ true
unfolding ok
ok-sleeps r c k h e = ground arith

pub ok-is_not_ready :
    (r : Role) (c : Client) (k : ℕ)
    → ok r c k ≡ true
    → c.place ≡ Place.test_ready
    → ok r (record c { place = Place.pause }) k ≡ true
unfolding ok
ok-is_not_ready r c k h e = ground arith

-- What a client in a place that only one role has tells of its role.
pub alone_of_serve :
    (h p : ℕ) (st : Stage) (c : Client) (k : ℕ)
    → ok (role_of h st p) c k ≡ true
    → c.place ≡ Place.serve
    → (p ≡ h) × (st ≡ alone)
unfolding ok
alone_of_serve h p st c k okp e = ground arith

pub alone_of_msgrcv :
    (h p : ℕ) (st : Stage) (c : Client) (k : ℕ)
    → ok (role_of h st p) c k ≡ true
    → c.place ≡ Place.msgrcv
    → (p ≡ h) × (st ≡ alone)
unfolding ok
alone_of_msgrcv h p st c k okp e = ground arith

pub alone_of_granted :
    (h p : ℕ) (st : Stage) (c : Client) (k : ℕ)
    → ok (role_of h st p) c k ≡ true
    → c.place ≡ Place.recv_fd
    → c.granted ≡ true
    → (p ≡ h) × (st ≡ alone)
unfolding ok
alone_of_granted h p st c k okp e f = ground arith

pub about_of_listen :
    (h p : ℕ) (st : Stage) (c : Client) (k : ℕ) (n : ℕ)
    → ok (role_of h st p) c k ≡ true
    → c.place ≡ Place.listen n
    → (p ≡ h) × (st ≡ about n)
unfolding ok
about_of_listen h p st c k n okp e = ground arith

pub about_of_kill :
    (h p : ℕ) (st : Stage) (c : Client) (k : ℕ) (n : ℕ)
    → ok (role_of h st p) c k ≡ true
    → c.place ≡ Place.kill n
    → (p ≡ h) × (st ≡ about n)
unfolding ok
about_of_kill h p st c k n okp e = ground arith

pub called_of_accept :
    (h p : ℕ) (st : Stage) (c : Client) (k : ℕ) (n : ℕ)
    → ok (role_of h st p) c k ≡ true
    → c.place ≡ Place.accept n
    → (p ≡ h) × (st ≡ called n)
unfolding ok
called_of_accept h p st c k n okp e = ground arith

pub sending_of_send_fd :
    (h p : ℕ) (st : Stage) (c : Client) (k : ℕ) (n : ℕ)
    → ok (role_of h st p) c k ≡ true
    → c.place ≡ Place.send_fd n
    → (p ≡ h) × (st ≡ sending n)
unfolding ok
sending_of_send_fd h p st c k n okp e = ground arith

pub called_of_connect :
    (h p : ℕ) (st : Stage) (c : Client) (k : ℕ)
    → ok (role_of h st p) c k ≡ true
    → c.place ≡ Place.connect
    → (p ≢ h) × (st ≡ called p)
unfolding ok
called_of_connect h p st c k okp e = ground arith
