-- ===== src/Server/Arrival.antt =====
-- The order in which clients are served, and the array that they are kept in.
use cn_lab.Base.{
  ℕ, zero, suc, ◌+◌, ◌-◌, ◌≤◌, ◌<◌, ◌≡◌, refl, sym, ap, ◌∙◌, none, some, List, [], ◌∷◌, ◌++◌, true,
  false, inl, inr, ltb, ltb→lt, Bool-cases, length, get_or, set, take, length-set, length-append,
  append-nil, arith,
}
use cn_lab.Server.{
  Server, max_nsfd, sig_usr1_handler, signals, Event, accepted, accept_failed, message, no_message,
  broadcast, handle,
}

-- The clients that the events bring, in order.
abbrev pub arrivals : List Event → List ℕ
arrivals [] = []
arrivals (accepted c_sfd ∷ events) = c_sfd ∷ arrivals events
arrivals (_ ∷ events) = arrivals events

abbrev pub all_arrivals : List (ℕ × List Event) → List ℕ
all_arrivals [] = []
all_arrivals ((interrupts, events) ∷ more) = arrivals events ++ all_arrivals more

-- The clients so far are the front of the array, and those before nsfd_start have been handed on.
pub record IsQueue (clients : List ℕ) (s : Server) : Type 0 where
  pub kept : take s.nsfd_count s.nsfds ≡ clients
  pub counted : s.nsfd_count ≡ length clients
  pub ten : length s.nsfds ≡ max_nsfd
  pub within : s.nsfd_start ≤ s.nsfd_count
  pub handed : s.echoed ≡ take s.nsfd_start clients

next_number : (n : ℕ) → n + 1 ≡ suc n
next_number n = omega arith

take-set : (xs : List ℕ) (n a : ℕ) → n < length xs → take (suc n) (set xs n a) ≡ take n xs ++ a ∷ []
take-set [] n a h = absurd (omega arith)
take-set (x ∷ xs) zero a h = refl
take-set (x ∷ xs) (suc n) a h = ap (λ r. x ∷ r) (take-set xs n a (omega arith))

take_one_more :
    (xs clients : List ℕ) (c n : ℕ)
    → take c xs ≡ clients
    → n < c
    → c ≤ length xs
    → take (suc n) clients ≡ take n clients ++ get_or xs n 0 ∷ []
take_one_more [] clients c n e h le = absurd (omega arith)
take_one_more (x ∷ xs) clients zero n e h le = absurd (omega arith)
take_one_more (x ∷ xs) clients (suc c) zero e h le = rw (sym e)
take_one_more (x ∷ xs) clients (suc c) (suc n) e h le =
    rw (sym e) (ap (λ r. x ∷ r) (take_one_more xs (take c xs) c n refl (omega arith) (omega arith)))

take-append : (xs ys : List ℕ) (n : ℕ) → n ≤ length xs → take n (xs ++ ys) ≡ take n xs
take-append [] ys zero h = refl
take-append [] ys (suc n) h = absurd (omega arith)
take-append (x ∷ xs) ys zero h = refl
take-append (x ∷ xs) ys (suc n) h = ap (λ r. x ∷ r) (take-append xs ys n (omega arith))

sig_usr1_handler-IsQueue :
    (clients : List ℕ) (s : Server)
    → length clients ≤ max_nsfd
    → IsQueue clients s
    → IsQueue clients (sig_usr1_handler s)
unfolding sig_usr1_handler
sig_usr1_handler-IsQueue clients s le q = elim (Bool-cases (ltb s.nsfd_start s.nsfd_count)) [
  | inl more ↦ rw more (record {
    kept = q.kept;
    counted = q.counted;
    ten = q.ten;
    within = ground (arith, q.within);
    handed =
        ap (λ r. r ++ get_or s.nsfds s.nsfd_start 0 ∷ []) q.handed
        ∙ sym (
            ap (λ k. take k clients) (next_number s.nsfd_start)
            ∙ take_one_more s.nsfds clients s.nsfd_count s.nsfd_start q.kept
                (ltb→lt s.nsfd_start s.nsfd_count more) (omega (arith, le, q.counted, q.ten)));
  })
  | inr done ↦ rw done q
]

pub signals-IsQueue :
    (n : ℕ) (clients : List ℕ) (s : Server)
    → length clients ≤ max_nsfd
    → IsQueue clients s
    → IsQueue clients (signals n s)
unfolding signals
signals-IsQueue zero clients s le q = q
signals-IsQueue (suc n) clients s le q =
    signals-IsQueue n clients (sig_usr1_handler s) le (sig_usr1_handler-IsQueue clients s le q)

broadcast-IsQueue :
    (j n : ℕ) (msg : List ℕ) (clients : List ℕ) (s : Server)
    → IsQueue clients s
    → IsQueue clients (broadcast j n msg s)
unfolding broadcast
broadcast-IsQueue j zero msg clients s q = q
broadcast-IsQueue j (suc n) msg clients s q =
    broadcast-IsQueue (j + 1) n msg clients
      (record s { sent = s.sent ++ (get_or s.nsfds j 0, msg) ∷ [] })
      (record {
        kept = q.kept;
        counted = q.counted;
        ten = q.ten;
        within = q.within;
        handed = q.handed;
      })

accept-IsQueue :
    (c_start c_end c_sfd : ℕ) (clients : List ℕ) (s : Server)
    → length clients < max_nsfd
    → IsQueue clients s
    → (t : Server) × (handle c_start c_end (accepted c_sfd) s ≡ some t)
      × IsQueue (clients ++ c_sfd ∷ []) t
unfolding handle
accept-IsQueue c_start c_end c_sfd clients s lt q =
    let room : ltb s.nsfd_count max_nsfd ≡ true = ground (arith, q.counted) in
    (
      record s { nsfds = set s.nsfds s.nsfd_count c_sfd; nsfd_count = s.nsfd_count + 1 },
      rw room,
      record {
        kept =
            ap (λ k. take k (set s.nsfds s.nsfd_count c_sfd)) (next_number s.nsfd_count)
            ∙ take-set s.nsfds s.nsfd_count c_sfd (omega (arith, q.counted, q.ten))
            ∙ ap (λ r. r ++ c_sfd ∷ []) q.kept;
        counted = omega (arith, q.counted, length-append clients (c_sfd ∷ []));
        ten = length-set s.nsfds s.nsfd_count c_sfd ∙ q.ten;
        within = omega (arith, q.within);
        handed =
            q.handed
            ∙ sym (
                take-append clients (c_sfd ∷ []) s.nsfd_start (omega (arith, q.within, q.counted)));
      },
    )

pub handle-IsQueue :
    (c_start c_end : ℕ) (e : Event) (clients : List ℕ) (s : Server)
    → length (clients ++ arrivals (e ∷ [])) ≤ max_nsfd
    → IsQueue clients s
    → (t : Server) × (handle c_start c_end e s ≡ some t) × IsQueue (clients ++ arrivals (e ∷ [])) t
handle-IsQueue c_start c_end (accepted c_sfd) clients s le q =
    accept-IsQueue c_start c_end c_sfd clients s
      (omega (arith, le, length-append clients (c_sfd ∷ []))) q
handle-IsQueue c_start c_end accept_failed clients s le q =
    unfold handle in (s, refl, rw (append-nil clients) q)
handle-IsQueue c_start c_end (message msg) clients s le q =
    unfold handle in
    (
      broadcast c_start (c_end - c_start) msg s,
      refl,
      rw (append-nil clients) (broadcast-IsQueue c_start (c_end - c_start) msg clients s q),
    )
handle-IsQueue c_start c_end no_message clients s le q =
    unfold handle in (s, refl, rw (append-nil clients) q)

pub handle_full :
    (c_start c_end c_sfd : ℕ) (clients : List ℕ) (s : Server)
    → length clients ≡ max_nsfd
    → IsQueue clients s
    → handle c_start c_end (accepted c_sfd) s ≡ none
unfolding handle
handle_full c_start c_end c_sfd clients s full q =
    let no_room : ltb s.nsfd_count max_nsfd ≡ false = ground (arith, q.counted, full) in rw no_room
