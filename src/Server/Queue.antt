-- ===== src/Server/Queue.antt =====
-- Whole runs of the server: first come, first served, and what the eleventh client does.
use cn_lab.Base.{
  ℕ, ◌≤◌, ◌≡◌, refl, sym, ap, ◌∙◌, none, some, List, [], ◌∷◌, ◌++◌, length, take, length-append,
  append-nil, append_assoc, arith,
}
use mathlib.Core.Path.{subst}
use cn_lab.Server.{
  Server, max_nsfd, new_server, signals, Event, accepted, accept_failed, message, no_message,
  handle_all, round, rounds,
}
use cn_lab.Server.Arrival.{
  arrivals, all_arrivals, IsQueue, signals-IsQueue, handle-IsQueue, handle_full,
}

arrivals-cons :
    (e : Event) (events : List Event) → arrivals (e ∷ events) ≡ arrivals (e ∷ []) ++ arrivals events
arrivals-cons (accepted c_sfd) events = refl
arrivals-cons accept_failed events = refl
arrivals-cons (message msg) events = refl
arrivals-cons no_message events = refl

handle_all-IsQueue :
    (c_start c_end : ℕ) (events : List Event) (clients : List ℕ) (s : Server)
    → length (clients ++ arrivals events) ≤ max_nsfd
    → IsQueue clients s
    → (t : Server) × (handle_all c_start c_end events s ≡ some t)
      × IsQueue (clients ++ arrivals events) t
unfolding handle_all
handle_all-IsQueue c_start c_end [] clients s le q = (s, refl, rw (append-nil clients) q)
handle_all-IsQueue c_start c_end (e ∷ events) clients s le q =
    let split : clients ++ arrivals (e ∷ events)
        ≡ (clients ++ arrivals (e ∷ [])) ++ arrivals events =
      ap (λ r. clients ++ r) (arrivals-cons e events)
      ∙ sym (append_assoc clients (arrivals (e ∷ [])) (arrivals events)) in
    let all_fit = subst (λ r. length r ≤ max_nsfd) split le in
    let (u, eu, qu) =
      handle-IsQueue c_start c_end e clients s
        (omega (arith, all_fit, length-append (clients ++ arrivals (e ∷ [])) (arrivals events)))
        q in
    let (t, et, qt) =
      handle_all-IsQueue c_start c_end events (clients ++ arrivals (e ∷ [])) u all_fit qu in
    (t, rw (eu, handle_all) et, subst (λ r. IsQueue r t) (sym split) qt)

rounds-IsQueue :
    (inputs : List (ℕ × List Event)) (clients : List ℕ) (s : Server)
    → length (clients ++ all_arrivals inputs) ≤ max_nsfd
    → IsQueue clients s
    → (t : Server) × (rounds inputs s ≡ some t) × IsQueue (clients ++ all_arrivals inputs) t
unfolding rounds round
rounds-IsQueue [] clients s le q = (s, refl, rw (append-nil clients) q)
rounds-IsQueue ((interrupts, events) ∷ more) clients s le q =
    let split : clients ++ (arrivals events ++ all_arrivals more)
        ≡ (clients ++ arrivals events) ++ all_arrivals more =
      sym (append_assoc clients (arrivals events) (all_arrivals more)) in
    let all_fit = subst (λ r. length r ≤ max_nsfd) split le in
    let fit : length (clients ++ arrivals events) ≤ max_nsfd =
      omega (arith, all_fit, length-append (clients ++ arrivals events) (all_arrivals more)) in
    let few : length clients ≤ max_nsfd =
      omega (arith, fit, length-append clients (arrivals events)) in
    let (u, eu, qu) =
      handle_all-IsQueue s.nsfd_start s.nsfd_count events clients (signals interrupts s) fit
        (signals-IsQueue interrupts clients s few q) in
    let (t, et, qt) = rounds-IsQueue more (clients ++ arrivals events) u all_fit qu in
    (t, rw (eu, rounds) et, subst (λ r. IsQueue r t) (sym split) qt)

new_server-IsQueue : IsQueue [] new_server
new_server-IsQueue = record {
  kept = refl;
  counted = refl;
  ten = refl;
  within = omega arith;
  handed = refl;
}

-- Over any rounds of the server, with any signals while poll blocks, in which at most ten clients
-- come: nothing is written past nsfds, nsfd_count is the number of clients that came, nsfd_start is
-- at most that, and the clients handed to the echo server are the first nsfd_start that came, each
-- once and in the order of arrival.
pub rounds_lem :
    (inputs : List (ℕ × List Event))
    → length (all_arrivals inputs) ≤ max_nsfd
    → (t : Server) × (rounds inputs new_server ≡ some t)
      × (t.nsfd_count ≡ length (all_arrivals inputs))
      × (t.nsfd_start ≤ t.nsfd_count)
      × (t.echoed ≡ take t.nsfd_start (all_arrivals inputs))
rounds_lem inputs le =
    let (t, e, q) = rounds-IsQueue inputs [] new_server le new_server-IsQueue in
    (t, e, q.counted, q.within, q.handed)

-- After any rounds in which ten clients came, the next client that is accepted is written past
-- nsfds, also if all ten have been handed to the echo server.
pub rounds_full :
    (inputs : List (ℕ × List Event)) (interrupts c_sfd : ℕ) (events : List Event)
    → length (all_arrivals inputs) ≡ max_nsfd
    → (t : Server) × (rounds inputs new_server ≡ some t)
      × (round interrupts (accepted c_sfd ∷ events) t ≡ none)
unfolding round handle_all
rounds_full inputs interrupts c_sfd events full =
    let le : length (all_arrivals inputs) ≤ max_nsfd = omega (arith, full) in
    let (t, e, q) = rounds-IsQueue inputs [] new_server le new_server-IsQueue in
    let past =
      handle_full t.nsfd_start t.nsfd_count c_sfd (all_arrivals inputs) (signals interrupts t) full
        (signals-IsQueue interrupts (all_arrivals inputs) t le q) in
    (t, e, rw (past, handle_all))
