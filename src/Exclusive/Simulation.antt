-- ===== src/Exclusive/Simulation.antt =====
-- Every move of the clients keeps the invariant and the relation to the abstract service.
use cn_lab.Base.{
  ℕ, List, ◌≡◌, refl, sym, ap, ◌∙◌, some, [], ◌∷◌, ◌++◌, true, false, ◌==◌, append_assoc, arith,
}
use cn_lab.Exclusive.{
  Place, Client, Ess, Step, woken, enters, is_ready, is_not_ready, sleeps, sig_usr1_handler,
  cli_uds_conn, is_refused, receives, serves, takes, serv_uds_listen, kills, accepts, sends,
}
use cn_lab.Exclusive.Token.{
  count, Stage, alone, about, called, sending, role_of, Inv, ok-is_ready, ok-handler, ok-sleeps,
  ok-is_not_ready, alone_of_serve, alone_of_msgrcv, alone_of_granted, about_of_listen,
  about_of_kill, called_of_accept, sending_of_send_fd, called_of_connect,
}
use cn_lab.Exclusive.Keep.{
  Inv-holder, step-enters, step-stays, step-receives, step-serves, woken-received, woken-bound,
}
use cn_lab.Exclusive.Call.{step-takes, step-listens, step-kills}
use cn_lab.Exclusive.Pass.{step-accepts, step-sends, step-connects, place_of_partner}
use cn_lab.Exclusive.Turns.{
  Service, joins, next, entered_by, is_unserved, front, front_move, waiting, Simulates, rests,
}
use mathlib.Core.Path.{subst}

pub itself : (n : ℕ) → (n == n) ≡ true
itself n = ground arith

moved :
    (first : ℕ) (joined : List ℕ) (s : Ess) (h p : ℕ) (st st' : Stage)
    → Service first joined (waiting h st s) s.served
    → (p ≡ h) × (st ≡ st')
    → Service first joined (waiting p st' s) s.served
moved first joined s h p st st' service (e, f) =
    subst (λ x. Service first joined (waiting x st' s) s.served) (sym e)
      (subst (λ x. Service first joined (waiting h x s) s.served) f service)

woken-unserved : (p : Place) → is_unserved (woken p) ≡ is_unserved p
unfolding woken
woken-unserved p = ground arith

-- Every move keeps the invariant, and is a move of the abstract service or none.
pub step-Simulates :
    {first : ℕ} (joined : List ℕ) (s t : Ess) (h : ℕ) (st : Stage)
    → Inv s h st
    → Service first joined (waiting h st s) s.served
    → (step : Step s t) → Simulates first (entered_by joined step) t
unfolding entered_by
step-Simulates {first} joined s t h st i service (enters p e) = record {
  h = h;
  st = st;
  inv = step-enters s h st p i e;
  service =
      subst (λ w. Service first (joined ++ p ∷ []) w s.served)
        (append_assoc (front h st s.clients) s.queue (p ∷ [])
          ∙ ap (λ f. f ++ (s.queue ++ p ∷ []))
              (sym (
                front_move h st p (record (s.clients p) { place = Place.test_ready }) s.clients
                  (rw e))))
        (joins p service);
}
step-Simulates {first} joined s t h st i service (is_ready p e f) =
    let c : Client = record (s.clients p) { place = Place.connect } in
    rests s t h h st st service
      (step-stays s h st p c i
        (ok-is_ready (role_of h st p) (s.clients p) (count p s.queue) (i.each p) e f) (rw e) (rw e))
      (ap (λ f. f ++ s.queue) (front_move h st p c s.clients (rw e))) refl
step-Simulates {first} joined s t h st i service (is_not_ready p e f) =
    let c : Client = record (s.clients p) { place = Place.pause } in
    rests s t h h st st service
      (step-stays s h st p c i
        (ok-is_not_ready (role_of h st p) (s.clients p) (count p s.queue) (i.each p) e) (rw e)
        (rw e))
      (ap (λ f. f ++ s.queue) (front_move h st p c s.clients (rw e))) refl
step-Simulates {first} joined s t h st i service (sleeps p e) =
    let c : Client = record (s.clients p) { place = Place.asleep } in
    rests s t h h st st service
      (step-stays s h st p c i
        (ok-sleeps (role_of h st p) (s.clients p) (count p s.queue) (i.each p) e) (rw e) (rw e))
      (ap (λ f. f ++ s.queue) (front_move h st p c s.clients (rw e))) refl
step-Simulates {first} joined s t h st i service (sig_usr1_handler p e) =
    let c : Client = record (s.clients p) {
      place = woken (s.clients p).place;
      pending = false;
      ready = true;
    } in
    rests s t h h st st service
      (step-stays s h st p c i
        (ok-handler (role_of h st p) (s.clients p) (count p s.queue) (i.each p) e)
        (woken-received (s.clients p).place) (woken-bound (s.clients p).place))
      (ap (λ f. f ++ s.queue) (front_move h st p c s.clients (woken-unserved (s.clients p).place)))
      refl
step-Simulates {first} joined s t h st i service (cli_uds_conn p q e f) =
    let (ne, same) = called_of_connect h p st (s.clients p) (count p s.queue) (i.each p) e in
    let i' = Inv-holder s h h st (called p) i (refl, same) in
    rests s t h h (called p) (called p)
      (subst (λ x. Service first joined (waiting h x s) s.served) same service)
      (step-connects s h p i' e) refl refl
step-Simulates {first} joined s t h st i service (is_refused p e f) =
    let (ne, same) = called_of_connect h p st (s.clients p) (count p s.queue) (i.each p) e in
    let bound : s.listener ≡ some h = (Inv-holder s h h st (called p) i (refl, same)).linked.1 in
    absurd (cc)
step-Simulates {first} joined s t h st i service (receives p e f) =
    let role = alone_of_granted h p st (s.clients p) (count p s.queue) (i.each p) e f in
    let i' = Inv-holder s h p st alone i role in
    rests s t p p alone alone (moved first joined s h p st alone service role)
      (step-receives s p i') (rw (e, itself p) refl) refl
step-Simulates {first} joined s t h st i service (serves p e) =
    let role = alone_of_serve h p st (s.clients p) (count p s.queue) (i.each p) e in
    let i' = Inv-holder s h p st alone i role in
    let before : Service first joined (p ∷ s.queue) s.served =
      rw e at (moved first joined s h p st alone service role) in
    record { h = p; st = alone; inv = step-serves s p i'; service = rw (itself p) (next p before) }
step-Simulates {first} joined s t h st i service (takes p n rest e f) =
    let role = alone_of_msgrcv h p st (s.clients p) (count p s.queue) (i.each p) e in
    let i' = Inv-holder s h p st alone i role in
    rests s t p p alone (about n) (moved first joined s h p st alone service role)
      (step-takes s p n rest i' f) (rw (e, f) refl) refl
step-Simulates {first} joined s t h st i service (serv_uds_listen p n e) =
    let role = about_of_listen h p st (s.clients p) (count p s.queue) n (i.each p) e in
    let i' = Inv-holder s h p st (about n) i role in
    rests s t p p (about n) (about n) (moved first joined s h p st (about n) service role)
      (step-listens s p n i') refl refl
step-Simulates {first} joined s t h st i service (kills p n e) =
    let role = about_of_kill h p st (s.clients p) (count p s.queue) n (i.each p) e in
    let i' = Inv-holder s h p st (about n) i role in
    rests s t p p (about n) (called n) (moved first joined s h p st (about n) service role)
      (step-kills s p n e i') refl refl
step-Simulates {first} joined s t h st i service (accepts p n c rest e f g) =
    let role = called_of_accept h p st (s.clients p) (count p s.queue) n (i.each p) e in
    let i' = Inv-holder s h p st (called n) i role in
    let (same, i'') = step-accepts s p n c rest i' g in
    rests s t p p (called n) (sending c) (moved first joined s h p st (called n) service role) i''
      (ap (λ x. x ∷ s.queue) same) refl
step-Simulates {first} joined s t h st i service (sends p c e) =
    let role = sending_of_send_fd h p st (s.clients p) (count p s.queue) c (i.each p) e in
    let i' = Inv-holder s h p st (sending c) i role in
    let arrived = place_of_partner p c (s.clients c) (count c s.queue) i'.linked (i'.each c) in
    rests s t p c (sending c) alone (moved first joined s h p st (sending c) service role)
      (step-sends s p c i') (rw (itself c, arrived) refl) refl
