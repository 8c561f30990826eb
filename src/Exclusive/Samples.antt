-- ===== src/Exclusive/Samples.antt =====
-- The theorems on the exclusive service at a concrete run: client 7 waits for client 5.
use cn_lab.Base.{ℕ, ◌≡◌, ◌≤◌, refl, List, [], ◌++◌, length}
use cn_lab.Exclusive.{
  Place, Ess, Reach, started, woken, enters, is_ready, is_not_ready, sleeps, sig_usr1_handler,
  serves, takes, serv_uds_listen, kills, start, later,
}
use cn_lab.Exclusive.Turns.{Service, entered}
use cn_lab.Exclusive.Fair.{refines-Service}

ready_run :
    (s : Ess) × (Reach 5 s
      × ((s.clients 7).place ≡ Place.connect)
      × ((s.clients 5).place ≡ Place.accept 7))
unfolding started woken
ready_run = (
  _,
  (
    later
        (later
          (later
            (later
              (later
                (later
                  (later (later (later start (enters 7 refl)) (is_not_ready 7 refl refl))
                    (serves 5 refl))
                  (takes 5 7 [] refl refl))
                (serv_uds_listen 5 7 refl))
              (kills 5 7 refl))
            (sleeps 7 refl))
          (sig_usr1_handler 7 refl))
        (is_ready 7 refl refl),
    refl,
    refl,
  ),
)

abbrev connecting : Ess
connecting = ready_run.0

refines-Service_example :
    (before : List ℕ) × (length before ≤ 1)
    × Service 5 (entered ready_run.1.0) (before ++ connecting.queue) connecting.served
    × (entered ready_run.1.0 ≡ connecting.served ++ (before ++ connecting.queue))
refines-Service_example = refines-Service {s = connecting} ready_run.1.0
