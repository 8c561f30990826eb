-- ===== src/Server/Samples.antt =====
-- The theorems on the server at concrete rounds, and tests.
use cn_lab.Base.{ℕ, ◌≡◌, ◌≤◌, refl, List, [], ◌∷◌, ◌++◌, some, take, replicate, codes, arith}
use cn_lab.Server.{
  Server, new_server, sig_usr1_handler, signals, Event, accepted, message, no_message, broadcast,
  handle, handle_all, round, rounds,
}
use cn_lab.Server.Queue.{rounds_lem}

-- Two clients come, a message is sent, the first client is handed on, another message is sent.
abbrev inputs : List (ℕ × List Event)
inputs =
    (0, accepted 9 ∷ [])
    ∷ (0, accepted 10 ∷ message (1 ∷ []) ∷ [])
    ∷ (1, no_message ∷ [])
    ∷ (0, message (2 ∷ []) ∷ [])
    ∷ []

-- The client that comes in the same round as the first message does not receive it.
rounds_test :
    rounds inputs new_server
    ≡ some (record {
      nsfds = 9 ∷ 10 ∷ replicate 8 0;
      nsfd_start = 1;
      nsfd_count = 2;
      sent = (9, 1 ∷ []) ∷ (9, codes "echo_start" ++ 10 ∷ []) ∷ (10, 2 ∷ []) ∷ [];
      echoed = 9 ∷ [];
    })
unfolding rounds round handle_all handle signals sig_usr1_handler broadcast
rounds_test = refl

rounds_lem_example :
    (t : Server) × (rounds inputs new_server ≡ some t)
    × (t.nsfd_count ≡ 2)
    × (t.nsfd_start ≤ t.nsfd_count)
    × (t.echoed ≡ take t.nsfd_start (9 ∷ 10 ∷ []))
rounds_lem_example = rounds_lem inputs (omega arith)

abbrev ten : List (ℕ × List Event)
ten =
    (0, accepted 10 ∷ [])
    ∷ (1, accepted 11 ∷ [])
    ∷ (1, accepted 12 ∷ [])
    ∷ (0, accepted 13 ∷ [])
    ∷ (0, accepted 14 ∷ [])
    ∷ (0, accepted 15 ∷ [])
    ∷ (0, accepted 16 ∷ [])
    ∷ (0, accepted 17 ∷ [])
    ∷ (0, accepted 18 ∷ [])
    ∷ (0, accepted 19 ∷ [])
    ∷ []
