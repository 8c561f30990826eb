-- ===== src/Passing/Samples.antt =====
-- The theorems on passed descriptors at concrete streams.
use cn_lab.Base.{ℕ, ◌≡◌, refl, List, [], ◌∷◌, some, none, arith}
use cn_lab.Passing.{Table, Chunk, send, recv, send_fd, recv_fd}
use cn_lab.Passing.Handover.{IsInstalled, recv_fd-send_fd}

abbrev boss : Table
boss = some 100 ∷ some 101 ∷ some 102 ∷ some 7 ∷ []

abbrev waiter : Table
waiter = some 100 ∷ some 101 ∷ none ∷ some 55 ∷ []

recv_fd-send_fd_example :
    (stream : List Chunk) × (fd' : ℕ) × (receiver' : Table) × (rest : List Chunk) × (send_fd boss 3
        []
      ≡ some stream)
    × (recv_fd waiter (send (b'2' ∷ 0 ∷ []) stream) ≡ some (some fd', receiver', rest))
    × IsInstalled 7 waiter fd' receiver'
    × (recv 10 rest ≡ some (b'2' ∷ 0 ∷ [], []))
recv_fd-send_fd_example = recv_fd-send_fd boss waiter 3 7 10 b'2' (0 ∷ []) refl (omega arith)
