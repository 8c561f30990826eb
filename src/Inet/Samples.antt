-- ===== src/Inet/Samples.antt =====
-- The theorem on the super server at a client that asks for the second service.
use cn_lab.Base.{ℕ, ◌+◌, ◌≡◌, refl, some, List, [], ◌∷◌, ◌++◌, true}
use cn_lab.Passing.{Table, Chunk, recv_fd}
use cn_lab.Passing.Handover.{IsInstalled}
use cn_lab.Inet.{Inet, waiting, serve_client}
use cn_lab.Inet.Service.{number, open_files, serve_client-recv_fd}

abbrev started : Inet
started = record {
  table = some 100 ∷ some 101 ∷ some 102 ∷ some 1 ∷ some 2 ∷ some 3 ∷ [];
  service1 = [];
  service2 = 20 ∷ 21 ∷ [];
  passed = [];
}

abbrev process : Table
process = some 100 ∷ some 101 ∷ some 102 ∷ some 4 ∷ []

serve_client-recv_fd_example :
    (s' : Inet) × (stream : List Chunk) × (fd : ℕ) × (receiver' : Table) × (serve_client 9
        ((b'0' + number true) ∷ [])
        started
      ≡ some s')
    × (s'.passed ≡ started.passed ++ (20, stream) ∷ [])
    × (waiting (number true) s' ≡ 21 ∷ [])
    × (open_files s'.table ≡ 2 + open_files started.table)
    × (recv_fd process stream ≡ some (some fd, receiver', []))
    × IsInstalled 9 process fd receiver'
serve_client-recv_fd_example = serve_client-recv_fd 9 20 true (21 ∷ []) started process refl
