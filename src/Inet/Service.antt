-- ===== src/Inet/Service.antt =====
-- What a service gets from the super server, and what the server keeps.
use cn_lab.Base.{
  ℕ, suc, ◌+◌, ◌≡◌, ◌≢◌, refl, ap, sym, ◌∙◌, Option, none, some, List, [], ◌∷◌, ◌++◌, Bool, true,
  false, if◌then◌else◌, arith,
}
use cn_lab.Base.Decimal.{atoi, read_digits}
use cn_lab.Passing.{
  Table, file_at, install, Chunk, rights, sendmsg, recvmsg, send_fd, received_fd, recv_fd,
}
use cn_lab.Passing.Handover.{IsInstalled, install-IsInstalled}
use cn_lab.Inet.{Inet, waiting, set_waiting, pass_on, accept_service, serve_client}

-- The number of the first or the second service, as the client sends it.
abbrev pub number : Bool → ℕ
number second = if second then 2 else 1

abbrev pub open_files : Table → ℕ
open_files [] = 0
open_files (none ∷ t) = open_files t
open_files (some f ∷ t) = suc (open_files t)

open_files-install : (file : ℕ) (t : Table) → open_files (install file t).1 ≡ suc (open_files t)
unfolding install
open_files-install file [] = refl
open_files-install file (none ∷ t) = refl
open_files-install file (some f ∷ t) = ap suc (open_files-install file t)

-- The one message that hands an open file over.
abbrev handed : ℕ → List Chunk
handed file = record { bytes = b'F' ∷ []; files = file ∷ [] } ∷ []

send_fd_open :
    (t : Table) (fd file : ℕ) → file_at t fd ≡ some file → send_fd t fd [] ≡ some (handed file)
unfolding send_fd sendmsg rights
send_fd_open t fd file open_file = rw (open_file, send_fd, sendmsg, rights)

recv_fd-handed :
    (t : Table) (file : ℕ)
    → recv_fd t (handed file) ≡ some (some (install file t).0, (install file t).1, [])
unfolding recv_fd recvmsg received_fd
recv_fd-handed t file = refl

none_is_not_some : {n : ℕ} → ◌≢◌ {A = Option ℕ} none (some n)
none_is_not_some e = absurd (cc)

-- A further descriptor leaves an open one as it is.
install-open :
    (t : Table) (fd file new : ℕ)
    → file_at t fd ≡ some file
    → file_at (install new t).1 fd ≡ some file
install-open t fd file new open_file =
    let i = install-IsInstalled new t in
    i.others fd (λ e. none_is_not_some (sym i.free ∙ ap (file_at t) (sym e) ∙ open_file))
    ∙ open_file

pass_on_open :
    (service nsfd file : ℕ) (s : Inet)
    → file_at s.table nsfd ≡ some file
    → pass_on service nsfd s ≡ record s { passed = s.passed ++ (service, handed file) ∷ [] }
unfolding pass_on
pass_on_open service nsfd file s open_file = rw (send_fd_open s.table nsfd file open_file, pass_on)

accept_service_open :
    (second : Bool) (nsfd client service : ℕ) (rest : List ℕ) (s : Inet)
    → file_at s.table nsfd ≡ some client
    → accept_service (number second) nsfd (service ∷ rest) s
      ≡ some (record (set_waiting (number second) rest s) {
        table = (install service s.table).1;
        passed = s.passed ++ (service, handed client) ∷ [];
      })
unfolding accept_service
accept_service_open false nsfd client service rest s open_file = ap some (
    pass_on_open service nsfd client
      (record s { service1 = rest; table = (install service s.table).1 })
      (install-open s.table nsfd client service open_file))
accept_service_open true nsfd client service rest s open_file = ap some (
    pass_on_open service nsfd client
      (record s { service2 = rest; table = (install service s.table).1 })
      (install-open s.table nsfd client service open_file))

waiting_set :
    (second : Bool) (rest : List ℕ) (s : Inet)
    → waiting (number second) (set_waiting (number second) rest s) ≡ rest
waiting_set false rest s = refl
waiting_set true rest s = refl

two_more :
    (t : Table) (client service : ℕ)
    → open_files (install service (install client t).1).1 ≡ 2 + open_files t
two_more t client service =
    omega (arith, open_files-install service (install client t).1, open_files-install client t)

serve_client_lem :
    (client service : ℕ) (second : Bool) (rest : List ℕ) (s : Inet)
    → waiting (number second) s ≡ service ∷ rest
    → serve_client client ((b'0' + number second) ∷ []) s
      ≡ some (record (set_waiting (number second) rest s) {
        table = (install service (install client s.table).1).1;
        passed = s.passed ++ (service, handed client) ∷ [];
      })
unfolding serve_client atoi read_digits
serve_client_lem client service false rest s e =
    ap
      (λ l.
        accept_service 1 (install client s.table).0 l
          (record s { table = (install client s.table).1 }))
      e
    ∙ accept_service_open false (install client s.table).0 client service rest
        (record s { table = (install client s.table).1 }) (install-IsInstalled client s.table).here
serve_client_lem client service true rest s e =
    ap
      (λ l.
        accept_service 2 (install client s.table).0 l
          (record s { table = (install client s.table).1 }))
      e
    ∙ accept_service_open true (install client s.table).0 client service rest
        (record s { table = (install client s.table).1 }) (install-IsInstalled client s.table).here

-- A client that sends 1 or 2, where a process of that service waits: the server passes the process
-- one message, with which recv_fd there gives a descriptor for the client's connection, the lowest
-- that was free; that process waits no longer. The server itself keeps both connections open.
pub serve_client-recv_fd :
    (client service : ℕ) (second : Bool) (rest : List ℕ) (s : Inet) (receiver : Table)
    → waiting (number second) s ≡ service ∷ rest
    → (s' : Inet) × (stream : List Chunk) × (fd : ℕ) × (receiver' : Table) × (serve_client client
          ((b'0' + number second) ∷ [])
          s
        ≡ some s')
      × (s'.passed ≡ s.passed ++ (service, stream) ∷ [])
      × (waiting (number second) s' ≡ rest)
      × (open_files s'.table ≡ 2 + open_files s.table)
      × (recv_fd receiver stream ≡ some (some fd, receiver', []))
      × IsInstalled client receiver fd receiver'
serve_client-recv_fd client service second rest s receiver e = (
  record (set_waiting (number second) rest s) {
    table = (install service (install client s.table).1).1;
    passed = s.passed ++ (service, handed client) ∷ [];
  },
  handed client,
  (install client receiver).0,
  (install client receiver).1,
  serve_client_lem client service second rest s e,
  refl,
  waiting_set second rest s,
  two_more s.table client service,
  recv_fd-handed receiver client,
  install-IsInstalled client receiver,
)
