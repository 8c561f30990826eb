-- ===== src/Passing/Handover.antt =====
-- What recv_fd makes of what send_fd and send put into a stream.
use cn_lab.Base.{
  ℕ, zero, suc, ◌<◌, ◌≤◌, ◌≡◌, ◌≢◌, refl, ap, none, some, List, [], ◌∷◌, false, ◌==◌, length,
  take_all, drop_all, arith,
}
use cn_lab.Passing.{
  Table, file_at, install, Chunk, rights, sendmsg, send, recv, recvmsg, send_fd, received_fd,
  recv_fd, rest_of,
}

-- A descriptor that was free and is the lowest such, and a table that differs there only.
pub record IsInstalled (file : ℕ) (t : Table) (fd : ℕ) (t' : Table) : Type 0 where
  pub here : file_at t' fd ≡ some file
  pub free : file_at t fd ≡ none
  pub lowest : (k : ℕ) → k < fd → file_at t k ≢ none
  pub others : (k : ℕ) → k ≢ fd → file_at t' k ≡ file_at t k

install-here : (file : ℕ) (t : Table) → file_at (install file t).1 (install file t).0 ≡ some file
unfolding install
install-here file [] = refl
install-here file (none ∷ t) = refl
install-here file (some f ∷ t) = install-here file t

install-free : (file : ℕ) (t : Table) → file_at t (install file t).0 ≡ none
unfolding install
install-free file [] = refl
install-free file (none ∷ t) = refl
install-free file (some f ∷ t) = install-free file t

install-lowest : (file : ℕ) (t : Table) (k : ℕ) → k < (install file t).0 → file_at t k ≢ none
unfolding install
install-lowest file [] k lt = absurd (omega arith)
install-lowest file (none ∷ t) k lt = absurd (omega arith)
install-lowest file (some f ∷ t) zero lt = λ e. cc
install-lowest file (some f ∷ t) (suc k) lt = install-lowest file t k (omega arith)

install-others :
    (file : ℕ) (t : Table) (k : ℕ)
    → k ≢ (install file t).0
    → file_at (install file t).1 k ≡ file_at t k
unfolding install
install-others file [] zero ne = absurd (ne refl)
install-others file [] (suc k) ne = refl
install-others file (none ∷ t) zero ne = absurd (ne refl)
install-others file (none ∷ t) (suc k) ne = refl
install-others file (some f ∷ t) zero ne = refl
install-others file (some f ∷ t) (suc k) ne = install-others file t k (λ e. ne (ap suc e))

pub install-IsInstalled :
    (file : ℕ) (t : Table) → IsInstalled file t (install file t).0 (install file t).1
install-IsInstalled file t = record {
  here = install-here file t;
  free = install-free file t;
  lowest = install-lowest file t;
  others = install-others file t;
}

-- send_fd of an open descriptor, and then a send of at most n bytes: recv_fd in another process
-- gives a descriptor for the same open file, the lowest that was free there, and leaves its other
-- descriptors as they were; a recv of n bytes behind it gives the bytes sent and empties the stream.
pub recv_fd-send_fd :
    (sender receiver : Table) (fd file n b : ℕ) (bytes : List ℕ)
    → file_at sender fd ≡ some file
    → length (b ∷ bytes) ≤ n
    → (stream : List Chunk) × (fd' : ℕ) × (receiver' : Table) × (rest : List Chunk) × (send_fd
          sender fd []
        ≡ some stream)
      × (recv_fd receiver (send (b ∷ bytes) stream) ≡ some (some fd', receiver', rest))
      × IsInstalled file receiver fd' receiver'
      × (recv n rest ≡ some (b ∷ bytes, []))
unfolding send_fd sendmsg rights recv_fd recvmsg received_fd send recv
recv_fd-send_fd sender receiver fd file n b bytes open_file le = (
  record { bytes = b'F' ∷ []; files = file ∷ [] } ∷ [],
  (install file receiver).0,
  (install file receiver).1,
  record { bytes = b ∷ bytes; files = [] } ∷ [],
  rw (open_file, send_fd, sendmsg, rights),
  refl,
  install-IsInstalled file receiver,
  rw (take_all n (b ∷ bytes) le, drop_all n (b ∷ bytes) le, rest_of),
)

-- A message that does not begin with the byte 'F' is refused by recv_fd with -1, with and without a
-- descriptor; but a descriptor that came with it stays open in the receiver, at the lowest free
-- index. A send_fd of a descriptor that is not open gives -1.
pub recv_fd_foreign :
    (t : Table) (fd file b : ℕ) (bytes : List ℕ)
    → b ≢ b'F'
    → file_at t fd ≡ none
    → ((rest : List Chunk) × (recv_fd t (send (b ∷ bytes) []) ≡ some (none, t, rest)))
      × ((fd' : ℕ) × (t' : Table) × (rest : List Chunk) × (recv_fd t
              (record { bytes = b ∷ bytes; files = file ∷ [] } ∷ [])
            ≡ some (none, t', rest))
          × IsInstalled file t fd' t')
      × (send_fd t fd [] ≡ none)
unfolding send_fd sendmsg rights recv_fd recvmsg received_fd send
recv_fd_foreign t fd file b bytes foreign closed =
    let differs : (b == b'F') ≡ false = ground arith in
    (
      (rest_of 1 (record { bytes = b ∷ bytes; files = [] }) [], ground arith),
      (
        (install file t).0,
        (install file t).1,
        rest_of 1 (record { bytes = b ∷ bytes; files = file ∷ [] }) [],
        rw differs,
        install-IsInstalled file t,
      ),
      rw (closed, send_fd, sendmsg, rights),
    )
