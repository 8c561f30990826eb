-- ===== src/Poll.antt =====
-- The reader p1.c of 11-1-22/poll, which polls three pipes until their writers p2.c, p3.c and p4.c
-- have gone. The kernel reports POLLIN for a pipe that holds bytes and POLLHUP for one without a
-- writer; what a writer does between two calls of poll is an event.
pub mod Pipes
pub mod Ends
mod Samples
use cn_lab.Base.{
  ℕ, zero, suc, ◌+◌, ◌-◌, List, [], ◌∷◌, ◌++◌, Bool, true, false, not, ◌&&◌, ◌==◌, if◌then◌else◌,
  length, take, drop,
}

-- A pipe: the bytes in it, whether its writer has it open, whether pfd[i].fd is still its descriptor
-- and not -1; the bytes that p1.c has read from it, and all that have been written to it.
pub record Pipe : Type 0 where
  pub content : List ℕ
  pub has_writer : Bool
  pub has_fd : Bool
  pub got : List ℕ
  pub written : List ℕ

-- nopenfds and the pipes of pfd.
pub record Reader : Type 0 where
  pub nopenfds : ℕ
  pub pipes : List Pipe

abbrev pub opened_pipe : Pipe
opened_pipe = record { content = []; has_writer = true; has_fd = true; got = []; written = [] }

-- open of a FIFO for reading returns when its writer has opened it.
unfoldable pub opened : Reader
opened = record { nopenfds = 3; pipes = opened_pipe ∷ opened_pipe ∷ opened_pipe ∷ [] }

-- revents of an entry, whose fd is not -1: POLLHUP and POLLIN.
abbrev pub pollhup : Pipe → Bool
pollhup p = p.has_fd && not p.has_writer

abbrev pub pollin : Pipe → Bool
pollin p = p.has_fd && not (length p.content == 0)

-- close, and -1 for the descriptor.
abbrev pub closed : Pipe → Pipe
closed p = record p { has_fd = false }

-- read of at most 100 bytes.
abbrev pub read_100 : Pipe → Pipe
read_100 p = record p { content = drop 100 p.content; got = p.got ++ take 100 p.content }

-- The body of the for loop.
unfoldable pub visit : ℕ → Pipe → ℕ × Pipe
visit nopenfds p =
    if pollhup p
    then (nopenfds - 1, closed p)
    else (if pollin p
        then (if length (take 100 p.content) == 0
            then (nopenfds - 1, closed p)
            else (nopenfds, read_100 p))
        else (nopenfds, p))

-- The for loop.
unfoldable pub visit_all : ℕ → List Pipe → ℕ × List Pipe
visit_all nopenfds [] = (nopenfds, [])
visit_all nopenfds (p ∷ pipes) =
    let (n, q) = visit nopenfds p in let (m, rest) = visit_all n pipes in (m, q ∷ rest)

-- A round of the while loop; poll waits where nothing has happened, and so does this round.
unfoldable pub round : Reader → Reader
round s =
    if s.nopenfds == 0
    then s
    else (let (n, pipes) = visit_all s.nopenfds s.pipes in record { nopenfds = n; pipes = pipes })

-- What the writer of pipe i does, or a round of p1.c.
pub data Event : Type 0 where
  write : (i : ℕ) → (bytes : List ℕ) → Event
  close : (i : ℕ) → Event
  poll : Event

abbrev pub written_to : List ℕ → Pipe → Pipe
written_to bytes p =
    if p.has_writer
    then record p { content = p.content ++ bytes; written = p.written ++ bytes }
    else p

abbrev pub without_writer : Pipe → Pipe
without_writer p = record p { has_writer = false }

abbrev pub change_at : (Pipe → Pipe) → ℕ → List Pipe → List Pipe
change_at f i [] = []
change_at f zero (p ∷ pipes) = f p ∷ pipes
change_at f (suc i) (p ∷ pipes) = p ∷ change_at f i pipes

unfoldable pub happen : Event → Reader → Reader
happen (Event.write i bytes) s = record s { pipes = change_at (written_to bytes) i s.pipes }
happen (Event.close i) s = record s { pipes = change_at without_writer i s.pipes }
happen Event.poll s = round s

unfoldable pub run : List Event → Reader → Reader
run [] s = s
run (e ∷ events) s = run events (happen e s)
