-- ===== src/Passing.antt =====
-- send_fd and recv_fd of minor1/Q2-ESS, which several exercises copy, over a Unix stream socket:
-- the sender's descriptor becomes a descriptor of the receiver for the same open file.
-- Handover has what a receiver gets.
pub mod Handover
mod Samples
use cn_lab.Base.{
  ℕ, zero, suc, ◌+◌, Option, none, some, List, [], ◌∷◌, ◌++◌, ◌&&◌, ◌==◌, if◌then◌else◌, get_elem?,
  take, drop,
}

-- The descriptors of a process: the open file at each index, `none` where the index is free.
abbrev pub Table : Type 0
Table = List (Option ℕ)

abbrev pub file_at : Table → ℕ → Option ℕ
file_at t fd = elim (get_elem? t fd) [ none ↦ none | some slot ↦ slot ]

-- A new descriptor takes the lowest free index.
unfoldable pub install : ℕ → Table → ℕ × Table
install file [] = (0, some file ∷ [])
install file (none ∷ t) = (0, some file ∷ t)
install file (some f ∷ t) = let (fd, t') = install file t in (suc fd, some f ∷ t')

-- struct cmsghdr with an int behind it, and what of struct msghdr is used: the bytes of msg_iov and
-- the elements of msg_control.
pub record Cmsg : Type 0 where
  pub cmsg_level : ℕ
  pub cmsg_type : ℕ
  pub cmsg_data : ℕ

pub record Msghdr : Type 0 where
  pub iov : List ℕ
  pub control : List Cmsg

abbrev pub sol_socket : ℕ
sol_socket = 1

abbrev pub scm_rights : ℕ
scm_rights = 1

-- What one send leaves in the stream: its bytes, and the open files that travel with the first.
pub record Chunk : Type 0 where
  pub bytes : List ℕ
  pub files : List ℕ

abbrev pub is_rights : Cmsg → ℕ
is_rights c = if c.cmsg_level == sol_socket && c.cmsg_type == scm_rights then 1 else 0

-- The files behind the descriptors of a control buffer; `none` if one is not open.
unfoldable pub rights : Table → List Cmsg → Option (List ℕ)
rights t [] = some []
rights t (c ∷ cs) =
    let others = rights t cs in
    if is_rights c == 0 then others else elim (file_at t c.cmsg_data) [
      | none ↦ none
      | some file ↦ elim others [ none ↦ none | some files ↦ some (file ∷ files) ]
    ]

-- sendmsg: the stream after it, or `none` for -1.
unfoldable pub sendmsg : Table → Msghdr → List Chunk → Option (List Chunk)
sendmsg t msg stream = elim (rights t msg.control) [
  | none ↦ none
  | some files ↦ some (stream ++ record { bytes = msg.iov; files = files } ∷ [])
]

-- send, and recv of at most n bytes from a stream that is not empty.
unfoldable pub send : List ℕ → List Chunk → List Chunk
send bytes stream = stream ++ record { bytes = bytes; files = [] } ∷ []

abbrev pub rest_of : ℕ → Chunk → List Chunk → List Chunk
rest_of n c stream = elim (drop n c.bytes) [
  | [] ↦ stream
  | b ∷ bs ↦ record { bytes = b ∷ bs; files = [] } ∷ stream
]

unfoldable pub recv : ℕ → List Chunk → Option (List ℕ × List Chunk)
recv n [] = none
recv n (c ∷ stream) = some (take n c.bytes, rest_of n c stream)

-- recvmsg into one byte and a control buffer for one descriptor: further files are closed. `none`
-- means that it blocks, as the stream is empty.
unfoldable pub recvmsg : Table → List Chunk → Option (Msghdr × Table × List Chunk)
recvmsg t [] = none
recvmsg t (c ∷ stream) = some (elim c.files [
  | [] ↦ (record { iov = take 1 c.bytes; control = [] }, t, rest_of 1 c stream)
  | file ∷ more ↦
      let (fd, t') = install file t in
      (
        record {
          iov = take 1 c.bytes;
          control = record { cmsg_level = sol_socket; cmsg_type = scm_rights; cmsg_data = fd } ∷ [];
        },
        t',
        rest_of 1 c stream,
      )
])

-- send_fd: the byte 'F' with one element for the descriptor.
unfoldable pub send_fd : Table → ℕ → List Chunk → Option (List Chunk)
send_fd t fd_to_send stream =
    sendmsg t
      (record {
        iov = b'F' ∷ [];
        control =
            record { cmsg_level = sol_socket; cmsg_type = scm_rights; cmsg_data = fd_to_send } ∷ [];
      })
      stream

-- The loop over the ancillary elements; `none` is -1.
unfoldable pub received_fd : List Cmsg → Option ℕ
received_fd [] = none
received_fd (c ∷ cs) =
    let later = received_fd cs in if is_rights c == 0 then later else some c.cmsg_data

-- recv_fd: its result, `none` for -1, with the table and the stream after it; `none` outside if it
-- blocks.
unfoldable pub recv_fd : Table → List Chunk → Option (Option ℕ × Table × List Chunk)
recv_fd t stream = elim (recvmsg t stream) [
  | none ↦ none
  | some (msg, t', rest) ↦ some (elim msg.iov [
    | [] ↦ (none, t', rest)
    | b ∷ bs ↦ (if b == b'F' then received_fd msg.control else none, t', rest)
  ])
]
