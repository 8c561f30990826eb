-- ===== src/Rpc.antt =====
-- The remote procedure call of endlab: client.c, client_stub.c, server_stub.c, server.c and the
-- types of rpc.h. A client asks its stub over a System V message queue, the stubs exchange raw
-- frames through libpcap, and the server stub asks the server over a queue of its own.
-- Here are the types; Wire has the frames, Net the processes, Call the whole call.
pub mod Wire
pub mod Net
pub mod Call
mod Samples
use cn_lab.Base.{
  ℕ, ◌+◌, ◌*◌, ◌%◌, ◌<◌, Option, none, some, List, [], ◌∷◌, Bool, true, false, ◌&&◌, ◌==◌,
  if◌then◌else◌, codes,
}

-- struct rpc_hdr. An int is its pattern of 32 bits, function_name the text in front of the NUL.
pub record RpcHdr : Type 0 where
  pub function_name : List ℕ
  pub opcode : ℕ
  pub return_val : ℕ
  pub arg1 : ℕ
  pub arg2 : ℕ

-- struct mymsg of the message queues.
pub record Mymsg : Type 0 where
  pub type : ℕ
  pub msg : RpcHdr

abbrev pub client_stub_port : ℕ
client_stub_port = 8080

abbrev pub server_stub_port : ℕ
server_stub_port = 8081

-- The names that server.c compares with.
abbrev pub add_name : List ℕ
add_name = codes "add"

abbrev pub subtract_name : List ℕ
subtract_name = codes "subtract"
