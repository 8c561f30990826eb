-- ===== src/Rpc/Net.antt =====
-- The four processes of the call and what lies between them. A System V message queue is the list
-- of its messages: msgsnd appends one, msgrcv takes the first of a given type, and `none` means
-- that it blocks. libpcap delivers each frame that passes a stub's filter.
use cn_lab.Base.{ℕ, ◌+◌, ◌-◌, Option, none, some, List, [], ◌∷◌, ◌++◌, ◌==◌, if◌then◌else◌}
use cn_lab.Base.Words.{u32, htons}
use cn_lab.Base.Memory.{Memory}
use cn_lab.Base.Packet.{same_text}
use cn_lab.Rpc.{RpcHdr, Mymsg, add_name, subtract_name}
use cn_lab.Rpc.Wire.{
  client_mac, server_mac, client_frame, server_frame, client_extract, server_extract, ether_src,
}

abbrev pub msgsnd : Mymsg → List Mymsg → List Mymsg
msgsnd m q = q ++ m ∷ []

-- The message, and the queue without it.
unfoldable pub msgrcv : ℕ → List Mymsg → Option (Mymsg × List Mymsg)
msgrcv t [] = none
msgrcv t (m ∷ q) =
    let later : Option (Mymsg × List Mymsg) = elim (msgrcv t q) [
      | none ↦ none
      | some (n, r) ↦ some (n, m ∷ r)
    ] in
    if m.type == t then some (m, q) else later

-- The queue of client.c and client_stub.c, the queue of server.c and server_stub.c, and the frames
-- that each stub's handle has captured and pcap_next has not yet returned.
pub record Net : Type 0 where
  pub client_queue : List Mymsg
  pub server_queue : List Mymsg
  pub at_server_stub : List Memory
  pub at_client_stub : List Memory

-- pcap_inject on the shared interface: a handle captures what its filter lets through.
unfoldable pub inject : Memory → Net → Net
inject frame n = record n {
  at_server_stub =
      if ether_src client_mac frame then n.at_server_stub ++ frame ∷ [] else n.at_server_stub;
  at_client_stub =
      if ether_src server_mac frame then n.at_client_stub ++ frame ∷ [] else n.at_client_stub;
}

-- add and subtract of client.c up to msgsnd. The message is on the stack: return_val is what it held.
unfoldable pub client_send : List ℕ → ℕ → ℕ → ℕ → Net → Net
client_send name a b held n = record n {
  client_queue =
      msgsnd
        (record {
          type = 1;
          msg = record {
            function_name = name;
            opcode = htons 1;
            return_val = held;
            arg1 = htons a;
            arg2 = htons b;
          };
        })
        n.client_queue;
}

-- The rest of add and subtract: the printed result.
unfoldable pub client_receive : Net → Option (ℕ × Net)
client_receive n = elim (msgrcv 4 n.client_queue) [
  | none ↦ none
  | some (m, q) ↦ some (m.msg.return_val, record n { client_queue = q })
]

-- The loop of client_stub.c up to pcap_next.
unfoldable pub client_stub_send : Memory → Net → Option Net
client_stub_send buff n = elim (msgrcv 1 n.client_queue) [
  | none ↦ none
  | some (m, q) ↦ some (inject (client_frame m.msg buff) (record n { client_queue = q }))
]

-- The rest of that round: with no packet within the read timeout, `continue`; otherwise the reply
-- goes to the client.
unfoldable pub client_stub_return : Net → Net
client_stub_return n = elim n.at_client_stub [
  | [] ↦ n
  | frame ∷ frames ↦ record n {
    at_client_stub = frames;
    client_queue = msgsnd (record { type = 4; msg = client_extract frame }) n.client_queue;
  }
]

-- The loop of server_stub.c up to msgsnd. The message to the server takes the fields that it names;
-- its return_val is what the stack held.
unfoldable pub server_stub_forward : ℕ → Net → Net
server_stub_forward held n = elim n.at_server_stub [
  | [] ↦ n
  | frame ∷ frames ↦ record n {
    at_server_stub = frames;
    server_queue = msgsnd (record { type = 2; msg = server_extract frame held }) n.server_queue;
  }
]

-- The rest of that round: the reply of the server, into a frame.
unfoldable pub server_stub_return : Memory → Net → Option Net
server_stub_return buff n = elim (msgrcv 3 n.server_queue) [
  | none ↦ none
  | some (m, q) ↦ some (inject (server_frame m.msg buff) (record n { server_queue = q }))
]

-- The int that server.c stores in return_val: htons of the sum or of the difference, and -1 for an
-- unknown name.
unfoldable pub serve : RpcHdr → ℕ
unfolding same_text
serve rpc =
    if same_text rpc.function_name add_name
    then htons (u32 (rpc.arg1 + rpc.arg2))
    else if same_text rpc.function_name subtract_name
    then htons (u32 (rpc.arg1 + 4294967296 - rpc.arg2))
    else 4294967295

-- One round of the loop of server.c.
unfoldable pub server_step : Net → Option Net
unfolding serve
server_step n = elim (msgrcv 2 n.server_queue) [
  | none ↦ none
  | some (m, q) ↦ some (record n {
    server_queue =
        msgsnd
          (record { type = 3; msg = record (m.msg) { return_val = serve m.msg; opcode = htons 2 } })
          q;
  })
]
