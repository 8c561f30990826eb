-- ===== src/Rpc/Call.antt =====
-- One call from the client's request to the printed result, through all four processes.
use cn_lab.Base.{
  ℕ, ◌+◌, ◌-◌, ◌%◌, ◌<◌, ◌≡◌, refl, ap, ◌∙◌, Option, none, some, List, [], ◌∷◌, ◌++◌, arith, length,
  All, Bool, true, false, if◌then◌else◌,
}
use cn_lab.Base.Words.{u16, u32, htons, ntohs, ntohs-htons, htons-lt}
use cn_lab.Base.Memory.{Memory}
use cn_lab.Base.Memory.Laws.{IsText}
use cn_lab.Base.Packet.{same_text}
use cn_lab.Rpc.{RpcHdr, add_name, subtract_name}
use cn_lab.Rpc.Wire.{client_frame, server_frame, client_extract, server_extract}
use cn_lab.Rpc.Wire.RoundTrip.{Fits, extract-client_frame, extract-server_frame}
use cn_lab.Rpc.Wire.Header.{filters_separate}
use cn_lab.Rpc.Net.{
  Net, msgrcv, inject, client_send, client_receive, client_stub_send, client_stub_return,
  server_stub_forward, server_stub_return, serve, server_step,
}

infixl 5 ◌>>=◌
abbrev ◌>>=◌ {ℓ κ} : {A : Type ℓ} {B : Type κ} → Option A → (A → Option B) → Option B
none >>= f = none
some a >>= f = f a

-- What the stacks of the four processes happen to hold: return_val of the two messages that are
-- sent without it, and the frame buffers of the two stubs.
pub record Stacks : Type 0 where
  pub client_held : ℕ
  pub stub_held : ℕ
  pub client_buff : Memory
  pub server_buff : Memory

-- The steps of one call, each process moving as soon as it can: whether the client stub's pcap_next
-- returns the reply, or its read timeout passes before the server stub has the request.
unfoldable pub call : (in_time : Bool) → List ℕ → ℕ → ℕ → Stacks → Net → Option (ℕ × Net)
call in_time name a b st n = do
  sent ← client_stub_send st.client_buff (client_send name a b st.client_held n)
  served ←
      server_step
        (server_stub_forward st.stub_held (if in_time then sent else client_stub_return sent))
  replied ← server_stub_return st.server_buff served
  client_receive (if in_time then client_stub_return replied else replied)

-- Nothing waits in a queue or at a stub.
abbrev pub idle : Net
idle = record { client_queue = []; server_queue = []; at_server_stub = []; at_client_stub = [] }

-- The request as client.c builds it, and as server.c reads it.
abbrev request : List ℕ → ℕ → ℕ → ℕ → RpcHdr
request name a b held = record {
  function_name = name;
  opcode = htons 1;
  return_val = held;
  arg1 = htons a;
  arg2 = htons b;
}

abbrev received : List ℕ → ℕ → ℕ → ℕ → RpcHdr
received name a b held = record {
  function_name = name;
  opcode = 1;
  return_val = held;
  arg1 = u16 a;
  arg2 = u16 b;
}

inject-client_frame :
    (h : RpcHdr) (buff : Memory) (n : Net)
    → inject (client_frame h buff) n
      ≡ record n { at_server_stub = n.at_server_stub ++ client_frame h buff ∷ [] }
unfolding inject
inject-client_frame h buff n = let (seen, own, _, _) = filters_separate h buff in rw (seen, own)

inject-server_frame :
    (h : RpcHdr) (buff : Memory) (n : Net)
    → inject (server_frame h buff) n
      ≡ record n { at_client_stub = n.at_client_stub ++ server_frame h buff ∷ [] }
unfolding inject
inject-server_frame h buff n = let (_, _, seen, own) = filters_separate h buff in rw (seen, own)

request-Fits :
    (name : List ℕ) (a b held : ℕ)
    → All IsText name
    → length name < 10
    → held < 4294967296
    → Fits (request name a b held)
request-Fits name a b held t short fits = record {
  text = t;
  short = short;
  opcode_fits = omega (arith, htons-lt);
  return_fits = fits;
  arg1_fits = omega (arith, htons-lt);
  arg2_fits = omega (arith, htons-lt);
}

-- The server reads the arguments of the request cut to 16 bits.
request-extracted :
    (name : List ℕ) (a b held held' : ℕ) (buff : Memory)
    → All IsText name
    → length name < 10
    → held < 4294967296
    → server_extract (client_frame (request name a b held) buff) held' ≡ received name a b held'
request-extracted name a b held held' buff t short fits =
    extract-client_frame (request name a b held) buff held'
      (request-Fits name a b held t short fits)
    ∙ (λ i. record {
      function_name = name;
      opcode = ntohs-htons 1 i;
      return_val = held';
      arg1 = ntohs-htons a i;
      arg2 = ntohs-htons b i;
    })

serve-lt : (h : RpcHdr) → serve h < 4294967296
unfolding serve
serve-lt h =
    ground (arith, htons-lt (u32 (h.arg1 + h.arg2)), htons-lt (u32 (h.arg1 + 4294967296 - h.arg2)))

-- The server's reply to a request that it reads.
abbrev reply : RpcHdr → RpcHdr
reply h = record h { return_val = serve h; opcode = htons 2 }

reply-Fits :
    (name : List ℕ) (a b held : ℕ)
    → All IsText name
    → length name < 10
    → Fits (reply (received name a b held))
reply-Fits name a b held t short = record {
  text = t;
  short = short;
  opcode_fits = omega (arith, htons-lt);
  return_fits = serve-lt (received name a b held);
  arg1_fits = omega arith;
  arg2_fits = omega arith;
}

reply-extracted :
    (name : List ℕ) (a b held : ℕ) (buff : Memory)
    → All IsText name
    → length name < 10
    → (client_extract (server_frame (reply (received name a b held)) buff)).return_val
      ≡ ntohs (serve (received name a b held))
reply-extracted name a b held buff t short =
    ap (λ (h : RpcHdr). h.return_val)
      (extract-server_frame (reply (received name a b held)) buff
        (reply-Fits name a b held t short))

sent :
    (name : List ℕ) (a b held : ℕ) (buff : Memory)
    → client_stub_send buff (client_send name a b held idle)
      ≡ some (record idle { at_server_stub = client_frame (request name a b held) buff ∷ [] })
unfolding client_send client_stub_send msgrcv
sent name a b held buff = ap some (inject-client_frame (request name a b held) buff idle)

served :
    (frame : Memory) (held : ℕ)
    → server_step (server_stub_forward held (record idle { at_server_stub = frame ∷ [] }))
      ≡ some (record idle {
        server_queue = record { type = 3; msg = reply (server_extract frame held) } ∷ [];
      })
unfolding server_stub_forward server_step msgrcv
served frame held = refl

replied :
    (h : RpcHdr) (buff : Memory)
    → server_stub_return buff (record idle { server_queue = record { type = 3; msg = h } ∷ [] })
      ≡ some (record idle { at_client_stub = server_frame h buff ∷ [] })
unfolding server_stub_return msgrcv
replied h buff = ap some (inject-server_frame h buff idle)

printed :
    (frame : Memory)
    → client_receive (client_stub_return (record idle { at_client_stub = frame ∷ [] }))
      ≡ some ((client_extract frame).return_val, idle)
unfolding client_stub_return client_receive msgrcv
printed frame = refl

-- A call on an idle net whose reply comes in time ends whatever the stacks held, prints ntohs of what the server
-- stored for the arguments cut to 16 bits, and leaves the net idle, if the name fits its field.
pub call_lem :
    (name : List ℕ) (a b : ℕ) (st : Stacks)
    → All IsText name
    → length name < 10
    → st.client_held < 4294967296
    → call true name a b st idle ≡ some (ntohs (serve (received name a b st.stub_held)), idle)
unfolding call
call_lem name a b st t short fits = rw (
  sent name a b st.client_held st.client_buff,
  served (client_frame (request name a b st.client_held) st.client_buff) st.stub_held,
  request-extracted name a b st.client_held st.stub_held st.client_buff t short fits,
  replied (reply (received name a b st.stub_held)) st.server_buff,
  printed (server_frame (reply (received name a b st.stub_held)) st.server_buff),
  reply-extracted name a b st.stub_held st.server_buff t short,
)

no_answer : (name : List ℕ) (a b : ℕ) (st : Stacks) → call false name a b st idle ≡ none
unfolding call client_stub_return client_receive msgrcv
no_answer name a b st =
    let frame = client_frame (request name a b st.client_held) st.client_buff in
    let h = reply (server_extract frame st.stub_held) in
    rw (sent name a b st.client_held st.client_buff, served frame st.stub_held)
      (rw (replied h st.server_buff) refl)

-- An add call that starts when nothing waits at any process, and in which each process moves as soon
-- as it can, has two ends. If the reply is there before the client stub's read timeout, the call
-- prints the sum of its two ints modulo 65536, so the true sum of non-negative ints that is below
-- 65536, and nothing waits afterwards. If the timeout passes first, the client gets no result.
pub call-add :
    (a b : ℕ) (st : Stacks)
    → st.client_held < 4294967296
    → (call true add_name a b st idle ≡ some ((a + b) % 65536, idle))
      × (call false add_name a b st idle ≡ none)
unfolding serve same_text
call-add a b st fits =
    let served : ntohs (serve (received add_name a b st.stub_held)) ≡ (a + b) % 65536 =
      ntohs-htons (u32 (u16 a + u16 b)) ∙ omega arith in
    (
      call_lem add_name a b st (omega arith) (omega arith) fits ∙ (λ i. some (served i, idle)),
      no_answer add_name a b st,
    )

-- A subtract call whose reply comes in time prints the difference of its ints modulo 65536 and leaves the net idle.
pub call-subtract :
    (a b : ℕ) (st : Stacks)
    → st.client_held < 4294967296
    → b < 4294967296
    → call true subtract_name a b st idle ≡ some ((a + 4294967296 - b) % 65536, idle)
unfolding serve same_text
call-subtract a b st fits hb =
    let served : ntohs (serve (received subtract_name a b st.stub_held))
        ≡ (a + 4294967296 - b) % 65536 =
      ntohs-htons (u32 (u16 a + 4294967296 - u16 b)) ∙ omega arith in
    call_lem subtract_name a b st (omega arith) (omega arith) fits ∙ (λ i. some (served i, idle))

-- For a name that the server does not know the call ends as well, if the reply comes in time: it
-- prints 65535, not the -1 that the server stored, if the name fits its field.
pub call-unknown :
    (name : List ℕ) (a b : ℕ) (st : Stacks)
    → All IsText name
    → length name < 10
    → st.client_held < 4294967296
    → same_text name add_name ≡ false
    → same_text name subtract_name ≡ false
    → call true name a b st idle ≡ some (65535, idle)
unfolding serve htons
call-unknown name a b st t short fits other other' =
    call_lem name a b st t short fits ∙ rw (other, other')

-- The client stub's read timeout passes before the reply is there.
unfoldable pub call_with_timeout : List ℕ → ℕ → ℕ → Stacks → Net → Option Net
call_with_timeout name a b st n = do
  sent ← client_stub_send st.client_buff (client_send name a b st.client_held n)
  served ← server_step (server_stub_forward st.stub_held (client_stub_return sent))
  server_stub_return st.server_buff served

-- If pcap_next times out before the reply arrives, a call on an idle net leaves the reply at the
-- client stub while both the client and the client stub block for a message on their queue.
pub call-late_reply :
    (name : List ℕ) (a b : ℕ) (st : Stacks) (buff : Memory)
    → (n : Net) × (call_with_timeout name a b st idle ≡ some n)
      × (length n.at_client_stub ≡ 1)
      × (client_receive n ≡ none)
      × (client_stub_send buff n ≡ none)
unfolding call_with_timeout client_stub_return client_receive client_stub_send msgrcv
call-late_reply name a b st buff =
    let frame = client_frame (request name a b st.client_held) st.client_buff in
    let h = reply (server_extract frame st.stub_held) in
    (
      record idle { at_client_stub = server_frame h st.server_buff ∷ [] },
      rw (sent name a b st.client_held st.client_buff, served frame st.stub_held)
          (replied h st.server_buff),
      refl,
      refl,
      refl,
    )
