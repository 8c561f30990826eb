-- ===== src/Rpc/Wire/RoundTrip.antt =====
-- What a stub extracts from the other stub's frame.
use cn_lab.Base.{ℕ, ◌<◌, ◌≡◌, arith, length, All}
use cn_lab.Base.Words.{ntohs}
use cn_lab.Base.Memory.{Memory, load32, load_string}
use cn_lab.Base.Memory.Laws.{load32-store32, load_string-store32, IsText, load_string-store_string}
use cn_lab.Rpc.{RpcHdr}
use cn_lab.Rpc.Wire.{
  store_request, store_reply, client_frame, server_frame, client_extract, server_extract,
}

-- A header that fits its struct: a name of at most nine bytes, and ints of 32 bits.
pub record Fits (h : RpcHdr) : Type 0 where
  pub text : All IsText h.function_name
  pub short : length h.function_name < 10
  pub opcode_fits : h.opcode < 4294967296
  pub return_fits : h.return_val < 4294967296
  pub arg1_fits : h.arg1 < 4294967296
  pub arg2_fits : h.arg2 < 4294967296

load_string-store_request :
    (h : RpcHdr) (m : Memory) → Fits h → load_string 10 (store_request h m) 54 ≡ h.function_name
unfolding store_request
load_string-store_request h m f =
    rw
      (
        load_string-store32 10 54 78 h.arg2 _ (omega arith),
        load_string-store32 10 54 74 h.arg1 _ (omega arith),
        load_string-store32 10 54 66 h.opcode _ (omega arith),
      )
      (load_string-store_string h.function_name 10 54 m f.text f.short)

load_string-store_reply :
    (h : RpcHdr) (m : Memory) → Fits h → load_string 10 (store_reply h m) 54 ≡ h.function_name
unfolding store_reply
load_string-store_reply h m f =
    rw
      (
        load_string-store32 10 54 70 h.return_val _ (omega arith),
        load_string-store32 10 54 78 h.arg2 _ (omega arith),
        load_string-store32 10 54 74 h.arg1 _ (omega arith),
        load_string-store32 10 54 66 h.opcode _ (omega arith),
      )
      (load_string-store_string h.function_name 10 54 m f.text f.short)

-- The ints of a request are read back, as 32-bit patterns.
request_ints :
    (h : RpcHdr) (m : Memory)
    → Fits h
    → (load32 (store_request h m) 66 ≡ h.opcode)
      × (load32 (store_request h m) 74 ≡ h.arg1)
      × (load32 (store_request h m) 78 ≡ h.arg2)
unfolding store_request
request_ints h m f = (
  load32-store32 66 h.opcode m f.opcode_fits,
  load32-store32 74 h.arg1 m f.arg1_fits,
  load32-store32 78 h.arg2 m f.arg2_fits,
)

reply_ints :
    (h : RpcHdr) (m : Memory)
    → Fits h
    → (load32 (store_reply h m) 66 ≡ h.opcode)
      × (load32 (store_reply h m) 70 ≡ h.return_val)
      × (load32 (store_reply h m) 74 ≡ h.arg1)
      × (load32 (store_reply h m) 78 ≡ h.arg2)
unfolding store_reply
reply_ints h m f = (
  load32-store32 66 h.opcode m f.opcode_fits,
  load32-store32 70 h.return_val m f.return_fits,
  load32-store32 74 h.arg1 m f.arg1_fits,
  load32-store32 78 h.arg2 m f.arg2_fits,
)

request_round_trip :
    (h : RpcHdr) (m : Memory) (held : ℕ)
    → Fits h
    → server_extract (store_request h m) held ≡ record {
      function_name = h.function_name;
      opcode = ntohs h.opcode;
      return_val = held;
      arg1 = ntohs h.arg1;
      arg2 = ntohs h.arg2;
    }
unfolding server_extract
request_round_trip h m held f =
    let (opcode, arg1, arg2) = request_ints h m f in
    λ i. record {
      function_name = load_string-store_request h m f i;
      opcode = ntohs (opcode i);
      return_val = held;
      arg1 = ntohs (arg1 i);
      arg2 = ntohs (arg2 i);
    }

reply_round_trip :
    (h : RpcHdr) (m : Memory)
    → Fits h
    → client_extract (store_reply h m) ≡ record {
      function_name = h.function_name;
      opcode = ntohs h.opcode;
      return_val = ntohs h.return_val;
      arg1 = ntohs h.arg1;
      arg2 = ntohs h.arg2;
    }
unfolding client_extract
reply_round_trip h m f =
    let (opcode, return_val, arg1, arg2) = reply_ints h m f in
    λ i. record {
      function_name = load_string-store_reply h m f i;
      opcode = ntohs (opcode i);
      return_val = ntohs (return_val i);
      arg1 = ntohs (arg1 i);
      arg2 = ntohs (arg2 i);
    }

-- The server stub extracts from the client stub's frame, whatever the buffer held before, the
-- function name as it was and the opcode and the arguments through ntohs, if the header fits its
-- struct; return_val stays as the receiver's variable held it.
pub extract-client_frame :
    (h : RpcHdr) (buff : Memory) (held : ℕ)
    → Fits h
    → server_extract (client_frame h buff) held ≡ record {
      function_name = h.function_name;
      opcode = ntohs h.opcode;
      return_val = held;
      arg1 = ntohs h.arg1;
      arg2 = ntohs h.arg2;
    }
unfolding client_frame
extract-client_frame h buff held f = request_round_trip h _ held f

-- The client stub extracts from the server stub's frame, whatever the buffer held before, the
-- function name as it was and the four ints through ntohs, if the header fits its struct.
pub extract-server_frame :
    (h : RpcHdr) (buff : Memory)
    → Fits h
    → client_extract (server_frame h buff) ≡ record {
      function_name = h.function_name;
      opcode = ntohs h.opcode;
      return_val = ntohs h.return_val;
      arg1 = ntohs h.arg1;
      arg2 = ntohs h.arg2;
    }
unfolding server_frame
extract-server_frame h buff f = reply_round_trip h _ f
