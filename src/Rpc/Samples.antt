-- ===== src/Rpc/Samples.antt =====
-- The theorems on the remote call at concrete calls, and tests.
use cn_lab.Base.{◌+◌, ◌%◌, ◌≡◌, none, some, true, false, arith, length}
use cn_lab.Base.Words.{ntohs}
use cn_lab.Base.Memory.{Memory}
use cn_lab.Rpc.{RpcHdr, add_name}
use cn_lab.Rpc.Wire.{client_frame, server_extract}
use cn_lab.Rpc.Wire.RoundTrip.{Fits, extract-client_frame}
use cn_lab.Rpc.Net.{Net, client_receive, client_stub_send}
use cn_lab.Rpc.Call.{Stacks, call, idle, call-add, call_with_timeout, call-late_reply}

abbrev dirty : Memory
dirty = λ q. 0xaa

abbrev clean : Memory
clean = λ q. 0

abbrev stacks : Stacks
stacks = record { client_held = 77; stub_held = 5; client_buff = dirty; server_buff = clean }

abbrev header : RpcHdr
header = record {
  function_name = add_name;
  opcode = 256;
  return_val = 0xffff_ffff;
  arg1 = 0x0700;
  arg2 = 0x0203;
}

header-Fits : Fits header
header-Fits = omega arith

extract-client_frame_example : server_extract (client_frame header dirty) 9 ≡ record {
  function_name = add_name;
  opcode = ntohs 256;
  return_val = 9;
  arg1 = ntohs 0x0700;
  arg2 = ntohs 0x0203;
}
extract-client_frame_example = extract-client_frame header dirty 9 header-Fits

call-add_example :
    (call true add_name 40000 2 stacks idle ≡ some ((40000 + 2) % 65536, idle))
    × (call false add_name 40000 2 stacks idle ≡ none)
call-add_example = call-add 40000 2 stacks (omega arith)

call-late_reply_example :
    (n : Net) × (call_with_timeout add_name 1 2 stacks idle ≡ some n)
    × (length n.at_client_stub ≡ 1)
    × (client_receive n ≡ none)
    × (client_stub_send clean n ≡ none)
call-late_reply_example = call-late_reply add_name 1 2 stacks clean
