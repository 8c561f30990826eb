-- ===== src/Rpc/Wire.antt =====
-- The frames of client_stub.c and server_stub.c: send_pcap_packet fills a buffer through pointers to
-- the headers, extract_rpc reads the RPC header of a captured frame. Offsets: ethernet header 0, IP
-- header 14, TCP header 34, RPC header 54 with its ints at 66, 70, 74 and 78; 82 bytes in all.
pub mod RoundTrip
pub mod Header
use cn_lab.Base.{ℕ, ◌+◌, ◌*◌, ◌/◌, ◌%◌, List, [], ◌∷◌, Bool}
use cn_lab.Base.Words.{htons, ntohs}
use cn_lab.Base.Memory.{
  Memory, store8, store16, store32, store_all, store_string, load32, load_all, load_string,
}
use cn_lab.Checksum.{in_cksum}
use cn_lab.Base.Packet.{same_text}
use cn_lab.Rpc.{RpcHdr, client_stub_port, server_stub_port}

abbrev pub client_mac : List ℕ
client_mac = 0x01 ∷ 0x02 ∷ 0x03 ∷ 0x04 ∷ 0x05 ∷ 0x06 ∷ []

abbrev pub server_mac : List ℕ
server_mac = 0x07 ∷ 0x08 ∷ 0x09 ∷ 0x10 ∷ 0x11 ∷ 0x12 ∷ []

-- The ethernet header: destination, source and ETH_P_ARP.
unfoldable pub store_ether : List ℕ → List ℕ → Memory → Memory
store_ether dst src m =
    store8 13 (0x0806 % 256) (store8 12 (0x0806 / 256) (store_all 6 src (store_all 0 dst m)))

-- The IP header: ihl and version share a byte, tot_len is in host order, inet_addr gives an address
-- in network order. The checksum is taken over the header as it then is; tos, id, frag_off and the
-- checksum field itself hold what the buffer held.
unfoldable pub store_ip : List ℕ → List ℕ → Memory → Memory
store_ip saddr daddr m =
    let h = store_all 30 daddr (
      store_all 26 saddr
        (store8 22 64 (store8 23 6 (store16 16 (20 + 20 + 5) (store8 14 (4 * 16 + 5) m))))) in
    store16 24 (in_cksum (load_all 20 h 14)) h

-- htonl of a number that a test can read as bytes, the high byte first.
abbrev big_endian : ℕ → List ℕ
big_endian n = n / 16777216 % 256 ∷ n / 65536 % 256 ∷ n / 256 % 256 ∷ n % 256 ∷ []

-- The TCP header: doff is the high half of byte 46, the flags psh and ack are bits of byte 47, whose
-- top two bits are reserved and keep their value.
unfoldable pub store_tcp : ℕ → ℕ → Memory → Memory
store_tcp dest source m =
    let p = store16 34 (htons source) (store16 36 (htons dest) m) in
    let d = store8 46 (8 * 16 + p 46 % 16) p in
    let s = store_all 42 (big_endian 654864534) (store_all 38 (big_endian 156851345) d) in
    store16 48 (htons 1000) (store8 47 (s 47 / 64 * 64 + 16 + 8) s)

-- The RPC header of a request (client_stub.c): return_val is not written.
unfoldable pub store_request : RpcHdr → Memory → Memory
store_request rpc m =
    store32 78 rpc.arg2
      (store32 74 rpc.arg1 (store32 66 rpc.opcode (store_string 54 rpc.function_name m)))

-- The RPC header of a reply (server_stub.c).
unfoldable pub store_reply : RpcHdr → Memory → Memory
store_reply rpc m = store32 70 rpc.return_val (
    store32 78 rpc.arg2
      (store32 74 rpc.arg1 (store32 66 rpc.opcode (store_string 54 rpc.function_name m))))

-- send_pcap_packet of the two stubs, up to pcap_inject. The buffer is on the stack and is not
-- cleared: `buff` is what it holds.
unfoldable pub client_frame : RpcHdr → Memory → Memory
client_frame msg buff = store_request msg (
    store_tcp server_stub_port client_stub_port (
      store_ip (127 ∷ 0 ∷ 0 ∷ 1 ∷ []) (127 ∷ 0 ∷ 0 ∷ 2 ∷ [])
        (store_ether server_mac client_mac buff)))

unfoldable pub server_frame : RpcHdr → Memory → Memory
server_frame msg buff = store_reply msg (
    store_tcp client_stub_port server_stub_port (
      store_ip (127 ∷ 0 ∷ 0 ∷ 2 ∷ []) (127 ∷ 0 ∷ 0 ∷ 1 ∷ [])
        (store_ether client_mac server_mac buff)))

-- extract_rpc of client_stub.c.
unfoldable pub client_extract : Memory → RpcHdr
client_extract packet = record {
  function_name = load_string 10 packet 54;
  opcode = ntohs (load32 packet 66);
  return_val = ntohs (load32 packet 70);
  arg1 = ntohs (load32 packet 74);
  arg2 = ntohs (load32 packet 78);
}

-- extract_rpc of server_stub.c leaves return_val as the variable `rpc` of main held it.
unfoldable pub server_extract : Memory → ℕ → RpcHdr
server_extract packet held = record {
  function_name = load_string 10 packet 54;
  opcode = ntohs (load32 packet 66);
  return_val = held;
  arg1 = ntohs (load32 packet 74);
  arg2 = ntohs (load32 packet 78);
}

-- The capture filter `ether src` on a frame: its bytes 6 to 11.
unfoldable pub ether_src : List ℕ → Memory → Bool
ether_src mac m = same_text mac (load_all 6 m 6)
