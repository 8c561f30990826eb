-- ===== src/Proxy.antt =====
-- The proxy of manoj_cn_end_lab_practice/cn_end_lab_practice/packets libpcap/proxy_server: user.c
-- injects a packet, proxy.c sends packets on to another port and address, and corn.c prints what
-- arrives there. Offsets: ethernet header 0, IP header 14, TCP header 34, payload 54.
pub mod Print
pub mod Relay
pub mod Checksums
mod Samples
use cn_lab.Base.{
  ℕ, zero, suc, ◌+◌, ◌-◌, ◌*◌, ◌/◌, ◌%◌, Option, none, some, List, [], ◌∷◌, ◌++◌, Bool, not, ◌&&◌,
  ◌==◌, leb, if◌then◌else◌, length, codes,
}
use cn_lab.Base.Words.{htons, ntohs}
use cn_lab.Base.Memory.{
  Memory, store8, store16, store32, store_all, store_string, load16, load_all, load_string,
}
use cn_lab.Checksum.{in_cksum}

-- What pcap captures or injects: the bytes at Buffer and header->len.
pub record Packet : Type 0 where
  pub buffer : Memory
  pub len : ℕ

abbrev pub sip : List ℕ
sip = 20 ∷ 0 ∷ 0 ∷ 1 ∷ []

abbrev pub dip : List ℕ
dip = 84 ∷ 30 ∷ 20 ∷ 1 ∷ []

abbrev pub dip_corn : List ℕ
dip_corn = 84 ∷ 30 ∷ 20 ∷ 2 ∷ []

abbrev pub request : List ℕ
request = codes "RK is requesting for corn"

-- user.c: the addresses and ETH_P_ARP.
unfoldable pub user_ether : Memory → Memory
user_ether buff = store8 13 (0x0806 % 256) (
    store8 12 (0x0806 / 256) (
      store_all 6 (0x86 ∷ 0x16 ∷ 0x45 ∷ 0xCE ∷ 0x8B ∷ 0xE4 ∷ [])
        (store_all 0 (0x00 ∷ 0x25 ∷ 0x83 ∷ 0x70 ∷ 0x10 ∷ 0x00 ∷ []) buff)))

-- ihl and version share byte 14; tot_len is in host order and takes strlen of the whole buffer; the
-- checksum field holds what the stack held when in_cksum reads it.
unfoldable pub user_ip : Memory → Memory
user_ip m =
    let v = store8 14 (4 * 16 + 5) m in
    let t = store16 16 (20 + 20 + length (load_string 65535 v 0)) v in
    let h = store_all 30 dip (store_all 26 sip (store8 22 64 (store8 23 6 t))) in
    store16 24 (in_cksum (load_all 20 h 14)) h

-- source, seq, ack_seq and window are in host order; doff is the high half of byte 46, the flags are
-- the low six bits of byte 47, of which psh and ack are set.
unfoldable pub user_tcp : Memory → Memory
user_tcp m =
    let p = store16 34 1515 (store16 36 (htons 2020) m) in
    let d = store8 46 (8 * 16 + p 46 % 16) p in
    let s = store32 42 654864534 (store32 38 156851345 d) in
    store16 48 1000 (store8 47 (s 47 / 64 * 64 + 16 + 8) s)

-- What main of user.c injects each time, from a buffer on the stack that is not cleared.
unfoldable pub user_packet : Memory → Packet
user_packet buff = record {
  buffer = store_string 54 request (user_tcp (user_ip (user_ether buff)));
  len = 14 + 20 + 20 + suc (length request);
}

-- tcp->ack == 1 && tcp->psh == 1
abbrev pub ack_psh : Memory → Bool
ack_psh m = (m 47 / 16 % 2 == 1) && (m 47 / 8 % 2 == 1)

-- ntohs(tcp->dest)
abbrev pub dest_port : Memory → ℕ
dest_port m = ntohs (load16 m 36)

-- packets of proxy.c: what it injects.
unfoldable pub proxy_packets : Packet → Option Packet
proxy_packets p =
    if ack_psh p.buffer && (dest_port p.buffer == 2020)
    then some
        (record { buffer = store_all 30 dip_corn (store16 36 (ntohs 2021) p.buffer); len = p.len })
    else none

-- PrintData of corn.c. A byte from 32 to 128 is printed as it is.
unfoldable pub printed : ℕ → ℕ
printed c = if leb 32 c && leb c 128 then c else b'.'

-- The loops over j: n bytes from j on.
unfoldable pub print_from : Memory → ℕ → ℕ → List ℕ
print_from m j zero = []
print_from m j (suc n) = printed (m j) ∷ print_from m (suc j) n

-- What the round for i prints.
unfoldable pub print_round : Memory → ℕ → ℕ → List ℕ
print_round m size i =
    (if not (i == 0) && (i % 16 == 0) then print_from m (i - 16) 16 else [])
    ++ (if i == size - 1 then print_from m (i - i % 16) (suc (i % 16)) ++ b'\n' ∷ [] else [])

-- The first n rounds.
unfoldable pub print_rounds : Memory → ℕ → ℕ → List ℕ
print_rounds m size zero = []
print_rounds m size (suc n) = print_rounds m size n ++ print_round m size n

-- A Size below 0 makes no round, like 0.
unfoldable pub print_data : Memory → ℕ → List ℕ
print_data m size = print_rounds m size size

abbrev pub from_proxy : List ℕ
from_proxy = codes "Message from proxy is: " ++ b'\n' ∷ []

-- packets of corn.c: what it prints after "Entered corn!".
unfoldable pub corn_packets : Packet → List ℕ
corn_packets p =
    if ack_psh p.buffer && (dest_port p.buffer == 2021)
    then from_proxy ++ print_data (λ q. p.buffer (54 + q)) (p.len - 54)
    else []
