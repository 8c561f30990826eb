-- ===== src/Observer.antt =====
-- The observer of manoj_cn_end_lab_practice/cn_end_lab_practice/packets libpcap/observer/obs.c, which
-- prints what a server and its three clients say to each other. Its PrintData is that of the proxy's
-- corn.c, and packets are as there.
pub mod Talk
mod Samples
use cn_lab.Base.{
  ℕ, ◌+◌, ◌-◌, ◌*◌, ◌/◌, ◌%◌, List, [], ◌∷◌, ◌++◌, Bool, ◌&&◌, ◌==◌, if◌then◌else◌, codes,
}
use cn_lab.Base.Words.{ntohs}
use cn_lab.Base.Memory.{Memory, load16}
use cn_lab.Proxy.{Packet, ack_psh, dest_port, print_data}

-- ntohs(tcp->source)
abbrev pub source_port : Memory → ℕ
source_port m = ntohs (load16 m 34)

-- ihl is the low half of byte 14, doff the high half of byte 46: tcp points behind a header of 20
-- bytes, whatever ihl is.
abbrev pub header_size : Memory → ℕ
header_size m = 14 + m 14 % 16 * 4 + m 46 / 16 * 4

-- The second and the third line of every branch.
unfoldable pub message_is : Packet → List ℕ
message_is p =
    let size = header_size p.buffer in
    codes "The message is: " ++ print_data (λ q. p.buffer (size + q)) (p.len - size)

-- packets of obs.c: what it prints.
unfoldable pub observe : Packet → List ℕ
observe p =
    let m = p.buffer in
    let flags = ack_psh m in
    if flags && (source_port m == 12345)
    then codes "This is a message from server to client1!" ++ (b'\n' ∷ message_is p)
    else (if flags && (dest_port m == 12345)
        then codes "This is a message from c1 to server!" ++ (b'\n' ∷ message_is p)
        else (if flags && (source_port m == 12346)
            then codes "This is a message from server to client2!" ++ (b'\n' ∷ message_is p)
            else (if flags && (dest_port m == 12346)
                then codes "This is a message from c2 to server!" ++ (b'\n' ∷ message_is p)
                else (if flags && (source_port m == 12347)
                    then codes "This is a message from server to client3!" ++ (b'\n' ∷ message_is p)
                    else (if flags && (dest_port m == 12347)
                        then codes "This is a message from c3 to server!" ++ (b'\n' ∷ message_is p)
                        else [])))))
