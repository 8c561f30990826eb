-- ===== src/Checksum/Samples.antt =====
-- The theorems on the checksum at concrete packets, and tests.
use cn_lab.Base.{ℕ, take, drop, codes, ◌≢◌, ◌/◌, ◌%◌, ◌≡◌, refl, ◌-◌, List, [], ◌∷◌, arith}
use cn_lab.Checksum.{in_cksum, csum}
use cn_lab.Checksum.Field.{with_word, in_cksum-verifies}
use cn_lab.Base.Words.{htons}
use cn_lab.Base.Memory.{load_all}
use cn_lab.Checksum.Spoof.{send_packet, spoofed, spoofed_header}
use cn_lab.Checksum.Spoof.Header.{send_packet-verifies}

-- The front of an IP header up to the checksum, and its two addresses.
abbrev front : List ℕ
front = 0x45 ∷ 0 ∷ 0 ∷ 0x3c ∷ 0x1c ∷ 0x46 ∷ 0x40 ∷ 0 ∷ 0x40 ∷ 0x06 ∷ []

abbrev addresses : List ℕ
addresses = 172 ∷ 16 ∷ 10 ∷ 99 ∷ 172 ∷ 16 ∷ 10 ∷ 12 ∷ []

-- The checksum of this header is 0xb1e6 in network order.
known_header : in_cksum (with_word front 0 0 addresses) ≡ 0xe6b1
unfolding in_cksum
known_header = refl

odd_length : csum (1 ∷ 2 ∷ 3 ∷ []) ≡ 65535 - 516
unfolding csum
odd_length = refl

in_cksum-verifies_example :
    let c = in_cksum (with_word front 0 0 addresses) in
    in_cksum (with_word front (c % 256) (c / 256) addresses) ≡ 0
in_cksum-verifies_example =
    in_cksum-verifies front addresses (omega arith) (omega arith) refl (omega arith)

-- The message of main is shorter than a header: csum runs over 15 bytes only, and the packet's header
-- does not verify.
hello_world : csum (take 20 (send_packet 2 (172 ∷ 30 ∷ 143 ∷ 26 ∷ []) (codes "Hello World"))) ≢ 0
unfolding spoofed spoofed_header load_all csum htons
hello_world = omega arith

send_packet-verifies_example :
    let sent = send_packet 2 (172 ∷ 30 ∷ 143 ∷ 26 ∷ []) (codes "Hello World, hello World") in
    (csum (take 20 sent) ≡ 0) × (drop 20 sent ≡ codes "Hello World, hello World")
send_packet-verifies_example =
    send_packet-verifies 2 172 30 143 26 (codes "Hello World, hello World") (omega arith)
      (omega arith) (omega arith)
