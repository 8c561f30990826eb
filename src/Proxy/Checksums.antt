-- ===== src/Proxy/Checksums.antt =====
-- The checksum of the IP header, which proxy.c leaves as it was.
use cn_lab.Base.{
  ℕ, ◌+◌, ◌≤◌, ◌<◌, ◌≡◌, ◌≢◌, refl, sym, ap, ◌∙◌, some, List, [], ◌∷◌, true, length, All, get_or,
  arith,
}
use cn_lab.Base.Memory.{Memory, load_all}
use cn_lab.Checksum.{in_cksum}
use cn_lab.Checksum.Fold.{IsByte}
use cn_lab.Checksum.Field.{with_word, in_cksum-detects}
use cn_lab.Proxy.{Packet, ack_psh, dest_port, dip, proxy_packets}
use cn_lab.Proxy.Relay.{passed_on}

abbrev pub ip_header : Packet → List ℕ
ip_header p = load_all 20 p.buffer 14

abbrev header_front : Memory → List ℕ
header_front m =
    m 14
    ∷ m 15
    ∷ m 16
    ∷ m 17
    ∷ m 18
    ∷ m 19
    ∷ m 20
    ∷ m 21
    ∷ m 22
    ∷ m 23
    ∷ m 24
    ∷ m 25
    ∷ m 26
    ∷ m 27
    ∷ m 28
    ∷ m 29
    ∷ 84
    ∷ 30
    ∷ []

-- The words before the last one, and the last one.
split_header :
    (m : Memory) → load_all 4 m 30 ≡ dip → load_all 20 m 14 ≡ with_word (header_front m) 20 1 []
unfolding load_all
split_header m address =
    let a : m 30 ≡ 84 = ap (λ l. get_or l 0 0) address in
    let b : m 31 ≡ 30 = ap (λ l. get_or l 1 0) address in
    let c : m 32 ≡ 20 = ap (λ l. get_or l 2 0) address in
    let d : m 33 ≡ 1 = ap (λ l. get_or l 3 0) address in rw (a, b, c, d) refl

header_front-All : (m : Memory) → ((q : ℕ) → m q < 256) → All IsByte (header_front m)
header_front-All m byte = omega (arith, byte)

-- proxy writes the new address and leaves the checksum: if the header of a packet for 84.30.20.1
-- verifies, that of the packet that proxy injects does not.
pub proxy_packets-stale :
    (p : Packet)
    → ((q : ℕ) → p.buffer q < 256)
    → load_all 4 p.buffer 30 ≡ dip
    → ack_psh p.buffer ≡ true
    → dest_port p.buffer ≡ 2020
    → in_cksum (ip_header p) ≡ 0
    → (q : Packet) × (proxy_packets p ≡ some q) × (in_cksum (ip_header q) ≢ 0)
unfolding proxy_packets load_all
proxy_packets-stale p byte address flags port verified = (
  passed_on p,
  rw (flags, port) refl,
  λ verified'.
      let front = header_front p.buffer in
      let before : in_cksum (with_word front 20 1 []) ≡ 0 =
        ap in_cksum (sym (split_header p.buffer address)) ∙ verified in
      let after : in_cksum (with_word front 20 2 []) ≡ 0 = verified' in
      let fits : length front + 0 ≤ 65533 = omega arith in
      omega (
        arith,
        in_cksum-detects front [] 20 1 20 2 (header_front-All p.buffer byte) tt (omega arith) refl
            fits (before ∙ sym after),
      ),
)
