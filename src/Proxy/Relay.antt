-- ===== src/Proxy/Relay.antt =====
-- The way of a packet through proxy.c and corn.c.
use cn_lab.Base.{
  ℕ, ◌+◌, ◌-◌, ◌≡◌, refl, ap, ◌∙◌, none, some, List, [], ◌∷◌, ◌++◌, true, ◌==◌, if◌then◌else◌,
  arith,
}
use cn_lab.Base.Words.{htons}
use cn_lab.Base.Memory.{Memory, load_all, store16, store_all}
use cn_lab.Base.Memory.Laws.{load_all-cong}
use cn_lab.Proxy.{
  Packet, ack_psh, dest_port, dip_corn, from_proxy, printed, proxy_packets, corn_packets,
  user_packet, user_tcp, request,
}
use cn_lab.Proxy.Print.{print_data_lem}
use mathlib.Core.List.{map}

abbrev pub passed_on : Packet → Packet
passed_on p = record {
  buffer = store_all 30 dip_corn (store16 36 (htons 2021) p.buffer);
  len = p.len;
}

abbrev pub text_of : Packet → List ℕ
text_of p = load_all (p.len - 54) p.buffer 54

passed_on-ports : (p : Packet) → dest_port (passed_on p).buffer ≡ 2021
unfolding htons
passed_on-ports p = refl

passed_on-flags : (p : Packet) → ack_psh (passed_on p).buffer ≡ ack_psh p.buffer
passed_on-flags p = refl

-- A packet with ACK and PSH and the port 2020 is passed on with the same length, and what corn
-- prints of it is its payload, from byte 54 on; corn prints nothing of the packet itself, and proxy,
-- which captures what it has injected, does not inject it again.
pub proxy-corn :
    (p : Packet)
    → ack_psh p.buffer ≡ true
    → dest_port p.buffer ≡ 2020
    → (q : Packet) × (proxy_packets p ≡ some q)
      × (corn_packets q
          ≡ from_proxy ++ (map printed (text_of p) ++ (if p.len - 54 == 0 then [] else b'\n' ∷ [])))
      × (corn_packets p ≡ [])
      × (proxy_packets q ≡ none)
unfolding proxy_packets corn_packets
proxy-corn p flags port =
    let same =
      load_all-cong (p.len - 54) 0 54 (λ i. (passed_on p).buffer (54 + i)) p.buffer
        (λ i lt. ground arith) in
    let port' = passed_on-ports p in
    let flags' = passed_on-flags p ∙ flags in
    let line : List ℕ = if p.len - 54 == 0 then [] else b'\n' ∷ [] in
    (
      passed_on p,
      rw (flags, port) refl,
      rw (flags', port')
          (ap (λ l. from_proxy ++ l)
            (print_data_lem (λ i. (passed_on p).buffer (54 + i)) (p.len - 54)
              ∙ ap (λ l. map printed l ++ line) same)),
      rw (flags, port) refl,
      rw (flags', port') refl,
    )

user_packet-flags : (buff : Memory) → ack_psh (user_packet buff).buffer ≡ true
unfolding user_packet user_tcp
user_packet-flags buff = ground arith

user_packet-port : (buff : Memory) → dest_port (user_packet buff).buffer ≡ 2020
unfolding user_packet user_tcp htons
user_packet-port buff = refl

user_packet-text_of : (buff : Memory) → text_of (user_packet buff) ≡ request ++ 0 ∷ []
unfolding user_packet load_all
user_packet-text_of buff = refl

user_packet-text :
    (buff : Memory)
    → map printed (text_of (user_packet buff))
        ++ (if (user_packet buff).len - 54 == 0 then [] else b'\n' ∷ [])
      ≡ request ++ b'.' ∷ b'\n' ∷ []
unfolding user_packet load_all printed
user_packet-text buff = refl

-- Whatever the buffers of user.c held before, its packet gets through proxy to corn, which prints the
-- request and a dot for the NUL behind it.
pub user-corn :
    (buff : Memory)
    → (q : Packet) × (proxy_packets (user_packet buff) ≡ some q)
      × (corn_packets q ≡ from_proxy ++ (request ++ b'.' ∷ b'\n' ∷ []))
user-corn buff =
    let (q, sent, seen, _, _) =
      proxy-corn (user_packet buff) (user_packet-flags buff) (user_packet-port buff) in
    (q, sent, seen ∙ ap (λ l. from_proxy ++ l) (user_packet-text buff))
