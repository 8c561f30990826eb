-- ===== src/Rpc/Wire/Header.antt =====
-- The headers in front of the RPC header: who captures a frame, and whether its IP checksum holds.
use cn_lab.Base.{
  ℕ, zero, suc, ◌+◌, ◌/◌, ◌%◌, ◌<◌, ◌≡◌, refl, ◌∙◌, ap, List, [], ◌∷◌, ◌++◌, true, false, arith,
}
use cn_lab.Base.Memory.{Memory, load_all}
use cn_lab.Base.Memory.Laws.{store_all-below}
use cn_lab.Checksum.{in_cksum}
use cn_lab.Checksum.Fold.{in_cksum-le}
use cn_lab.Checksum.Field.{with_word, in_cksum-verifies}
use cn_lab.Base.Packet.{same_text}
use cn_lab.Rpc.{RpcHdr}
use cn_lab.Rpc.Wire.{
  client_mac, server_mac, store_ether, store_ip, store_tcp, store_request, store_reply,
  client_frame, server_frame, ether_src,
}

store_request-below : (h : RpcHdr) (m : Memory) (q : ℕ) → q < 54 → store_request h m q ≡ m q
unfolding store_request
store_request-below h m q lt = ground (arith, store_all-below (h.function_name ++ 0 ∷ []) 54 q m lt)

store_reply-below : (h : RpcHdr) (m : Memory) (q : ℕ) → q < 54 → store_reply h m q ≡ m q
unfolding store_reply
store_reply-below h m q lt = ground (arith, store_all-below (h.function_name ++ 0 ∷ []) 54 q m lt)

store_tcp-below : (dest source : ℕ) (m : Memory) (q : ℕ) → q < 34 → store_tcp dest source m q ≡ m q
unfolding store_tcp
store_tcp-below dest source m q lt = ground arith

store_ip-below :
    (a b c d a' b' c' d' : ℕ) (m : Memory) (q : ℕ)
    → q < 14
    → store_ip (a ∷ b ∷ c ∷ d ∷ []) (a' ∷ b' ∷ c' ∷ d' ∷ []) m q ≡ m q
unfolding store_ip
store_ip-below a b c d a' b' c' d' m q lt = ground arith

load_all-cong :
    (n p : ℕ) (m m' : Memory)
    → ((q : ℕ) → q < p + n → m q ≡ m' q)
    → load_all n m p ≡ load_all n m' p
unfolding load_all
load_all-cong zero p m m' h = refl
load_all-cong (suc n) p m m' h =
    λ i. h p (omega arith) i ∷ load_all-cong n (p + 1) m m' (λ q lt. h q (omega arith)) i

client_frame-below :
    (h : RpcHdr) (buff : Memory) (q : ℕ)
    → q < 14
    → client_frame h buff q ≡ store_ether server_mac client_mac buff q
unfolding client_frame
client_frame-below h buff q lt =
    store_request-below h _ q (omega arith)
    ∙ store_tcp-below _ _ _ q (omega arith)
    ∙ store_ip-below 127 0 0 1 127 0 0 2 _ q lt

server_frame-below :
    (h : RpcHdr) (buff : Memory) (q : ℕ)
    → q < 14
    → server_frame h buff q ≡ store_ether client_mac server_mac buff q
unfolding server_frame
server_frame-below h buff q lt =
    store_reply-below h _ q (omega arith)
    ∙ store_tcp-below _ _ _ q (omega arith)
    ∙ store_ip-below 127 0 0 2 127 0 0 1 _ q lt

-- Each stub's filter captures the other stub's frames and no frame of its own.
pub filters_separate :
    (h : RpcHdr) (buff : Memory)
    → (ether_src client_mac (client_frame h buff) ≡ true)
      × (ether_src server_mac (client_frame h buff) ≡ false)
      × (ether_src server_mac (server_frame h buff) ≡ true)
      × (ether_src client_mac (server_frame h buff) ≡ false)
unfolding ether_src store_ether load_all same_text
filters_separate h buff =
    let c = load_all-cong 6 6 _ _ (λ q lt. client_frame-below h buff q (omega arith)) in
    let s = load_all-cong 6 6 _ _ (λ q lt. server_frame-below h buff q (omega arith)) in
    (
      ap (same_text client_mac) c,
      ap (same_text server_mac) c,
      ap (same_text server_mac) s,
      ap (same_text client_mac) s,
    )

store_ip_checksum :
    (a b c d a' b' c' d' : ℕ) (m : Memory)
    → ((q : ℕ) → m q < 256)
    → m 24 ≡ 0
    → m 25 ≡ 0
    → in_cksum (load_all 20 (store_ip (a ∷ b ∷ c ∷ d ∷ []) (a' ∷ b' ∷ c' ∷ d' ∷ []) m) 14) ≡ 0
unfolding store_ip load_all
store_ip_checksum a b c d a' b' c' d' m byte e e' =
    let pre : List ℕ = 69 ∷ m 15 ∷ 45 ∷ 0 ∷ m 18 ∷ m 19 ∷ m 20 ∷ m 21 ∷ 64 ∷ 6 ∷ [] in
    let addresses : List ℕ =
      a % 256 ∷ b % 256 ∷ c % 256 ∷ d % 256 ∷ a' % 256 ∷ b' % 256 ∷ c' % 256 ∷ d' % 256 ∷ [] in
    let k = in_cksum (with_word pre 0 0 addresses) in
    let high : k / 256 % 256 ≡ k / 256 = omega (arith, in_cksum-le (with_word pre 0 0 addresses)) in
    rw (e, e', high)
      (in_cksum-verifies pre addresses (omega (arith, byte)) (omega arith) refl (omega arith))

store_ether-lt :
    (m : Memory)
    → ((q : ℕ) → m q < 256)
    → (q : ℕ)
    → (store_ether server_mac client_mac m q < 256) × (store_ether client_mac server_mac m q < 256)
unfolding store_ether
store_ether-lt m byte q = ground (arith, byte q)

-- The receiver's in_cksum over the 20 bytes of the IP header is 0 in the frames of both stubs, if
-- the checksum field of the buffer held 0 before, which the stubs do not see to.
pub frame_checksums :
    (h : RpcHdr) (buff : Memory)
    → ((q : ℕ) → buff q < 256)
    → buff 24 ≡ 0
    → buff 25 ≡ 0
    → (in_cksum (load_all 20 (client_frame h buff) 14) ≡ 0)
      × (in_cksum (load_all 20 (server_frame h buff) 14) ≡ 0)
unfolding client_frame server_frame store_ether
frame_checksums h buff byte e e' = (
  ap in_cksum (
        load_all-cong 20 14 _ _
          λ q lt. store_request-below h _ q (omega arith) ∙ store_tcp-below _ _ _ q (omega arith))
      ∙ store_ip_checksum 127 0 0 1 127 0 0 2 (store_ether server_mac client_mac buff)
          (λ q. (store_ether-lt buff byte q).0) e e',
  ap in_cksum (
        load_all-cong 20 14 _ _
          λ q lt. store_reply-below h _ q (omega arith) ∙ store_tcp-below _ _ _ q (omega arith))
      ∙ store_ip_checksum 127 0 0 2 127 0 0 1 (store_ether client_mac server_mac buff)
          (λ q. (store_ether-lt buff byte q).1) e e',
)
