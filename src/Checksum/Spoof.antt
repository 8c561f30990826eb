-- ===== src/Checksum/Spoof.antt =====
-- The packet that send_packet of 15-3-22_RAW/ip_spoofing/s.c builds and sends, with the checksum that
-- it takes over half of the packet's length while the message is not yet in it. Offsets: IP header 0,
-- message 20; `target` is the address of the receiver.
pub mod Header
use cn_lab.Base.{
  ℕ, zero, suc, ◌+◌, ◌-◌, ◌*◌, ◌/◌, ◌%◌, ◌≤◌, ◌<◌, ◌≡◌, refl, sym, ap, ◌∙◌, List, [], ◌∷◌, ◌++◌,
  length, All, All-append, length-append, replicate, take, drop, arith,
}
use cn_lab.Base.Words.{u16, htons}
use cn_lab.Base.Memory.{
  Memory, store8, store16, store_all, store_string, load16, load_all, load_string,
}
use cn_lab.Base.Memory.Laws.{load_all-cong, store_all-below, IsText, load_string-store_string}
use cn_lab.Checksum.{sum_words, fold, in_cksum, csum}
use cn_lab.Checksum.Fold.{IsByte, csum-in_cksum, in_cksum-le}
use cn_lab.Checksum.Field.{with_word, in_cksum-verifies}

-- Up to ip_dst: ip_hl and ip_v share byte 0, and ip_len is in host order.
unfoldable pub spoofed_header : ℕ → List ℕ → List ℕ → Memory
spoofed_header proto target buf =
    let m = store16 2 (20 + length buf) (store8 1 0 (store8 0 (4 * 16 + 5) (λ q. 0))) in
    let n =
      store16 10 0 (store8 9 proto (store8 8 255 (store16 6 0 (store16 4 (htons 54321) m)))) in
    store_all 16 target (store_all 12 (1 ∷ 2 ∷ 3 ∷ 4 ∷ []) n)

-- csum over ip_len >> 1 bytes, and the message.
unfoldable pub spoofed : ℕ → List ℕ → List ℕ → Memory
spoofed proto target buf =
    let m = spoofed_header proto target buf in
    store_string 20 buf (store16 10 (csum (load_all (load16 m 2 / 2) m 0)) m)

-- What sendto gets: ip_len bytes of packet.
abbrev pub send_packet : ℕ → List ℕ → List ℕ → List ℕ
send_packet proto target buf = let m = spoofed proto target buf in load_all (load16 m 2) m 0
