-- ===== src/Observer/Talk.antt =====
-- What the observer prints of the two directions of a conversation, for frames laid out as in the
-- standards of Ethernet, IP and TCP.
use cn_lab.Base.{
  length, length-append, append_assoc, get_or, ◌*◌, ◌/◌, ◌%◌, ℕ, zero, suc, ◌≤◌, ◌+◌, ◌-◌, ◌<◌, ◌≡◌,
  refl, ap, ◌∙◌, ◌⊎◌, List, [], ◌∷◌, ◌++◌, true, false, ◌==◌, if◌then◌else◌, codes, arith,
}
use cn_lab.Base.Words.{htons}
use cn_lab.Base.Memory.{Memory, load_all}
use cn_lab.Base.Memory.Laws.{load_all-cong}
use cn_lab.Proxy.{Packet, ack_psh, dest_port, printed}
use cn_lab.Proxy.Print.{print_data_lem}
use cn_lab.Observer.{source_port, header_size, message_is, observe}
use mathlib.Core.List.{map}

-- The parts of a frame beside its ports and flags: the Ethernet header, the IP header behind its first
-- byte, the sequence and acknowledgement numbers, `words` words of options, the window, the checksum
-- and the urgent pointer, the options and the text.
pub record Segment : Type 0 where
  pub ether : List ℕ
  pub ip : List ℕ
  pub numbers : List ℕ
  pub words : ℕ
  pub window : List ℕ
  pub options : List ℕ
  pub text : List ℕ

pub record IsSegment (s : Segment) : Type 0 where
  pub ether_size : length s.ether ≡ 14
  pub ip_size : length s.ip ≡ 19
  pub numbers_size : length s.numbers ≡ 8
  pub window_size : length s.window ≡ 6
  pub words_fit : s.words ≤ 10
  pub options_size : length s.options ≡ 4 * s.words

-- The TCP header from its ports on: the data offset counts its words, and ACK and PSH are set.
abbrev tcp_rest : Segment → List ℕ
tcp_rest s = s.numbers ++ (5 + s.words) * 16 ∷ 24 ∷ (s.window ++ s.options)

abbrev tcp_header : Segment → ℕ → ℕ → List ℕ
tcp_header s source dest = source / 256 ∷ source % 256 ∷ dest / 256 ∷ dest % 256 ∷ tcp_rest s

-- Version 4 and a header of five words in the first byte of the IP header.
abbrev headers : Segment → ℕ → ℕ → List ℕ
headers s source dest = s.ether ++ ((4 * 16 + 5) ∷ s.ip ++ tcp_header s source dest)

-- The captured frame; what memory holds behind it is not known.
abbrev pub frame : Segment → ℕ → ℕ → Memory → Packet
frame s source dest m =
    let bytes = headers s source dest ++ s.text in
    record { buffer = λ q. get_or bytes q (m q); len = length bytes }

get_or-append : (a b : List ℕ) (i d : ℕ) → get_or (a ++ b) (length a + i) d ≡ get_or b i d
get_or-append [] b i d = let start : 0 + i ≡ i = omega arith in rw start refl
get_or-append (x ∷ a) b i d =
    let next : suc (length a) + i ≡ suc (length a + i) = omega arith in
    rw next (get_or-append a b i d)

-- The byte at i behind k bytes.
behind : (a b : List ℕ) (k i d : ℕ) → length a ≡ k → get_or (a ++ b) (k + i) d ≡ get_or b i d
behind a b k i d e = rw (← e) (get_or-append a b i d)

load_all-get_or :
    (a b : List ℕ) (m : Memory) → load_all (length b) (λ q. get_or (a ++ b) q (m q)) (length a) ≡ b
unfolding load_all
load_all-get_or a [] m = refl
load_all-get_or a (y ∷ b) m =
    let here : length a + 0 ≡ length a = omega arith in
    let first : get_or (a ++ y ∷ b) (length a) (m (length a)) ≡ y =
      rw here at (get_or-append a (y ∷ b) 0 (m (length a))) in
    let rest = load_all-get_or (a ++ y ∷ []) b m in
    λ i. first i ∷ (rw (append_assoc a (y ∷ []) b, length-append a (y ∷ [])) at rest) i

module _ (s : Segment) (valid : IsSegment s) (source dest : ℕ) (m : Memory) where
  at_ip :
      (i d : ℕ)
      → get_or (headers s source dest ++ s.text) (14 + i) d
        ≡ get_or ((4 * 16 + 5) ∷ s.ip ++ (tcp_header s source dest ++ s.text)) i d
  at_ip i d =
      rw
        (
          append_assoc s.ether ((4 * 16 + 5) ∷ s.ip ++ tcp_header s source dest) s.text,
          append_assoc s.ip (tcp_header s source dest) s.text,
        )
        (behind s.ether ((4 * 16 + 5) ∷ s.ip ++ (tcp_header s source dest ++ s.text)) 14 i d
          valid.ether_size)

  at_tcp :
      (i d : ℕ)
      → get_or (headers s source dest ++ s.text) (34 + i) d
        ≡ get_or (tcp_header s source dest ++ s.text) i d
  at_tcp i d =
      let skipped : 34 + i ≡ 14 + (20 + i) = omega arith in
      rw skipped (at_ip (20 + i) d)
      ∙ behind ((4 * 16 + 5) ∷ s.ip) (tcp_header s source dest ++ s.text) 20 i d
          (ap suc valid.ip_size)

  at_offset :
      (i d : ℕ)
      → get_or (headers s source dest ++ s.text) (46 + i) d
        ≡ get_or ((5 + s.words) * 16 ∷ 24 ∷ ((s.window ++ s.options) ++ s.text)) i d
  at_offset i d =
      let fixed = (5 + s.words) * 16 ∷ 24 ∷ (s.window ++ s.options) in
      let skipped : 46 + i ≡ 34 + (12 + i) = omega arith in
      let ports = source / 256 ∷ source % 256 ∷ dest / 256 ∷ dest % 256 ∷ s.numbers in
      rw (skipped, at_tcp (12 + i) d, append_assoc s.numbers fixed s.text)
        (behind ports (fixed ++ s.text) 12 i d (omega (arith, valid.numbers_size)))

  length-headers : length (headers s source dest) ≡ 54 + 4 * s.words
  length-headers = omega (
    arith,
    valid.ether_size,
    valid.ip_size,
    valid.numbers_size,
    valid.window_size,
    valid.options_size,
    length-append s.ether ((4 * 16 + 5) ∷ s.ip ++ tcp_header s source dest),
    length-append s.ip (tcp_header s source dest),
    length-append s.numbers ((5 + s.words) * 16 ∷ 24 ∷ (s.window ++ s.options)),
    length-append s.window s.options,
  )

  ack_psh-frame : ack_psh (frame s source dest m).buffer ≡ true
  ack_psh-frame = rw (at_offset 1 (m 47)) refl

  source_port-frame : source < 65536 → source_port (frame s source dest m).buffer ≡ source
  unfolding htons
  source_port-frame h = rw (at_tcp 0 (m 34), at_tcp 1 (m 35)) (omega arith)

  dest_port-frame : dest < 65536 → dest_port (frame s source dest m).buffer ≡ dest
  unfolding htons
  dest_port-frame h = rw (at_tcp 2 (m 36), at_tcp 3 (m 37)) (omega arith)

  header_size-frame : header_size (frame s source dest m).buffer ≡ length (headers s source dest)
  header_size-frame = rw (at_ip 0 (m 14), at_offset 0 (m 46), length-headers) (omega arith)

-- A port that is none of the server's.
abbrev pub IsOutside : ℕ → Type 0
IsOutside port = (port < 12345) ⊎ (12347 < port)

-- The bytes behind the headers, as PrintData shows them.
abbrev pub shown : Packet → List ℕ
shown p =
    let size = header_size p.buffer in
    map printed (load_all (p.len - size) p.buffer size)
    ++ (if p.len - size == 0 then [] else b'\n' ∷ [])

-- The two first lines, for the client k + 1.
abbrev pub from_server : ℕ → List ℕ
from_server k =
    codes "This is a message from server to client"
    ++ (b'1' + k) ∷ codes "!"
    ++ b'\n' ∷ codes "The message is: "

abbrev pub to_server : ℕ → List ℕ
to_server k =
    codes "This is a message from c"
    ++ (b'1' + k) ∷ codes " to server!"
    ++ b'\n' ∷ codes "The message is: "

message_is_lem : (p : Packet) → message_is p ≡ codes "The message is: " ++ shown p
unfolding message_is
message_is_lem p =
    let size = header_size p.buffer in
    let line : List ℕ = if p.len - size == 0 then [] else b'\n' ∷ [] in
    ap (λ l. codes "The message is: " ++ l)
      (print_data_lem (λ q. p.buffer (size + q)) (p.len - size)
        ∙ ap (λ l. map printed l ++ line)
            (load_all-cong (p.len - size) 0 size _ p.buffer
              (λ i lt. let start : 0 + i ≡ i = omega arith in rw start refl)))

server_first :
    (k : ℕ) (p : Packet)
    → k < 3
    → ack_psh p.buffer ≡ true
    → source_port p.buffer ≡ 12345 + k
    → IsOutside (dest_port p.buffer)
    → observe p ≡ from_server k ++ shown p
unfolding observe
server_first zero p lt flags from other = rw (flags, from, message_is_lem p) refl
server_first (suc zero) p lt flags from other =
    let d1 : (dest_port p.buffer == 12345) ≡ false = ground arith in
    rw (flags, from, d1, message_is_lem p) refl
server_first (suc (suc zero)) p lt flags from other =
    let d1 : (dest_port p.buffer == 12345) ≡ false = ground arith in
    let d2 : (dest_port p.buffer == 12346) ≡ false = ground arith in
    rw (flags, from, d1, d2, message_is_lem p) refl
server_first (suc (suc (suc k))) p lt flags from other = absurd (omega arith)

client_first :
    (k : ℕ) (p : Packet)
    → k < 3
    → ack_psh p.buffer ≡ true
    → dest_port p.buffer ≡ 12345 + k
    → IsOutside (source_port p.buffer)
    → observe p ≡ to_server k ++ shown p
unfolding observe
client_first zero p lt flags to other =
    let s1 : (source_port p.buffer == 12345) ≡ false = ground arith in
    rw (flags, to, s1, message_is_lem p) refl
client_first (suc zero) p lt flags to other =
    let s1 : (source_port p.buffer == 12345) ≡ false = ground arith in
    let s2 : (source_port p.buffer == 12346) ≡ false = ground arith in
    rw (flags, to, s1, s2, message_is_lem p) refl
client_first (suc (suc zero)) p lt flags to other =
    let s1 : (source_port p.buffer == 12345) ≡ false = ground arith in
    let s2 : (source_port p.buffer == 12346) ≡ false = ground arith in
    let s3 : (source_port p.buffer == 12347) ≡ false = ground arith in
    rw (flags, to, s1, s2, s3, message_is_lem p) refl
client_first (suc (suc (suc k))) p lt flags to other = absurd (omega arith)

stranger :
    (p : Packet)
    → IsOutside (source_port p.buffer)
    → IsOutside (dest_port p.buffer)
    → observe p ≡ []
unfolding observe
stranger p from to = ground arith

-- What PrintData makes of a text.
abbrev pub line : List ℕ → List ℕ
line text = map printed text ++ (if length text == 0 then [] else b'\n' ∷ [])

shown-frame :
    (s : Segment) (valid : IsSegment s) (source dest : ℕ) (m : Memory)
    → shown (frame s source dest m) ≡ line s.text
shown-frame s valid source dest m =
    let left : length (headers s source dest ++ s.text) - length (headers s source dest)
        ≡ length s.text =
      omega (arith, length-append (headers s source dest) s.text) in
    rw
      (
        header_size-frame s valid source dest m,
        left,
        load_all-get_or (headers s source dest) s.text m,
      )
      refl

-- The server's ports are 12345 to 12347. Of a TCP frame with ACK and PSH, an IP header of 20 bytes and
-- any TCP options, which goes from the port of client k + 1 to a port below 65536 that is not one of
-- the three, the observer prints that the server says it to this client, and of one the other way
-- that the client says it to the server; then exactly the frame's text, as PrintData shows it. Of a
-- frame between two other ports it prints nothing.
pub observe-talk :
    (k port port' : ℕ) (s : Segment) (m : Memory)
    → k < 3
    → IsOutside port
    → IsOutside port'
    → port < 65536
    → port' < 65536
    → IsSegment s
    → (observe (frame s (12345 + k) port m) ≡ from_server k ++ line s.text)
      × (observe (frame s port (12345 + k) m) ≡ to_server k ++ line s.text)
      × (observe (frame s port port' m) ≡ [])
observe-talk k port port' s m lt out out' small small' valid =
    let own : 12345 + k < 65536 = omega arith in
    let p = frame s (12345 + k) port m in
    let q = frame s port (12345 + k) m in
    let r = frame s port port' m in
    (
      server_first k p lt (ack_psh-frame s valid (12345 + k) port m)
            (source_port-frame s valid (12345 + k) port m own)
            (rw (dest_port-frame s valid (12345 + k) port m small) out)
          ∙ ap (λ l. from_server k ++ l) (shown-frame s valid (12345 + k) port m),
      client_first k q lt (ack_psh-frame s valid port (12345 + k) m)
            (dest_port-frame s valid port (12345 + k) m own)
            (rw (source_port-frame s valid port (12345 + k) m small) out)
          ∙ ap (λ l. to_server k ++ l) (shown-frame s valid port (12345 + k) m),
      stranger r (rw (source_port-frame s valid port port' m small) out)
          (rw (dest_port-frame s valid port port' m small') out'),
    )
