-- ===== src/Checksum/Spoof/Header.antt =====
-- Whether the header that send_packet sends verifies.
use cn_lab.Base.{
  ℕ, zero, suc, ◌+◌, ◌-◌, ◌*◌, ◌/◌, ◌%◌, ◌≤◌, ◌<◌, ◌≡◌, refl, ap, ◌∙◌, List, [], ◌∷◌, ◌++◌, length,
  All, All-append, length-append, length-replicate, replicate, take, drop, arith,
}
use cn_lab.Base.Words.{htons}
use cn_lab.Base.Memory.{store16, store_string, load16, load_all}
use cn_lab.Base.Memory.Laws.{
  load_all-cong, load_all-add, load_all_zeros, load_all-store_all, store_all-below, IsText,
}
use cn_lab.Checksum.{sum_words, fold, in_cksum, csum}
use cn_lab.Checksum.Fold.{IsByte, csum-in_cksum, in_cksum-le}
use cn_lab.Checksum.Field.{with_word, in_cksum-verifies}
use cn_lab.Checksum.Spoof.{spoofed_header, spoofed, send_packet}

-- Zeros behind an even number of bytes add nothing to a sum.
sum_words_zeros : (n s : ℕ) → sum_words s (replicate n 0) ≡ s
unfolding sum_words
sum_words_zeros zero s = refl
sum_words_zeros (suc zero) s = omega arith
sum_words_zeros (suc (suc n)) s = omega (arith, sum_words_zeros n (s + (0 + 0 * 256)))

sum_words_padded :
    (xs : List ℕ) (n s : ℕ) → length xs % 2 ≡ 0 → sum_words s (xs ++ replicate n 0) ≡ sum_words s xs
unfolding sum_words
sum_words_padded [] n s even = sum_words_zeros n s
sum_words_padded (x ∷ []) n s even = absurd (omega arith)
sum_words_padded (x ∷ y ∷ xs) n s even = sum_words_padded xs n _ (omega arith)

in_cksum-padded :
    (xs : List ℕ) (n : ℕ) → length xs % 2 ≡ 0 → in_cksum (xs ++ replicate n 0) ≡ in_cksum xs
unfolding in_cksum
in_cksum-padded xs n even = ap fold (sum_words_padded xs n 0 even)

-- The header's words before and behind the checksum.
abbrev front : ℕ → List ℕ → List ℕ
front proto buf =
    69
    ∷ 0
    ∷ (20 + length buf) % 256
    ∷ (20 + length buf) / 256 % 256
    ∷ htons 54321 % 256
    ∷ htons 54321 / 256 % 256
    ∷ 0
    ∷ 0
    ∷ 255
    ∷ proto % 256
    ∷ []

spoofed_header-words :
    (proto a b c d : ℕ) (buf : List ℕ)
    → load_all 20 (spoofed_header proto (a ∷ b ∷ c ∷ d ∷ []) buf) 0
      ≡ with_word (front proto buf) 0 0 (1 ∷ 2 ∷ 3 ∷ 4 ∷ a % 256 ∷ b % 256 ∷ c % 256 ∷ d % 256 ∷ [])
unfolding spoofed_header load_all
spoofed_header-words proto a b c d buf = refl

addresses-All :
    (a b c d : ℕ) → All IsByte (1 ∷ 2 ∷ 3 ∷ 4 ∷ a % 256 ∷ b % 256 ∷ c % 256 ∷ d % 256 ∷ [])
addresses-All a b c d = omega arith

front-All : (proto : ℕ) (buf : List ℕ) → All IsByte (front proto buf)
front-All proto buf = omega arith

header_zeros :
    (proto a b c d q : ℕ) (buf : List ℕ)
    → 20 ≤ q
    → spoofed_header proto (a ∷ b ∷ c ∷ d ∷ []) buf q ≡ 0
unfolding spoofed_header
header_zeros proto a b c d q buf le = ground arith

replicate-All : (n : ℕ) → All IsByte (replicate n 0)
replicate-All zero = tt
replicate-All (suc n) = (omega arith, replicate-All n)

-- The zeros that csum runs over behind the header do not matter.
csum-header :
    (proto a b c d : ℕ) (buf : List ℕ) (k : ℕ)
    → 20 ≤ k
    → k ≤ 65535
    → csum (load_all k (spoofed_header proto (a ∷ b ∷ c ∷ d ∷ []) buf) 0)
      ≡ in_cksum (
          with_word
            (front proto buf)
            0
            0
            (1 ∷ 2 ∷ 3 ∷ 4 ∷ a % 256 ∷ b % 256 ∷ c % 256 ∷ d % 256 ∷ []))
csum-header proto a b c d buf k le fits =
    let m = spoofed_header proto (a ∷ b ∷ c ∷ d ∷ []) buf in
    let rest : List ℕ = 1 ∷ 2 ∷ 3 ∷ 4 ∷ a % 256 ∷ b % 256 ∷ c % 256 ∷ d % 256 ∷ [] in
    let padding : length {A = ℕ} (replicate (k - 20) 0) ≡ k - 20 = length-replicate (k - 20) 0 in
    let header : List ℕ = with_word (front proto buf) 0 0 rest in
    let bytes : All IsByte header =
      All-append IsByte (front proto buf) (0 ∷ 0 ∷ rest) (front-All proto buf)
        (omega arith, (omega arith, addresses-All a b c d)) in
    let size : k ≡ 20 + (k - 20) = omega arith in
    let zeros = load_all_zeros (k - 20) 20 m (λ q le. header_zeros proto a b c d q buf le) in
    let split : load_all k m 0 ≡ header ++ replicate (k - 20) 0 =
      ap (λ n. load_all n m 0) size
      ∙ load_all-add 20 (k - 20) 0 m
      ∙ (λ i. spoofed_header-words proto a b c d buf i ++ zeros i) in
    ap csum split
    ∙ csum-in_cksum (header ++ replicate (k - 20) 0)
        (All-append IsByte header (replicate (k - 20) 0) bytes (replicate-All (k - 20)))
        (omega (arith, length-append header (replicate (k - 20) 0), padding))
    ∙ in_cksum-padded header (k - 20) refl

-- The header with a checksum in it.
stored_words :
    (proto a b c d sum : ℕ) (buf : List ℕ)
    → load_all 20 (store16 10 sum (spoofed_header proto (a ∷ b ∷ c ∷ d ∷ []) buf)) 0
      ≡ with_word
          (front proto buf)
          (sum % 256)
          (sum / 256 % 256)
          (1 ∷ 2 ∷ 3 ∷ 4 ∷ a % 256 ∷ b % 256 ∷ c % 256 ∷ d % 256 ∷ [])
unfolding spoofed_header load_all
stored_words proto a b c d sum buf = refl

stored_length :
    (proto a b c d : ℕ) (buf : List ℕ)
    → length buf ≤ 1003
    → load16 (spoofed_header proto (a ∷ b ∷ c ∷ d ∷ []) buf) 2 ≡ 20 + length buf
unfolding spoofed_header
stored_length proto a b c d buf fits = omega arith

sent_length :
    (proto a b c d : ℕ) (buf : List ℕ)
    → length buf ≤ 1003
    → load16 (spoofed proto (a ∷ b ∷ c ∷ d ∷ []) buf) 2 ≡ 20 + length buf
unfolding spoofed
sent_length proto a b c d buf fits =
    let m = store16 10 (csum _) (spoofed_header proto (a ∷ b ∷ c ∷ d ∷ []) buf) in
    (λ i.
      store_all-below (buf ++ 0 ∷ []) 20 2 m (omega arith) i
      + store_all-below (buf ++ 0 ∷ []) 20 3 m (omega arith) i * 256)
    ∙ stored_length proto a b c d buf fits

sent_header :
    (proto a b c d : ℕ) (buf : List ℕ)
    → 20 ≤ length buf
    → length buf ≤ 1003
    → csum (load_all 20 (spoofed proto (a ∷ b ∷ c ∷ d ∷ []) buf) 0) ≡ 0
unfolding spoofed
sent_header proto a b c d buf le fits =
    let h = spoofed_header proto (a ∷ b ∷ c ∷ d ∷ []) buf in
    let m = store16 10 (csum (load_all (load16 h 2 / 2) h 0)) h in
    let rest : List ℕ = 1 ∷ 2 ∷ 3 ∷ 4 ∷ a % 256 ∷ b % 256 ∷ c % 256 ∷ d % 256 ∷ [] in
    let sum = in_cksum (with_word (front proto buf) 0 0 rest) in
    let half = stored_length proto a b c d buf fits in
    let summed : csum (load_all (load16 h 2 / 2) h 0) ≡ sum =
      csum-header proto a b c d buf (load16 h 2 / 2) (omega (arith, half)) (omega (arith, half)) in
    let high : sum / 256 % 256 ≡ sum / 256 =
      omega (arith, in_cksum-le (with_word (front proto buf) 0 0 rest)) in
    let words : load_all 20 (store_string 20 buf m) 0
        ≡ with_word (front proto buf) (sum % 256) (sum / 256) rest =
      load_all-cong 20 0 0 _ m (λ i lt. store_all-below (buf ++ 0 ∷ []) 20 (0 + i) m (omega arith))
      ∙ ap (λ v. load_all 20 (store16 10 v h) 0) summed
      ∙ stored_words proto a b c d sum buf
      ∙ ap (λ v. with_word (front proto buf) (sum % 256) v rest) high in
    let bytes : All IsByte (with_word (front proto buf) (sum % 256) (sum / 256) rest) =
      let high_byte : sum / 256 < 256 =
        omega (arith, in_cksum-le (with_word (front proto buf) 0 0 rest)) in
      let low_byte : sum % 256 < 256 = omega arith in
      All-append IsByte (front proto buf) (sum % 256 ∷ sum / 256 ∷ rest) (front-All proto buf)
        (low_byte, (high_byte, addresses-All a b c d)) in
    ap csum words
    ∙ csum-in_cksum (with_word (front proto buf) (sum % 256) (sum / 256) rest) bytes (omega arith)
    ∙ in_cksum-verifies (front proto buf) rest (front-All proto buf) (addresses-All a b c d) refl
        (omega arith)

-- A message of 20 to 1003 bytes: the IP header that send_packet sends verifies, as csum runs over all
-- of it and over zeros behind it, and behind the header stands the message.
pub send_packet-verifies :
    (proto a b c d : ℕ) (buf : List ℕ)
    → All IsText buf
    → 20 ≤ length buf
    → length buf ≤ 1003
    → let sent = send_packet proto (a ∷ b ∷ c ∷ d ∷ []) buf in
      (csum (take 20 sent) ≡ 0) × (drop 20 sent ≡ buf)
unfolding load_all spoofed
send_packet-verifies proto a b c d buf text le fits =
    let m = spoofed proto (a ∷ b ∷ c ∷ d ∷ []) buf in
    let size = sent_length proto a b c d buf fits in
    let split : load_all (load16 m 2) m 0 ≡ load_all 20 m 0 ++ load_all (length buf) m 20 =
      ap (λ n. load_all n m 0) size ∙ load_all-add 20 (length buf) 0 m in
    (
      ap (λ l. csum (take 20 l)) split ∙ sent_header proto a b c d buf le fits,
      ap (drop 20) split ∙ load_all-store_all buf (0 ∷ []) 20 _ text,
    )
