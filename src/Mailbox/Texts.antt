-- ===== src/Mailbox/Texts.antt =====
-- The texts of requests and replies.
use cn_lab.Base.{
  ℕ, zero, suc, ◌+◌, ◌-◌, ◌<◌, ◌≡◌, refl, ap, ◌∙◌, List, [], ◌∷◌, ◌++◌, true, leb, ltb, codes,
  arith,
}
use cn_lab.Base.Int.{pos}
use cn_lab.Base.Decimal.{decimal, print_int, atoi-decimal_end, write_digits}
use cn_lab.Mailbox.{Message, request, answer, from_process, IsClient}

-- The reply that a client with this process number and id is to get.
abbrev pub reply : ℕ → ℕ → Message
reply c id = record { mtype = id; mtext = codes "message from P1 to P" ++ (decimal c ++ codes " ") }

decimal_digit : (c : ℕ) → c < 10 → decimal c ≡ (b'0' + c) ∷ []
unfolding decimal write_digits
decimal_digit zero lt = refl
decimal_digit (suc f) lt = let small : ltb (suc f) 10 ≡ true = ground arith in rw small refl

from_process_lem : (c : ℕ) (mtext : List ℕ) → from_process ((b'0' + c) ∷ mtext) ≡ pos c
from_process_lem c mtext =
    let digit : leb b'0' (b'0' + c) ≡ true = ground arith in
    let back : b'0' + c - b'0' ≡ c = omega arith in rw (digit, back) refl

-- p1.c reads the process number and the id of a request and makes the reply of them.
pub answer-request : (c id : ℕ) → IsClient c → answer (request c id) ≡ reply c id
unfolding answer request print_int
answer-request c id h =
    let digit = decimal_digit c (omega arith) in
    let number = ap print_int (from_process_lem c (b'_' ∷ decimal id)) ∙ digit in
    rw digit λ i. record {
      mtype = atoi-decimal_end id i;
      mtext = codes "message from P1 to P" ++ (number i ++ codes " ");
    }
