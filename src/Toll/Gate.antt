-- ===== src/Toll/Gate.antt =====
-- The gate's wait for a verdict.
use cn_lab.Base.{
  ℕ, ◌<◌, ◌≡◌, ◌≢◌, ◌∙◌, some, true, ltb, arith, List, [], ◌∷◌, ◌++◌, inl, inr, length, drop,
  drop-append, Bool-cases, All,
}
use cn_lab.Base.Decimal.{decimal, atoi, atoi-decimal}
use cn_lab.Base.Packet.{
  header_length, header_length-append, IsHeader, c_string, c_string-append, NoNul, same_text,
  same_text_refl, eq_of_same_text,
}
use cn_lab.Toll.{verdict_packets, find_verdict, await_verdict}

-- What FT.c sends for one vehicle: the number, the verdict, and what stands around them in the two
-- packets.
pub record Verdict : Type 0 where
  pub number : List ℕ
  pub valid : ℕ
  pub header : List ℕ
  pub header' : List ℕ
  pub zeros : List ℕ

-- The two IP headers have the same length, and the number is a C string.
pub record IsSent (v : Verdict) : Type 0 where
  pub first : IsHeader v.header
  pub second : length v.header' ≡ length v.header
  pub text : NoNul v.number

unfoldable pub packets_of : List Verdict → List (List ℕ)
packets_of [] = []
packets_of (v ∷ vs) = verdict_packets v.header v.header' v.zeros v.number v.valid ++ packets_of vs

number_read :
    (v : Verdict)
    → IsSent v
    → let p = v.header ++ (v.number ++ 0 ∷ v.zeros) in
      c_string (drop (header_length p) p) ≡ v.number
number_read v s =
    rw
      (
        header_length-append v.header (v.number ++ 0 ∷ v.zeros) s.first,
        drop-append v.header (v.number ++ 0 ∷ v.zeros),
      )
      (c_string-append v.number v.zeros s.text)

verdict_read :
    (v : Verdict)
    → IsSent v
    → atoi (
        drop
          (header_length (v.header ++ (v.number ++ 0 ∷ v.zeros)))
          (v.header' ++ (decimal v.valid ++ 0 ∷ v.zeros)))
      ≡ v.valid
verdict_read v s =
    rw
      (
        header_length-append v.header (v.number ++ 0 ∷ v.zeros) s.first,
        ← s.second,
        drop-append v.header' (decimal v.valid ++ 0 ∷ v.zeros),
      )
      (atoi-decimal v.valid v.zeros)

-- The first verdict in the queue that carries the vehicle's number is taken, whoever it was sent
-- for.
await_own :
    (v : Verdict) (rest : List (List ℕ))
    → IsSent v
    → find_verdict v.number (verdict_packets v.header v.header' v.zeros v.number v.valid ++ rest)
      ≡ some (v.valid, rest)
unfolding find_verdict verdict_packets
await_own v rest s = rw (number_read v s, same_text_refl v.number, verdict_read v s)

await_other :
    (number : List ℕ) (v : Verdict) (rest : List (List ℕ))
    → IsSent v
    → v.number ≢ number
    → find_verdict number (verdict_packets v.header v.header' v.zeros v.number v.valid ++ rest)
      ≡ find_verdict number rest
unfolding find_verdict verdict_packets
await_other number v rest s h = elim (Bool-cases (same_text v.number number)) [
  | inl e ↦ absurd (h (eq_of_same_text v.number number e))
  | inr e ↦ rw (number_read v s, e)
]

-- A gate that waits for a vehicle passes over the verdicts of other vehicles and takes the first one
-- that carries its number; the packets behind it stay in the socket.
find_verdict-first :
    (others : List Verdict) (v : Verdict) (later : List Verdict)
    → All (λ o. IsSent o × (o.number ≢ v.number)) others
    → IsSent v
    → find_verdict v.number (packets_of (others ++ v ∷ later)) ≡ some (v.valid, packets_of later)
unfolding packets_of
find_verdict-first [] v later h s = await_own v (packets_of later) s
find_verdict-first (o ∷ others) v later ((so, ne), h) s =
    await_other v.number o (packets_of (others ++ v ∷ later)) so ne
    ∙ find_verdict-first others v later h s

pub await_verdict-first :
    (others : List Verdict) (v : Verdict) (later : List Verdict)
    → length v.number < 10
    → All (λ o. IsSent o × (o.number ≢ v.number)) others
    → IsSent v
    → await_verdict v.number (packets_of (others ++ v ∷ later)) ≡ some (v.valid, packets_of later)
unfolding await_verdict
await_verdict-first others v later short h s =
    let fits : ltb (length v.number) 10 ≡ true = ground arith in
    rw fits (find_verdict-first others v later h s)
