-- ===== src/Cricket/Match.antt =====
-- One delivery through all the processes: bowl.c, bat.c, the raw packet, fielder.c and umpire.c.
use cn_lab.Base.{
  ℕ, ◌+◌, ◌<◌, ◌≡◌, ap, ◌∙◌, inl, inr, Option, some, List, [], ◌∷◌, ◌++◌, if◌then◌else◌, Bool-cases,
}
use mathlib.Core.Option
use cn_lab.Base.Packet.{payload, IsHeader, payload-append}
use cn_lab.Base.Decimal.{decimal, atoi, atoi-decimal}
use cn_lab.Cricket.{Umpire, Wait, hit, timeout, max_batsmen, umpire_round}
use cn_lab.Cricket.Scoring.{IsScored, is_out, runs_of, umpire_round_lem}
use cn_lab.Cricket.Ball.{File, bowl, bat_reads, misses, IsRead, bat_reads-bowl}

-- What the processes choose or find: the bowler's speed and spin, the batsman's score, the IP header
-- that the kernel puts in front of his packet, and what his variables and his buffer behind the text
-- held.
pub record Delivery : Type 0 where
  pub speed : ℕ
  pub spin : ℕ
  pub score : ℕ
  pub header : List ℕ
  pub junk : List ℕ
  pub held : ℕ × ℕ

pub record Match : Type 0 where
  pub ball : File
  pub umpire : Umpire

-- sprintf and sendto of bat.c, behind the header.
abbrev pub packet_of : Delivery → List ℕ
packet_of d = d.header ++ (decimal d.score ++ 0 ∷ d.junk)

-- On a miss the batsman sends nothing, and the umpire's wait for him times out.
unfoldable pub deliver : Delivery → Match → Option Match
deliver d m =
    let ((speed, spin), ball) = bat_reads d.held.0 d.held.1 (bowl d.speed d.spin m.ball) in
    let round =
      if misses speed spin
      then umpire_round timeout 0 m.umpire
      else umpire_round hit (atoi (payload (packet_of d))) m.umpire in
    Option.map (λ u. record { ball = ball; umpire = u }) round

-- The umpire reads the score that the batsman sent.
pub atoi-payload : (d : Delivery) → IsHeader d.header → atoi (payload (packet_of d)) ≡ d.score
atoi-payload d h =
    ap atoi (payload-append d.header (decimal d.score ++ 0 ∷ d.junk) h)
    ∙ atoi-decimal d.score d.junk

abbrev pub wait_of : Delivery → Wait
wait_of d = if misses d.speed d.spin then timeout else hit

abbrev round : Delivery → Match → Option Umpire
round d m =
    if misses d.speed d.spin
    then umpire_round timeout 0 m.umpire
    else umpire_round hit (atoi (payload (packet_of d))) m.umpire

-- The umpire's round is that of the batsman's score; after a timeout the score plays no part.
round_of :
    (d : Delivery) (m : Match)
    → IsHeader d.header
    → round d m ≡ umpire_round (wait_of d) d.score m.umpire
unfolding umpire_round
round_of d m h = elim (Bool-cases (misses d.speed d.spin)) [
  | inl miss ↦ rw miss
  | inr met ↦ rw (met, atoi-payload d h)
]

deliver-round :
    (d : Delivery) (m : Match) (ball : File) (u : Umpire)
    → bat_reads d.held.0 d.held.1 (bowl d.speed d.spin m.ball) ≡ ((d.speed, d.spin), ball)
    → round d m ≡ some u
    → deliver d m ≡ some (record { ball = ball; umpire = u })
unfolding deliver
deliver-round d m ball u passed e = rw passed (rw e)

-- While fewer than twenty batsmen are out a delivery is played to its end. The ball file grows by
-- the bowler's two numbers and has been read through; the batsman is out if the sum of the two is a
-- multiple of four, so that he misses, or if his hit is in the air; otherwise his runs are added to
-- the total, which stays the sum over the batsmen.
pub deliver_lem :
    (d : Delivery) (m : Match)
    → IsHeader d.header
    → IsRead m.ball
    → IsScored m.umpire
    → m.umpire.current_batsman < max_batsmen
    → (m' : Match) × (deliver d m ≡ some m')
      × (m'.ball.cells ≡ m.ball.cells ++ d.speed ∷ d.spin ∷ [])
      × IsRead m'.ball
      × (m'.umpire.current_batsman
          ≡ m.umpire.current_batsman + (if is_out (wait_of d) d.score then 1 else 0))
      × (m'.umpire.total_score ≡ m.umpire.total_score + runs_of (wait_of d) d.score)
      × IsScored m'.umpire
deliver_lem d m header read scored lt =
    let (ball, passed, cells, done) = bat_reads-bowl d.speed d.spin d.held.0 d.held.1 m.ball read in
    let (u, e, current, total, still) = umpire_round_lem (wait_of d) d.score m.umpire scored lt in
    (
      record { ball = ball; umpire = u },
      deliver-round d m ball u passed (round_of d m header ∙ e),
      cells,
      done,
      current,
      total,
      still,
    )
