-- ===== src/Observer/Samples.antt =====
-- The theorem on the observer at concrete frames.
use cn_lab.Base.{◌+◌, ◌≡◌, refl, [], ◌++◌, inl, inr, codes, arith, replicate}
use cn_lab.Observer.{observe}
use cn_lab.Observer.Talk.{Segment, frame, from_server, to_server, line, observe-talk}

-- "Amazon" behind a TCP header with three words of options.
abbrev amazon : Segment
amazon = record {
  ether = replicate 14 1;
  ip = replicate 19 2;
  numbers = replicate 8 3;
  words = 3;
  window = replicate 6 4;
  options = replicate 12 5;
  text = codes "Amazon";
}

observe-talk_example :
    (observe (frame amazon (12345 + 1) 40000 (λ q. 9)) ≡ from_server 1 ++ line (codes "Amazon"))
    × (observe (frame amazon 40000 (12345 + 1) (λ q. 9)) ≡ to_server 1 ++ line (codes "Amazon"))
    × (observe (frame amazon 40000 22 (λ q. 9)) ≡ [])
observe-talk_example =
    observe-talk 1 40000 22 amazon (λ q. 9) (omega arith) (inr (omega arith)) (inl (omega arith))
      (omega arith) (omega arith)
      (record {
        ether_size = refl;
        ip_size = refl;
        numbers_size = refl;
        window_size = refl;
        words_fit = omega arith;
        options_size = refl;
      })
