-- ===== src/Toll/Samples.antt =====
-- The theorems on the toll plaza at concrete vehicles.
use cn_lab.Base.{
  ℕ, ◌≡◌, refl, ap, some, List, [], ◌∷◌, arith, codes, get_or, replicate, if◌then◌else◌,
}
use cn_lab.Toll.{four_wheeler, Counts, count_passed, is_allowed}
use cn_lab.Toll.Gate.{Verdict, IsSent}
use cn_lab.Toll.Plaza.{Frame, pass, has_tag, pass_lem}

abbrev ip_header : List ℕ
ip_header = 0x45 ∷ replicate 19 0

abbrev frame : Frame
frame = record { header = ip_header; header' = ip_header; zeros = [] }

abbrev other : Verdict
other = record {
  number = codes "TS08";
  valid = 0;
  header = ip_header;
  header' = ip_header;
  zeros = [];
}

abbrev counts : Counts
counts = record { two_wheelers = 2; four_wheelers = 5 }

other-IsSent : IsSent other
other-IsSent = record { first = (omega arith, refl); second = refl; text = omega arith }

pass_lem_example :
    (answer : ℕ) × (pass four_wheeler (codes "AP09") (some 51000) frame (other ∷ []) counts
      ≡ some (answer, if has_tag (some 51000) then count_passed four_wheeler counts else counts))
    × (is_allowed answer ≡ has_tag (some 51000))
pass_lem_example =
    pass_lem four_wheeler (codes "AP09") (some 51000) frame (other ∷ []) counts (omega arith)
      ((other-IsSent, λ e. absurd (omega (arith, ap (λ (l : List ℕ). get_or l 0 0) e))), tt)
      (record { first = (omega arith, refl); second = refl; text = omega arith })
