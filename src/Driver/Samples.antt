-- ===== src/Driver/Samples.antt =====
-- The theorems on the devices at concrete inputs, and tests.
use cn_lab.Base.{ℕ, ◌+◌, ◌≡◌, refl, none, some, List, arith, replicate}
use cn_lab.Base.Int.{pos, negsuc, ◌+ℤ◌, ◌*ℤ◌, ◌/ℤ◌}
use cn_lab.Base.Words.{int32}
use cn_lab.Base.Decimal.{decimal, print_int}
use cn_lab.Base.Memory.{Memory}
use cn_lab.Driver.CelFar.{Device, c_to_f, open_dev}
use cn_lab.Driver.CelFar.Session.{celsius, converted, round, round_lem}
use cn_lab.Driver.TickTock.{Clock}

abbrev device : Device
device = record { mybuf = none; in_temp = pos 0; out_temp = pos 0 }

-- -40 degrees are the same on both scales.
minus_forty : c_to_f (negsuc 39) ≡ negsuc 39
unfolding c_to_f int32 ◌+ℤ◌ ◌*ℤ◌ ◌/ℤ◌
minus_forty = refl

abbrev junk : List ℕ
junk = replicate 94 1

round_lem_example :
    (d : Device) × (round celsius (negsuc 39) junk (open_dev (replicate 100 2) device)
      ≡ some (d, converted celsius (negsuc 39)))
    × (d.in_temp ≡ negsuc 39)
    × (d.out_temp ≡ converted celsius (negsuc 39))
unfolding print_int decimal c_to_f ◌+ℤ◌ ◌*ℤ◌ ◌/ℤ◌
round_lem_example =
    round_lem celsius (negsuc 39) junk (replicate 100 2) device refl refl (omega arith)

abbrev alphabet : Memory
alphabet = λ i. b'a' + i

abbrev clock : Clock
clock = record { tv_sec = pos 3; tv_nsec = 9 }

-- 240000000 * 9 is no int: the driver answers with a temperature below zero.
overflow_test : c_to_f (pos 240000000) ≡ negsuc 426993426
unfolding c_to_f int32 ◌+ℤ◌ ◌*ℤ◌ ◌/ℤ◌
overflow_test = refl
