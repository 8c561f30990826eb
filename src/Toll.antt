-- ===== src/Toll.antt =====
-- The toll plaza of midlab/toll_gate: v.c is a vehicle, g1.c to g3.c are the gates, TM.c the toll
-- manager and FT.c the FastTag server, whose verdicts go to all gates as raw packets.
pub mod Gate
pub mod Plaza
mod Samples
use cn_lab.Base.{
  ℕ, ◌+◌, ◌-◌, ◌*◌, ◌%◌, Option, none, some, List, [], ◌∷◌, ◌++◌, Bool, true, false, ◌&&◌, ltb,
  ◌==◌, if◌then◌else◌, length, drop,
}
use cn_lab.Base.Int.{ℤ, pos, negsuc, abs}
use cn_lab.Base.Decimal.{decimal, atoi}
use cn_lab.Base.Packet.{header_length, c_string, same_text}

-- v.c: the port that a vehicle connects to.
unfoldable pub vehicle_port : ℕ → ℕ → ℕ
vehicle_port gate_number num_wheels = 8080 + 10 * (gate_number - 1) + num_wheels

-- g1.c to g3.c: the ports that a gate listens on.
unfoldable pub w2_port : ℕ → ℕ
w2_port gate_number = 8080 + 10 * (gate_number - 1) + 2

unfoldable pub w4_port : ℕ → ℕ
w4_port gate_number = 8080 + 10 * (gate_number - 1) + 4

-- The two sockets of a gate: pfd[0] and pfd[1].
pub data Lane : Type 0 where
  two_wheeler four_wheeler : Lane

-- TM.c: the shared counters.
pub record Counts : Type 0 where
  pub two_wheelers : ℕ
  pub four_wheelers : ℕ

-- two_wheeler_handler and four_wheeler_handler, run by SIGUSR1 and SIGUSR2.
unfoldable pub count_passed : Lane → Counts → Counts
count_passed two_wheeler c = record c { two_wheelers = c.two_wheelers + 1 }
count_passed four_wheeler c = record c { four_wheelers = c.four_wheelers + 1 }

-- printVehicleFdDetails of TM.c: the peer's port, or -1 if getpeername fails.
unfoldable pub fast_tag_id : Option ℕ → ℤ
fast_tag_id none = negsuc 0
fast_tag_id (some port) = pos port

-- FT.c: fast_tag_id % 3 == 0, as an int.
unfoldable pub valid_fast_tag : ℤ → ℕ
valid_fast_tag id = if abs id % 3 == 0 then 1 else 0

-- The two raw packets that FT.c sends for a vehicle, behind the IP headers that the kernel puts in
-- front: the vehicle's number and the printed verdict, each in a cleared buffer.
unfoldable pub verdict_packets : List ℕ → List ℕ → List ℕ → List ℕ → ℕ → List (List ℕ)
verdict_packets header header' zeros number valid =
    (header ++ (number ++ 0 ∷ zeros)) ∷ (header' ++ (decimal valid ++ 0 ∷ zeros)) ∷ []

-- The inner loop of a gate: packets are read two by two until the first of a pair holds the number
-- of the vehicle that waits; the second is then read behind a header of the first one's length. The
-- verdict and the packets left; `none` means that the gate still waits.
unfoldable pub find_verdict : List ℕ → List (List ℕ) → Option (ℕ × List (List ℕ))
find_verdict number [] = none
find_verdict number (p ∷ []) = none
find_verdict number (p ∷ q ∷ packets) =
    let later = find_verdict number packets in
    if same_text (c_string (drop (header_length p) p)) number
    then some (atoi (drop (header_length p) q), packets)
    else later

-- The number stands in vehicle_number, 10 bytes: only a shorter one has its NUL there. With a longer
-- one strcmp reads past the buffer, which is outside the model (`none`).
unfoldable pub await_verdict : List ℕ → List (List ℕ) → Option (ℕ × List (List ℕ))
await_verdict number packets = if ltb (length number) 10 then find_verdict number packets else none

-- What a gate does with a vehicle once its verdict is there: the answer to the vehicle, and the
-- signal to the toll manager if it is not 0. The signals of two gates that the toll manager has not
-- handled merge into one, which is left out.
unfoldable pub settle : Lane → ℕ → Counts → Counts
settle lane valid c = if valid == 0 then c else count_passed lane c

-- v.c: accepted == 1
unfoldable pub is_allowed : ℕ → Bool
is_allowed accepted = accepted == 1
