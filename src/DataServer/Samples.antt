-- ===== src/DataServer/Samples.antt =====
-- The theorems on the multi data server at a concrete run.
use cn_lab.Base.{ℕ, ◌≤◌, ◌≡◌, some, List, [], ◌∷◌, length, All, arith}
use cn_lab.DataServer.{Hub, new_hub, Ready, client, output, serve}
use cn_lab.DataServer.Clients.{joined}
use cn_lab.DataServer.Rooms.{IsAsked, serve-new_hub}

abbrev reports : List Ready
reports = client 5 b'2' ∷ client 6 b'1' ∷ output 1 (b'h' ∷ []) ∷ client 7 b'2' ∷ []

reports-IsAsked : All IsAsked reports
reports-IsAsked = omega arith

reports_few : (d : ℕ) → length (joined d reports) ≤ 5
reports_few d = ground arith

serve-new_hub_example : (h : Hub) × (serve reports (some new_hub) ≡ some h)
serve-new_hub_example = serve-new_hub reports reports-IsAsked reports_few
