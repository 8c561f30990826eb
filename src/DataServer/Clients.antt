-- ===== src/DataServer/Clients.antt =====
-- Which clients a data server has, and what they hear.
use cn_lab.Base.{
  ℕ, suc, ◌+◌, ◌-◌, ◌≡◌, ◌≢◌, refl, ap, sym, ◌∙◌, Option, none, some, List, [], ◌∷◌, ◌++◌,
  append-nil, append_assoc, ◌==◌, if◌then◌else◌, length, length-append, get_elem?, Option-cases,
  inl, inr, arith,
}
use mathlib.Core.Option.{some_inj}
use cn_lab.DataServer.{
  Hub, new_hub, Ready, client, output, join, start_server, connect, accept_client, broadcast,
  send_all, handle, serve,
}

-- The clients that have asked for data server d, in the order in which they came.
abbrev pub joined : ℕ → List Ready → List ℕ
joined d [] = []
joined d (client nsfd option ∷ rs) = if d == option - b'0' then nsfd ∷ joined d rs else joined d rs
joined d (output i msg ∷ rs) = joined d rs

-- How often a number occurs.
abbrev pub count : ℕ → List ℕ → ℕ
count d [] = 0
count d (e ∷ l) = if d == e then suc (count d l) else count d l

count-append : (d : ℕ) (l l' : List ℕ) → count d (l ++ l') ≡ count d l + count d l'
count-append d [] l' = omega arith
count-append d (e ∷ l) l' = ground (arith, count-append d l l')

-- One data server where there are clients, none elsewhere.
abbrev pub servers_for : List ℕ → ℕ
servers_for clients = if length clients == 0 then 0 else 1

pub record IsStarted (h : Hub) : Type 0 where
  pub each : (d : ℕ) → count d h.d_number ≡ servers_for (h.connected d)

-- What a client that is accepted changes.
pub accept_client_lem :
    (nsfd option : ℕ) (h h' : Hub)
    → accept_client nsfd option h ≡ some h'
    → (h'.connected ≡ join (option - b'0') nsfd h.connected)
      × (h'.sent ≡ h.sent)
      × (h'.d_number ≡ (
          if length (h.connected (option - b'0')) == 0
          then h.d_number ++ (option - b'0') ∷ []
          else h.d_number))
unfolding accept_client start_server connect
accept_client_lem nsfd option h h' e = ground (arith, e)

join-joined :
    (d nsfd option : ℕ) (connected : ℕ → List ℕ)
    → join (option - b'0') nsfd connected d ≡ connected d ++ joined d (client nsfd option ∷ [])
join-joined d nsfd option connected = ground (arith, append-nil (connected d))

pub joined-first :
    (d : ℕ) (r : Ready) (rs : List Ready) → joined d (r ∷ []) ++ joined d rs ≡ joined d (r ∷ rs)
joined-first d (client nsfd option) rs = ground arith
joined-first d (output i msg) rs = refl

started_by :
    (d o nsfd : ℕ) (h : Hub)
    → IsStarted h
    → count d (if length (h.connected o) == 0 then h.d_number ++ o ∷ [] else h.d_number)
      ≡ servers_for (join o nsfd h.connected d)
started_by d o nsfd h i =
    ground (
      arith,
      i.each d,
      count-append d h.d_number (o ∷ []),
      length-append (h.connected d) (nsfd ∷ []),
    )

send_all-connected :
    (to : Option ℕ) (msg : List ℕ) (h : Hub)
    → ((send_all to msg h).connected ≡ h.connected) × ((send_all to msg h).d_number ≡ h.d_number)
unfolding send_all
send_all-connected none msg h = (refl, refl)
send_all-connected (some d) msg h = (refl, refl)

pub broadcast-connected :
    (i : ℕ) (msg : List ℕ) (h : Hub)
    → ((broadcast i msg h).connected ≡ h.connected) × ((broadcast i msg h).d_number ≡ h.d_number)
unfolding broadcast
broadcast-connected i msg h = send_all-connected (get_elem? h.d_number (i - 1)) msg h

pub handle-joined :
    (d : ℕ) (r : Ready) (h h' : Hub)
    → handle r h ≡ some h'
    → h'.connected d ≡ h.connected d ++ joined d (r ∷ [])
unfolding handle
handle-joined d (client nsfd option) h h' e =
    let (connected, _, _) = accept_client_lem nsfd option h h' e in
    ap (λ f. f d) connected ∙ join-joined d nsfd option h.connected
handle-joined d (output i msg) h h' e =
    let (connected, _) = broadcast-connected i msg h in
    let f : h' ≡ broadcast i msg h = sym (some_inj.0 e) in rw (f, connected, append-nil) refl

handle-IsStarted : (r : Ready) (h h' : Hub) → handle r h ≡ some h' → IsStarted h → IsStarted h'
unfolding handle
handle-IsStarted (client nsfd option) h h' e i =
    let (connected, _, servers) = accept_client_lem nsfd option h h' e in
    record { each = λ d. rw (connected, servers) (started_by d (option - b'0') nsfd h i) }
handle-IsStarted (output j msg) h h' e i =
    let (connected, servers) = broadcast-connected j msg h in
    let f : h' ≡ broadcast j msg h = sym (some_inj.0 e) in
    record { each = λ d. rw (f, connected, servers) (i.each d) }

serve-none : (rs : List Ready) {h' : Hub} → serve rs none ≢ some h'
unfolding serve
serve-none [] e = absurd (cc)
serve-none (r ∷ rs) e = absurd (cc)

pub serve_first :
    (r : Ready) (rs : List Ready) (h h' : Hub)
    → serve (r ∷ rs) (some h) ≡ some h'
    → (m : Hub) × (handle r h ≡ some m) × (serve rs (some m) ≡ some h')
unfolding serve
serve_first r rs h h' e = elim (Option-cases (handle r h)) [
  | inl failed ↦ absurd (serve-none rs (ap (serve rs) (sym failed) ∙ e))
  | inr (m, done) ↦ (m, done, ap (serve rs) (sym done) ∙ e)
]

serve_done : {h h' : Hub} → serve [] (some h) ≡ some h' → h' ≡ h
unfolding serve
serve_done e = sym (some_inj.0 e)

serve-joined :
    (d : ℕ) (rs : List Ready) (h h' : Hub)
    → serve rs (some h) ≡ some h'
    → h'.connected d ≡ h.connected d ++ joined d rs
serve-joined d [] h h' e = let f : h' ≡ h = serve_done e in rw (f, append-nil) refl
serve-joined d (r ∷ rs) h h' e =
    let (m, done, e') = serve_first r rs h h' e in
    serve-joined d rs m h' e'
    ∙ ap (λ l. l ++ joined d rs) (handle-joined d r h m done)
    ∙ append_assoc (h.connected d) (joined d (r ∷ [])) (joined d rs)
    ∙ ap (λ l. h.connected d ++ l) (joined-first d r rs)

serve-IsStarted :
    (rs : List Ready) (h h' : Hub) → serve rs (some h) ≡ some h' → IsStarted h → IsStarted h'
serve-IsStarted [] h h' e i = let f : h' ≡ h = serve_done e in rw f i
serve-IsStarted (r ∷ rs) h h' e i =
    let (m, done, e') = serve_first r rs h h' e in
    serve-IsStarted rs m h' e' (handle-IsStarted r h m done i)

new_hub-IsStarted : IsStarted new_hub
unfolding new_hub
new_hub-IsStarted = record { each = λ d. refl }

-- Whatever poll has reported and in whatever order, there is exactly one data server for a number
-- that some client has asked for, and none for the others.
pub one_server :
    (rs : List Ready) {h : Hub} (d : ℕ)
    → serve rs (some new_hub) ≡ some h
    → count d h.d_number ≡ (if length (joined d rs) == 0 then 0 else 1)
unfolding new_hub
one_server rs {h} d e =
    (serve-IsStarted rs new_hub h e new_hub-IsStarted).each d
    ∙ ap servers_for (serve-joined d rs new_hub h e)
