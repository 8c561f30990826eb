-- ===== src/DataServer.antt =====
-- The multi data server 4-2-22/DS.c: a client asks for one of several data servers, which is started
-- for its first client, and whatever a data server prints goes to all of its clients.
pub mod Rooms
pub mod Clients
mod Samples
use cn_lab.Base.{
  ℕ, zero, suc, ◌+◌, ◌-◌, ◌≡◌, Option, none, some, List, [], ◌∷◌, ◌++◌, Bool, true, false, ◌==◌,
  ◌||◌, ltb, leb, if◌then◌else◌, length, get_elem?, map,
}

-- clients_connected with its counts, d_number from index 1 on, and what has been sent, as the
-- client's descriptor and the text.
pub record Hub : Type 0 where
  pub connected : ℕ → List ℕ
  pub d_number : List ℕ
  pub sent : List (ℕ × List ℕ)

unfoldable pub new_hub : Hub
new_hub = record { connected = λ d. []; d_number = []; sent = [] }

-- What poll reports at an index: a client that connects and sends its option, or what a data server
-- has printed.
pub data Ready : Type 0 where
  client : (nsfd option : ℕ) → Ready
  output : (i : ℕ) → (msg : List ℕ) → Ready

abbrev pub join : ℕ → ℕ → (ℕ → List ℕ) → ℕ → List ℕ
join d nsfd connected e = if e == d then connected e ++ nsfd ∷ [] else connected e

-- popen of a data server for its first client; `none` is a write past pfds and d_number.
unfoldable pub start_server : ℕ → Hub → Option Hub
start_server d h =
    if length (h.connected d) == 0
    then (if leb 10 (1 + length h.d_number)
        then none
        else some (record h { d_number = h.d_number ++ d ∷ [] }))
    else some h

-- `none` is a write past the five clients of a data server.
unfoldable pub connect : ℕ → ℕ → Hub → Option Hub
connect d nsfd h =
    if leb 5 (length (h.connected d))
    then none
    else some (record h { connected = join d nsfd h.connected })

abbrev pub then_connect : ℕ → ℕ → Option Hub → Option Hub
then_connect d nsfd none = none
then_connect d nsfd (some h) = connect d nsfd h

-- The branch of DS.c's own socket; `none` also for an option that is no index of the ten counts.
unfoldable pub accept_client : (nsfd option : ℕ) → Hub → Option Hub
accept_client nsfd option h =
    let d = option - b'0' in
    if ltb option b'0' || leb 10 d then none else then_connect d nsfd (start_server d h)

unfoldable pub send_all : Option ℕ → List ℕ → Hub → Hub
send_all none msg h = h
send_all (some d) msg h = record h { sent = h.sent ++ map (λ nsfd. (nsfd, msg)) (h.connected d) }

-- The other branch, for index i.
unfoldable pub broadcast : ℕ → List ℕ → Hub → Hub
broadcast i msg h = send_all (get_elem? h.d_number (i - 1)) msg h

unfoldable pub handle : Ready → Hub → Option Hub
handle (Ready.client nsfd option) h = accept_client nsfd option h
handle (Ready.output i msg) h = some (broadcast i msg h)

-- The loop of main over what poll reports, in the order in which it is handled.
unfoldable pub serve : List Ready → Option Hub → Option Hub
serve rs none = none
serve [] (some h) = some h
serve (r ∷ rs) (some h) = serve rs (handle r h)
