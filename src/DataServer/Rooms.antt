-- ===== src/DataServer/Rooms.antt =====
-- The server's tables have room for the clients of nine data servers.
use cn_lab.Base.{
  ℕ, zero, suc, ◌+◌, ◌-◌, ◌≤◌, ◌<◌, ◌≡◌, refl, ap, ◌∙◌, some, List, [], ◌∷◌, ◌==◌, ◌&&◌, ltb,
  if◌then◌else◌, length, length-append, All, Option-cases, inl, inr, arith,
}
use cn_lab.DataServer.{
  Hub, new_hub, Ready, client, output, join, start_server, connect, accept_client, broadcast,
  handle, serve,
}
use cn_lab.DataServer.Clients.{joined, servers_for, accept_client_lem, broadcast-connected}

-- A client asks for one of the data servers 1 to 9.
abbrev pub IsAsked : Ready → Type 0
IsAsked (client nsfd option) = (b'1' ≤ option) × (option ≤ b'9')
IsAsked (output i msg) = Unit

-- How many of the first n data servers have clients.
abbrev used : ℕ → (ℕ → List ℕ) → ℕ
used zero f = 0
used (suc n) f = servers_for (f n) + used n f

used_bound : (n : ℕ) (f : ℕ → List ℕ) → f 0 ≡ [] → used (suc n) f ≤ n
used_bound zero f e = rw e (omega arith)
used_bound (suc n) f e = ground (arith, used_bound n f e)

used-join :
    (n d nsfd : ℕ) (f : ℕ → List ℕ)
    → used n (join d nsfd f) ≡ used n f + (if ltb d n && length (f d) == 0 then 1 else 0)
used-join zero d nsfd f = ground arith
used-join (suc n) d nsfd f = ground (arith, used-join n d nsfd f, length-append (f n) (nsfd ∷ []))

record HasRoom (h : Hub) (rs : List Ready) : Type 0 where
  pub servers : length h.d_number ≡ used 10 h.connected
  pub no_zero : h.connected 0 ≡ []
  pub few : (d : ℕ) → length (h.connected d) + length (joined d rs) ≤ 5

accept_client-some :
    (nsfd option : ℕ) (h : Hub)
    → b'1' ≤ option
    → option ≤ b'9'
    → length (h.connected (option - b'0')) < 5
    → (length (h.connected (option - b'0')) ≡ 0 → length h.d_number < 9)
    → (h' : Hub) × (accept_client nsfd option h ≡ some h')
unfolding accept_client start_server connect
accept_client-some nsfd option h least most few room =
    elim (Option-cases (accept_client nsfd option h)) [
      | inl failed ↦ absurd (ground (arith, failed, few, room))
      | inr found ↦ found
    ]

client-HasRoom :
    (nsfd option : ℕ) (rs : List Ready) (h h' : Hub)
    → IsAsked (client nsfd option)
    → HasRoom h (client nsfd option ∷ rs)
    → accept_client nsfd option h ≡ some h'
    → HasRoom h' rs
client-HasRoom nsfd option rs h h' (least, most) i done =
    let (connected, _, servers) = accept_client_lem nsfd option h h' done in
    let d = option - b'0' in
    record {
      servers =
          rw (connected, servers, used-join 10 d nsfd h.connected)
            (ground (arith, i.servers, length-append h.d_number (d ∷ [])));
      no_zero = rw connected (ground (arith, i.no_zero));
      few = λ e. rw connected (ground (arith, i.few e, length-append (h.connected e) (nsfd ∷ [])));
    }

spare_server :
    (nsfd option : ℕ) (h : Hub)
    → b'1' ≤ option
    → option ≤ b'9'
    → length h.d_number ≡ used 10 h.connected
    → h.connected 0 ≡ []
    → length (h.connected (option - b'0')) ≡ 0
    → length h.d_number < 9
spare_server nsfd option h least most servers zero_empty unused =
    let d = option - b'0' in
    let zero_kept : join d nsfd h.connected 0 ≡ [] = ground (arith, zero_empty) in
    let at_most : used 10 (join d nsfd h.connected) ≤ 9 =
      used_bound 9 (join d nsfd h.connected) zero_kept in
    ground (arith, at_most, servers, used-join 10 d nsfd h.connected, unused)

handle-some :
    (r : Ready) (rs : List Ready) (h : Hub)
    → IsAsked r
    → HasRoom h (r ∷ rs)
    → (h' : Hub) × (handle r h ≡ some h') × HasRoom h' rs
unfolding handle
handle-some (client nsfd option) rs h (least, most) i =
    let few : length (h.connected (option - b'0')) < 5 = ground (arith, i.few (option - b'0')) in
    let (h', done) =
      accept_client-some nsfd option h least most few
        (spare_server nsfd option h least most i.servers i.no_zero) in
    (h', done, client-HasRoom nsfd option rs h h' (least, most) i done)
handle-some (output j msg) rs h asked i =
    let (connected, servers) = broadcast-connected j msg h in
    (
      broadcast j msg h,
      refl,
      record {
        servers = rw (connected, servers) i.servers;
        no_zero = rw connected i.no_zero;
        few = λ e. rw connected (i.few e);
      },
    )

serve-some :
    (rs : List Ready) (h : Hub)
    → All IsAsked rs
    → HasRoom h rs
    → (h' : Hub) × (serve rs (some h) ≡ some h')
unfolding serve
serve-some [] h asked i = (h, refl)
serve-some (r ∷ rs) h (asked_now, asked) i =
    let (m, done, kept) = handle-some r rs h asked_now i in
    let (h', e) = serve-some rs m asked kept in (h', ap (serve rs) done ∙ e)

-- If the clients ask for data servers 1 to 9 only, and at most five for each, then the server never
-- writes past its tables, whatever poll reports and in whatever order.
pub serve-new_hub :
    (rs : List Ready)
    → All IsAsked rs
    → ((d : ℕ) → length (joined d rs) ≤ 5)
    → (h : Hub) × (serve rs (some new_hub) ≡ some h)
unfolding new_hub
serve-new_hub rs asked few =
    serve-some rs new_hub asked
      (record { servers = refl; no_zero = refl; few = λ d. omega (arith, few d) })
