-- ===== src/Pizza.antt =====
-- The pizza shop of 4-3-22/pizza: the boss b.c accepts a customer, passes it and its combo to one of
-- three waiters, sleeps until a waiter's signal and then passes the customer to the delivery boy
-- d.c; a waiter (w1.c, w2.c and w3.c differ in their number) takes the customer's items, signals and
-- sends them to the boy, who hands the first parcel that poll shows him to the next customer.
-- Processes move in any order. A connection is named by the number of its customer, in the order of
-- accept, and what one send writes is what one recv reads.
pub mod Lines
pub mod Texts
pub mod Parcels
pub mod Sleep
mod Samples
use cn_lab.Base.{
  ℕ, suc, ◌+◌, ◌<◌, ◌≡◌, Option, none, some, List, [], ◌∷◌, ◌++◌, Bool, true, false, ◌==◌,
  if◌then◌else◌, take,
}

-- Where the boss stands: each name is the call that comes next; `asleep` is inside pause(). w is
-- the waiter of getWaiter().
pub data Boss : Type 0 where
  accept : Boss
  recv send_fd send_combo pause asleep pass : (customer : ℕ) → Boss

-- What a waiter's stream carries, and where a waiter stands: `kill` and `send` come with combo_items.
pub data Message : Type 0 where
  customer combo : (customer : ℕ) → Message

pub data Waiter : Type 0 where
  recv_fd : Waiter
  recv_combo recv_items : (customer : ℕ) → Waiter
  kill send : (combo_items : List ℕ) → Waiter

-- Where the delivery boy stands; `recv` comes with the waiter whose revents are set.
pub data Boy : Type 0 where
  recv_fd : Boy
  poll : (customer : ℕ) → Boy
  recv : (customer w : ℕ) → Boy
  send : (customer : ℕ) → (combo_items : List ℕ) → Boy

-- The number of accepted customers, the boss, the waiter that it chose, whether SIGUSR1 is pending
-- at the boss; the waiters, the streams to them and from them; the stream to the boy, the boy, and
-- what has been sent to the customers.
pub record Shop : Type 0 where
  pub accepted : ℕ
  pub boss : Boss
  pub chosen : ℕ
  pub pending : Bool
  pub waiters : ℕ → Waiter
  pub orders : ℕ → List Message
  pub parcels : ℕ → List (List ℕ)
  pub customers : List ℕ
  pub boy : Boy
  pub delivered : List (ℕ × List ℕ)

abbrev pub update {ℓ} : {A : Type ℓ} → ℕ → A → (ℕ → A) → ℕ → A
update w a f v = if v == w then a else f v

unfoldable pub opened : Shop
opened = record {
  accepted = 0;
  boss = Boss.accept;
  chosen = 0;
  pending = false;
  waiters = λ w. Waiter.recv_fd;
  orders = λ w. [];
  parcels = λ w. [];
  customers = [];
  boy = Boy.recv_fd;
  delivered = [];
}

-- pause() returns when the handler has run.
unfoldable pub woken : Boss → Boss
woken (Boss.asleep c) = Boss.pass c
woken other = other

-- The first of the waiters whose stream has something to read, as the loop behind poll finds it.
unfoldable pub first_ready : List (List ℕ) → List (List ℕ) → List (List ℕ) → Option ℕ
first_ready (p ∷ ps) w2 w3 = some 0
first_ready [] (p ∷ ps) w3 = some 1
first_ready [] [] (p ∷ ps) = some 2
first_ready [] [] [] = none

-- combo_items has room for twenty bytes.
abbrev pub parcel_of : List ℕ → List ℕ
parcel_of items = take 20 items

-- The moves, when customer c sends `items c` and getWaiter() returns only what `may` allows.
module _ (items : ℕ → List ℕ) (may : ℕ → Bool) where
  -- The loop of b.c and its handler.
  pub data BossStep (s : Shop) : Shop → Type 0 where
    accepts :
        s.boss ≡ Boss.accept
        → BossStep s (record s { accepted = suc s.accepted; boss = Boss.recv s.accepted })
    chooses :
        (c w : ℕ)
        → s.boss ≡ Boss.recv c
        → w < 3
        → may w ≡ true
        → BossStep s (record s { boss = Boss.send_fd c; chosen = w })
    sends_fd :
        (c : ℕ)
        → s.boss ≡ Boss.send_fd c
        → BossStep s (record s {
          boss = Boss.send_combo c;
          orders = update s.chosen (s.orders s.chosen ++ Message.customer c ∷ []) s.orders;
        })
    sends_combo :
        (c : ℕ)
        → s.boss ≡ Boss.send_combo c
        → BossStep s (record s {
          boss = Boss.pause c;
          orders = update s.chosen (s.orders s.chosen ++ Message.combo c ∷ []) s.orders;
        })
    sleeps : (c : ℕ) → s.boss ≡ Boss.pause c → BossStep s (record s { boss = Boss.asleep c })
    sigusr1_handler :
        s.pending ≡ true → BossStep s (record s { boss = woken s.boss; pending = false })
    passes :
        (c : ℕ)
        → s.boss ≡ Boss.pass c
        → BossStep s (record s { boss = Boss.accept; customers = s.customers ++ c ∷ [] })

  -- The loop of a waiter, which names itself by its number.
  pub data WaiterStep (s : Shop) : Shop → Type 0 where
    waiter_recv_fd :
        (w c : ℕ) (rest : List Message)
        → s.waiters w ≡ Waiter.recv_fd
        → s.orders w ≡ Message.customer c ∷ rest
        → WaiterStep s (record s {
          waiters = update w (Waiter.recv_combo c) s.waiters;
          orders = update w rest s.orders;
        })
    waiter_recv_combo :
        (w c d : ℕ) (rest : List Message)
        → s.waiters w ≡ Waiter.recv_combo c
        → s.orders w ≡ Message.combo d ∷ rest
        → WaiterStep s (record s {
          waiters = update w (Waiter.recv_items c) s.waiters;
          orders = update w rest s.orders;
        })
    waiter_recv_items :
        (w c : ℕ)
        → s.waiters w ≡ Waiter.recv_items c
        → WaiterStep s
            (record s { waiters = update w (Waiter.kill (parcel_of (items c))) s.waiters })
    waiter_kill :
        (w : ℕ) (text : List ℕ)
        → s.waiters w ≡ Waiter.kill text
        → WaiterStep s
            (record s { waiters = update w (Waiter.send text) s.waiters; pending = true })
    waiter_send :
        (w : ℕ) (text : List ℕ)
        → s.waiters w ≡ Waiter.send text
        → WaiterStep s (record s {
          waiters = update w Waiter.recv_fd s.waiters;
          parcels = update w (s.parcels w ++ text ∷ []) s.parcels;
        })

  -- The loop of d.c.
  pub data BoyStep (s : Shop) : Shop → Type 0 where
    boy_recv_fd :
        (c : ℕ) (rest : List ℕ)
        → s.boy ≡ Boy.recv_fd
        → s.customers ≡ c ∷ rest
        → BoyStep s (record s { boy = Boy.poll c; customers = rest })
    boy_poll :
        (c w : ℕ)
        → s.boy ≡ Boy.poll c
        → first_ready (s.parcels 0) (s.parcels 1) (s.parcels 2) ≡ some w
        → BoyStep s (record s { boy = Boy.recv c w })
    boy_recv :
        (c w : ℕ) (text : List ℕ) (rest : List (List ℕ))
        → s.boy ≡ Boy.recv c w
        → s.parcels w ≡ text ∷ rest
        → BoyStep s (record s { boy = Boy.send c text; parcels = update w rest s.parcels })
    boy_send :
        (c : ℕ) (text : List ℕ)
        → s.boy ≡ Boy.send c text
        → BoyStep s (record s { boy = Boy.recv_fd; delivered = s.delivered ++ (c, text) ∷ [] })

  pub data Step (s : Shop) : Shop → Type 0 where
    by_boss : {t : Shop} → BossStep s t → Step s t
    by_waiter : {t : Shop} → WaiterStep s t → Step s t
    by_boy : {t : Shop} → BoyStep s t → Step s t

  pub data Reach (start : Shop) : Shop → Type 0 where
    here : Reach start start
    later : {s t : Shop} → Reach start s → Step s t → Reach start t
