-- ===== src/Pizza/Lines.antt =====
-- The two lines in which customers and parcels move through the shop.
use cn_lab.Base.{
  ℕ, zero, suc, ◌+◌, ◌≡◌, refl, ap, sym, ◌∙◌, List, [], ◌∷◌, ◌++◌, append-nil, append_assoc, map,
  Bool, length, arith,
}
use cn_lab.Pizza.{
  Boss, Boy, Shop, opened, woken, Step, by_boss, by_waiter, by_boy, accepts, chooses, sends_fd,
  sends_combo, sleeps, sigusr1_handler, passes, waiter_recv_fd, waiter_recv_combo,
  waiter_recv_items, waiter_kill, waiter_send, boy_recv_fd, boy_poll, boy_recv, boy_send, Reach,
  here, later,
}

-- k customers in the order of accept, from number c on.
abbrev pub numbers : ℕ → ℕ → List ℕ
numbers c zero = []
numbers c (suc k) = c ∷ numbers (suc c) k

pub numbers-suc : (c k m : ℕ) → m ≡ c + k → numbers c (suc k) ≡ numbers c k ++ m ∷ []
numbers-suc c zero m e = grind (arith, e)
numbers-suc c (suc k) m e = ap (λ l. c ∷ l) (numbers-suc (suc c) k m (omega arith))

pub numbers-front : (c k : ℕ) (xs ys : List ℕ) → xs ++ ys ≡ numbers c k → xs ≡ numbers c (length xs)
numbers-front c k [] ys h = refl
numbers-front c zero (x ∷ xs) ys h = absurd (cc)
numbers-front c (suc k) (x ∷ xs) ys h = grind (arith, numbers-front (suc c) k xs ys)

pub map-append {ℓ κ} :
    {A : Type ℓ} {B : Type κ} (f : A → B) (xs ys : List A) → map f (xs ++ ys) ≡ map f xs ++ map f ys
map-append f [] ys = refl
map-append f (x ∷ xs) ys = ap (λ l. f x ∷ l) (map-append f xs ys)

pub length-map {ℓ κ} :
    {A : Type ℓ} {B : Type κ} (f : A → B) (xs : List A) → length (map f xs) ≡ length xs
length-map f [] = refl
length-map f (x ∷ xs) = ap suc (length-map f xs)

abbrev pub delivered_to : List (ℕ × List ℕ) → List ℕ
delivered_to d = map (λ e. e.0) d

abbrev pub delivered_texts : List (ℕ × List ℕ) → List (List ℕ)
delivered_texts d = map (λ e. e.1) d

-- The customer that the boss, and the one that the boy, is occupied with.
abbrev with_boss : Boss → List ℕ
with_boss Boss.accept = []
with_boss (Boss.recv c) = c ∷ []
with_boss (Boss.send_fd c) = c ∷ []
with_boss (Boss.send_combo c) = c ∷ []
with_boss (Boss.pause c) = c ∷ []
with_boss (Boss.asleep c) = c ∷ []
with_boss (Boss.pass c) = c ∷ []

abbrev with_boy : Boy → List ℕ
with_boy Boy.recv_fd = []
with_boy (Boy.poll c) = c ∷ []
with_boy (Boy.recv c w) = c ∷ []
with_boy (Boy.send c text) = c ∷ []

-- The customers on the way, those who came first in front.
abbrev line : List (ℕ × List ℕ) → Boy → List ℕ → Boss → List ℕ
line d boy customers boss = delivered_to d ++ (with_boy boy ++ (customers ++ with_boss boss))

with_boss-woken : (b : Boss) → with_boss (woken b) ≡ with_boss b
unfolding woken
with_boss-woken b = ground arith

to_the_end :
    (d b c : List ℕ) (n : ℕ)
    → d ++ (b ++ (c ++ [])) ≡ numbers 0 n
    → d ++ (b ++ (c ++ n ∷ [])) ≡ numbers 0 (suc n)
to_the_end d b c n h =
    let e : (d ++ (b ++ c)) ++ n ∷ [] ≡ numbers 0 n ++ n ∷ [] =
      ap (λ l. l ++ n ∷ []) (simp (append-nil) at h) in
    (simp (append_assoc) at e) ∙ sym (numbers-suc 0 n n (omega arith))

module _ (items : ℕ → List ℕ) (may : ℕ → Bool) where
  step-line :
      (s t : Shop)
      → Step items may s t
      → line s.delivered s.boy s.customers s.boss ≡ numbers 0 s.accepted
      → line t.delivered t.boy t.customers t.boss ≡ numbers 0 t.accepted
  step-line s _ (by_boss (accepts b)) h =
      let e : line s.delivered s.boy s.customers Boss.accept ≡ numbers 0 s.accepted = rw b at h in
      to_the_end (delivered_to s.delivered) (with_boy s.boy) s.customers s.accepted e
  step-line s _ (by_boss (chooses c w b _ _)) h = rw b at h
  step-line s _ (by_boss (sends_fd c b)) h = rw b at h
  step-line s _ (by_boss (sends_combo c b)) h = rw b at h
  step-line s _ (by_boss (sleeps c b)) h = rw b at h
  step-line s _ (by_boss (sigusr1_handler _)) h = rw (with_boss-woken s.boss) h
  step-line s _ (by_boss (passes c b)) h = simp (append_assoc, append-nil) (rw b at h)
  step-line s _ (by_waiter (waiter_recv_fd w c rest _ _)) h = h
  step-line s _ (by_waiter (waiter_recv_combo w c d rest _ _)) h = h
  step-line s _ (by_waiter (waiter_recv_items w c _)) h = h
  step-line s _ (by_waiter (waiter_kill w text _)) h = h
  step-line s _ (by_waiter (waiter_send w text _)) h = h
  step-line s _ (by_boy (boy_recv_fd c rest b q)) h = rw (b, q) at h
  step-line s _ (by_boy (boy_poll c w b _)) h = rw b at h
  step-line s _ (by_boy (boy_recv c w text rest b _)) h = rw b at h
  step-line s _ (by_boy (boy_send c text b)) h = simp (map-append, append_assoc) (rw b at h)

  pub reach-line :
      {s : Shop}
      → Reach items may opened s
      → line s.delivered s.boy s.customers s.boss ≡ numbers 0 s.accepted
  unfolding opened
  reach-line here = refl
  reach-line (later {s} {t} r step) = step-line s t step (reach-line r)

  -- Whichever waiters the boss chooses and whatever the order of the moves, the customers who have
  -- got a parcel are the first ones to be accepted, in the order of accept, one parcel each.
  pub in_turn :
      {s : Shop}
      → Reach items may opened s
      → delivered_to s.delivered ≡ numbers 0 (length s.delivered)
  in_turn {s} r = rw (length-map (λ e. e.0) s.delivered) at (
      numbers-front 0 s.accepted (delivered_to s.delivered)
        (with_boy s.boy ++ (s.customers ++ with_boss s.boss)) (reach-line r))
