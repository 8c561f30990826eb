-- ===== src/Pizza/Texts.antt =====
-- The parcels on their way through one waiter, and functions with one value everywhere but at one
-- number.
use cn_lab.Base.{
  ℕ, zero, suc, ◌≡◌, ◌≢◌, refl, ap, sym, ◌∙◌, List, [], ◌∷◌, ◌++◌, append-nil, append_assoc, map,
  Bool, true, false, ◌==◌, Bool-cases, inl, inr, length, arith,
}
use cn_lab.Pizza.{Boss, Message, Waiter, Boy, update, woken, parcel_of}
use cn_lab.Pizza.Lines.{numbers, numbers-suc, map-append, delivered_to, delivered_texts}

-- Functions that have one value everywhere but at w.
module _ {ℓ} {A : Type ℓ} (w : ℕ) (f : ℕ → A) (b : A) (elsewhere : (u : ℕ) → u ≢ w → f u ≡ b) where
  pub only_there : (v : ℕ) → f v ≢ b → v ≡ w
  only_there v ne = elim (Bool-cases (v == w)) [
    | inl same ↦ ground arith
    | inr other ↦ absurd (ne (elsewhere v (ground arith)))
  ]

  pub update_there : (v : ℕ) (a : A) → v ≡ w → (u : ℕ) → u ≢ w → update v a f u ≡ b
  update_there v a e u ne = let other : (u == v) ≡ false = ground arith in rw other (elsewhere u ne)

pub update_at {ℓ} : {A : Type ℓ} (v w : ℕ) (a : A) (f : ℕ → A) → v ≡ w → update v a f w ≡ a
update_at v w a f e = ground arith

-- The boss sends every customer to waiter w.
abbrev pub only_waiter : ℕ → ℕ → Bool
only_waiter w v = v == w

-- The boss is between getWaiter() and pause().
abbrev pub at_waiter : Boss → Bool
at_waiter (Boss.send_fd c) = true
at_waiter (Boss.send_combo c) = true
at_waiter _ = false

pub at_waiter-woken : (b : Boss) → at_waiter (woken b) ≡ at_waiter b
unfolding woken
at_waiter-woken b = ground arith

module _ (items : ℕ → List ℕ) where
  abbrev pub text : ℕ → List ℕ
  text c = parcel_of (items c)

  abbrev pub boss_texts : Boss → List (List ℕ)
  boss_texts (Boss.recv c) = text c ∷ []
  boss_texts (Boss.send_fd c) = text c ∷ []
  boss_texts _ = []

  abbrev pub order_texts : List Message → List (List ℕ)
  order_texts [] = []
  order_texts (Message.customer c ∷ ms) = text c ∷ order_texts ms
  order_texts (Message.combo c ∷ ms) = order_texts ms

  abbrev pub waiter_texts : Waiter → List (List ℕ)
  waiter_texts Waiter.recv_fd = []
  waiter_texts (Waiter.recv_combo c) = text c ∷ []
  waiter_texts (Waiter.recv_items c) = text c ∷ []
  waiter_texts (Waiter.kill t) = t ∷ []
  waiter_texts (Waiter.send t) = t ∷ []

  abbrev pub boy_texts : Boy → List (List ℕ)
  boy_texts (Boy.send c t) = t ∷ []
  boy_texts _ = []

  -- The parcels on the way through one waiter.
  abbrev pub texts_on_way :
      List (ℕ × List ℕ) → Boy → List (List ℕ) → Waiter → List Message → Boss → List (List ℕ)
  texts_on_way d boy parcels waiter orders boss =
      delivered_texts d
      ++ (boy_texts boy
          ++ (parcels ++ (waiter_texts waiter ++ (order_texts orders ++ boss_texts boss))))

  pub order_texts-append :
      (xs ys : List Message) → order_texts (xs ++ ys) ≡ order_texts xs ++ order_texts ys
  order_texts-append [] ys = refl
  order_texts-append (Message.customer c ∷ xs) ys = ap (λ l. text c ∷ l) (order_texts-append xs ys)
  order_texts-append (Message.combo c ∷ xs) ys = order_texts-append xs ys

  pub texts_to_the_end :
      (d b p v o : List (List ℕ)) (n : ℕ)
      → d ++ (b ++ (p ++ (v ++ (o ++ [])))) ≡ map text (numbers 0 n)
      → d ++ (b ++ (p ++ (v ++ (o ++ text n ∷ [])))) ≡ map text (numbers 0 (suc n))
  texts_to_the_end d b p v o n h =
      let e : (d ++ (b ++ (p ++ (v ++ o)))) ++ text n ∷ [] ≡ map text (numbers 0 n) ++ text n ∷ [] =
        ap (λ l. l ++ text n ∷ []) (simp (append-nil) at h) in
      (simp (append_assoc) at e)
      ∙ sym
          (ap (map text) (numbers-suc 0 n n (omega arith)) ∙ map-append text (numbers 0 n) (n ∷ []))

  pub texts-front :
      (c k : ℕ) (xs ys : List (List ℕ))
      → xs ++ ys ≡ map text (numbers c k)
      → xs ≡ map text (numbers c (length xs))
  texts-front c k [] ys h = refl
  texts-front c zero (x ∷ xs) ys h = absurd (cc)
  texts-front c (suc k) (x ∷ xs) ys h = grind (arith, texts-front (suc c) k xs ys)

  -- The customers from c on, each with what it has ordered.
  abbrev pub served_right : ℕ → ℕ → List (ℕ × List ℕ)
  served_right c k = map (λ n. (n, text n)) (numbers c k)

  pub both_lines :
      (c : ℕ) (d : List (ℕ × List ℕ))
      → delivered_to d ≡ numbers c (length d)
      → delivered_texts d ≡ map text (numbers c (length d))
      → d ≡ served_right c (length d)
  both_lines c [] h k = refl
  both_lines c ((n, t) ∷ d) h k = grind (arith, both_lines (suc c) d)

  pub texts_on_way-regroup :
      (d : List (ℕ × List ℕ)) (boy : Boy) (ps : List (List ℕ)) (v v' : Waiter)
      (ms ms' : List Message) (boss : Boss)
      → waiter_texts v ++ order_texts ms ≡ waiter_texts v' ++ order_texts ms'
      → texts_on_way d boy ps v' ms' boss ≡ texts_on_way d boy ps v ms boss
  texts_on_way-regroup d boy ps v v' ms ms' boss e =
      let f : waiter_texts v' ++ (order_texts ms' ++ boss_texts boss)
          ≡ waiter_texts v ++ (order_texts ms ++ boss_texts boss) =
        sym (append_assoc (waiter_texts v') (order_texts ms') (boss_texts boss))
        ∙ ap (λ l. l ++ boss_texts boss) (sym e)
        ∙ append_assoc (waiter_texts v) (order_texts ms) (boss_texts boss) in
      ap (λ l. delivered_texts d ++ (boy_texts boy ++ (ps ++ l))) f

  pub boss_texts-woken : (b : Boss) → boss_texts (woken b) ≡ boss_texts b
  unfolding woken
  boss_texts-woken b = ground arith
