-- ===== src/Pizza/Parcels.antt =====
-- The parcels, when the boss sends every customer to one waiter.
use cn_lab.Base.{
  ℕ, ◌≡◌, ◌≢◌, refl, ap, sym, ◌∙◌, List, [], ◌∷◌, ◌++◌, append_assoc, map, Bool, true, length,
  arith,
}
use cn_lab.Pizza.{
  Boss, Message, Waiter, Shop, update, opened, Step, by_boss, by_waiter, by_boy, accepts, chooses,
  sends_fd, sends_combo, sleeps, sigusr1_handler, passes, waiter_recv_fd, waiter_recv_combo,
  waiter_recv_items, waiter_kill, waiter_send, boy_recv_fd, boy_poll, boy_recv, boy_send, Reach,
  here, later,
}
use cn_lab.Pizza.Lines.{numbers, map-append, length-map, delivered_texts, in_turn}
use cn_lab.Pizza.Texts.{
  update_at, only_there, update_there, only_waiter, text, boss_texts, order_texts, waiter_texts,
  boy_texts, texts_on_way, order_texts-append, texts_to_the_end, texts-front, served_right,
  both_lines, texts_on_way-regroup, boss_texts-woken, at_waiter, at_waiter-woken,
}

module _ (items : ℕ → List ℕ) (w : ℕ) where
  pub record Through (s : Shop) : Type 0 where
    pub only : at_waiter s.boss ≡ true → s.chosen ≡ w
    pub idle : (v : ℕ) → v ≢ w → s.waiters v ≡ Waiter.recv_fd
    pub unasked : (v : ℕ) → v ≢ w → s.orders v ≡ []
    pub empty : (v : ℕ) → v ≢ w → s.parcels v ≡ []
    pub texts :
        texts_on_way items s.delivered s.boy (s.parcels w) (s.waiters w) (s.orders w) s.boss
        ≡ map (text items) (numbers 0 s.accepted)

  module _ (s : Shop) (i : Through s) where
    chosen-Through :
        (boss : Boss) (ms : List Message)
        → s.chosen ≡ w
        → at_waiter s.boss ≡ true
        → order_texts items ms ++ boss_texts items boss ≡ boss_texts items s.boss
        → Through
            (record s { boss = boss; orders = update s.chosen (s.orders s.chosen ++ ms) s.orders })
    chosen-Through boss ms e at_w same = record {
      only = λ _. e;
      idle = i.idle;
      unasked = update_there w s.orders [] i.unasked s.chosen (s.orders s.chosen ++ ms) e;
      empty = i.empty;
      texts =
          rw
            (
              update_at s.chosen w (s.orders s.chosen ++ ms) s.orders e,
              e,
              (order_texts-append items),
              append_assoc,
              same,
            )
            i.texts;
    }

    kept-Through :
        (t : Shop)
        → t.waiters ≡ s.waiters
        → t.orders ≡ s.orders
        → t.parcels ≡ s.parcels
        → (at_waiter t.boss ≡ true → t.chosen ≡ w)
        → texts_on_way items t.delivered t.boy (s.parcels w) (s.waiters w) (s.orders w) t.boss
          ≡ map (text items) (numbers 0 t.accepted)
        → Through t
    kept-Through t waiters orders parcels only texts = record {
      only = only;
      idle = λ v ne. ap (λ f. f v) waiters ∙ i.idle v ne;
      unasked = λ v ne. ap (λ f. f v) orders ∙ i.unasked v ne;
      empty = λ v ne. ap (λ f. f v) parcels ∙ i.empty v ne;
      texts = rw (waiters, orders, parcels) texts;
    }

    busy-Through :
        (v : ℕ) (waiter : Waiter)
        → s.waiters v ≢ Waiter.recv_fd
        → (pending : Bool) → waiter_texts items (s.waiters v) ≡ waiter_texts items waiter
        → Through (record s { waiters = update v waiter s.waiters; pending = pending })
    busy-Through v waiter busy pending same =
        let e = only_there w s.waiters Waiter.recv_fd i.idle v busy in
        record {
          only = i.only;
          idle = update_there w s.waiters Waiter.recv_fd i.idle v waiter e;
          unasked = i.unasked;
          empty = i.empty;
          texts = rw (update_at v w waiter s.waiters e) (rw (rw e at same) at i.texts);
        }

    asked-Through :
        (v : ℕ) (waiter : Waiter) (rest : List Message)
        → s.orders v ≢ []
        → waiter_texts items (s.waiters v) ++ order_texts items (s.orders v)
          ≡ waiter_texts items waiter ++ order_texts items rest
        → Through
            (record s { waiters = update v waiter s.waiters; orders = update v rest s.orders })
    asked-Through v waiter rest asked same =
        let e = only_there w s.orders [] i.unasked v asked in
        record {
          only = i.only;
          idle = update_there w s.waiters Waiter.recv_fd i.idle v waiter e;
          unasked = update_there w s.orders [] i.unasked v rest e;
          empty = i.empty;
          texts =
              rw (update_at v w waiter s.waiters e, update_at v w rest s.orders e)
                (texts_on_way-regroup items s.delivered s.boy (s.parcels w) (s.waiters w) waiter
                    (s.orders w) rest s.boss (rw e at same)
                  ∙ i.texts);
        }

  step-Through : (s t : Shop) → Step items (only_waiter w) s t → Through s → Through t
  step-Through s _ (by_boss (accepts b)) i =
      kept-Through s i _ refl refl refl (λ e. absurd (cc))
        (let h : texts_on_way items s.delivered s.boy (s.parcels w) (s.waiters w) (s.orders w)
                Boss.accept
              ≡ map (text items) (numbers 0 s.accepted) =
            rw b at i.texts in
          texts_to_the_end items (delivered_texts s.delivered) (boy_texts items s.boy) (s.parcels w)
            (waiter_texts items (s.waiters w)) (order_texts items (s.orders w)) s.accepted h)
  step-Through s _ (by_boss (chooses c v b _ m)) i =
      kept-Through s i _ refl refl refl (λ e. ground arith) (rw b at i.texts)
  step-Through s _ (by_boss (sends_fd c b)) i =
      chosen-Through s i (Boss.send_combo c) (Message.customer c ∷ []) (i.only (ap at_waiter b))
        (ap at_waiter b) (sym (ap (boss_texts items) b))
  step-Through s _ (by_boss (sends_combo c b)) i =
      chosen-Through s i (Boss.pause c) (Message.combo c ∷ []) (i.only (ap at_waiter b))
        (ap at_waiter b) (sym (ap (boss_texts items) b))
  step-Through s _ (by_boss (sleeps c b)) i =
      kept-Through s i _ refl refl refl (λ e. absurd (cc)) (rw b at i.texts)
  step-Through s _ (by_boss (sigusr1_handler _)) i =
      kept-Through s i _ refl refl refl (λ e. i.only (sym (at_waiter-woken s.boss) ∙ e))
        (rw (boss_texts-woken items s.boss) i.texts)
  step-Through s _ (by_boss (passes c b)) i =
      kept-Through s i _ refl refl refl (λ e. absurd (cc)) (rw b at i.texts)
  step-Through s _ (by_waiter (waiter_recv_fd v c rest p q)) i =
      asked-Through s i v (Waiter.recv_combo c) rest (λ n. absurd (cc)) (rw (p, q) refl)
  step-Through s _ (by_waiter (waiter_recv_combo v c d rest p q)) i =
      asked-Through s i v (Waiter.recv_items c) rest (λ n. absurd (cc)) (rw (p, q) refl)
  step-Through s _ (by_waiter (waiter_recv_items v c p)) i =
      busy-Through s i v (Waiter.kill (text items c)) (λ n. absurd (cc)) s.pending
        (ap (waiter_texts items) p)
  step-Through s _ (by_waiter (waiter_kill v t p)) i =
      busy-Through s i v (Waiter.send t) (λ n. absurd (cc)) true (ap (waiter_texts items) p)
  step-Through s _ (by_waiter (waiter_send v t p)) i =
      let e = only_there w s.waiters Waiter.recv_fd i.idle v (λ n. absurd (cc)) in
      let p_w : s.waiters w ≡ Waiter.send t = rw e at p in
      record {
        only = i.only;
        idle = update_there w s.waiters Waiter.recv_fd i.idle v Waiter.recv_fd e;
        unasked = i.unasked;
        empty = update_there w s.parcels [] i.empty v (s.parcels v ++ t ∷ []) e;
        texts =
            rw
              (
                update_at v w Waiter.recv_fd s.waiters e,
                update_at v w (s.parcels v ++ t ∷ []) s.parcels e,
                e,
                append_assoc,
              )
              (rw p_w at i.texts);
      }
  step-Through s _ (by_boy (boy_recv_fd c rest b q)) i =
      kept-Through s i _ refl refl refl i.only (rw b at i.texts)
  step-Through s _ (by_boy (boy_poll c v b _)) i =
      kept-Through s i _ refl refl refl i.only (rw b at i.texts)
  step-Through s _ (by_boy (boy_recv c v t rest b q)) i =
      let e = only_there w s.parcels [] i.empty v (λ n. absurd (cc)) in
      let q_w : s.parcels w ≡ t ∷ rest = rw e at q in
      record {
        only = i.only;
        idle = i.idle;
        unasked = i.unasked;
        empty = update_there w s.parcels [] i.empty v rest e;
        texts = rw (update_at v w rest s.parcels e) (rw (b, q_w) at i.texts);
      }
  step-Through s _ (by_boy (boy_send c t b)) i =
      kept-Through s i _ refl refl refl i.only (simp (map-append, append_assoc) (rw b at i.texts))

  started-Through : Through opened
  unfolding opened
  started-Through = record {
    only = λ e. absurd (cc);
    idle = λ v ne. refl;
    unasked = λ v ne. refl;
    empty = λ v ne. refl;
    texts = refl;
  }

  reach-Through : {s : Shop} → Reach items (only_waiter w) opened s → Through s
  reach-Through here = started-Through
  reach-Through (later {s} {t} r step) = step-Through s t step (reach-Through r)

  -- When the boss sends every customer to one waiter, then whatever the order of the moves, each
  -- customer who has got a parcel has got the first twenty bytes of its own items, and those
  -- customers are the first ones to be accepted, in the order of accept.
  pub in_order :
      {s : Shop}
      → Reach items (only_waiter w) opened s
      → s.delivered ≡ served_right items 0 (length s.delivered)
  in_order {s} r = both_lines items 0 s.delivered (in_turn items (only_waiter w) r) (
      rw (length-map (λ e. e.1) s.delivered) at (
        texts-front items 0 s.accepted (delivered_texts s.delivered)
          (boy_texts items s.boy
            ++ (s.parcels w
                ++ (waiter_texts items (s.waiters w)
                    ++ (order_texts items (s.orders w) ++ boss_texts items s.boss))))
          (reach-Through r).texts))
