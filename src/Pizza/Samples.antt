-- ===== src/Pizza/Samples.antt =====
-- The theorems on the pizza shop at concrete runs, and two runs in which it goes wrong.
use cn_lab.Base.{ℕ, ◌+◌, ◌≡◌, refl, List, [], ◌∷◌, Bool, true, length, arith}
use cn_lab.Pizza.{
  Boss, Message, Shop, opened, woken, first_ready, parcel_of, accepts, chooses, sends_fd,
  sends_combo, sleeps, sigusr1_handler, passes, waiter_recv_fd, waiter_recv_combo,
  waiter_recv_items, waiter_kill, waiter_send, boy_recv_fd, boy_poll, boy_recv, boy_send, by_boss,
  by_waiter, by_boy, Reach, here, later,
}
use cn_lab.Pizza.Lines.{numbers, delivered_to, in_turn}
use cn_lab.Pizza.Texts.{only_waiter, served_right}
use cn_lab.Pizza.Parcels.{in_order}
use cn_lab.Pizza.Sleep.{due}

abbrev meals : ℕ → List ℕ
meals c = (65 + c) ∷ 0 ∷ []

abbrev any : ℕ → Bool
any w = true

served_one : (s : Shop) × Reach meals (only_waiter 1) opened s
unfolding opened woken first_ready
served_one = (
  _,
  later
      (later
        (later
          (later
            (later
              (later
                (later
                  (later
                    (later
                      (later
                        (later
                          (later
                            (later
                              (later
                                (later (later here (by_boss (accepts refl)))
                                  (by_boss (chooses 0 1 refl (omega arith) refl)))
                                (by_boss (sends_fd 0 refl)))
                              (by_boss (sends_combo 0 refl)))
                            (by_boss (sleeps 0 refl)))
                          (by_waiter (waiter_recv_fd 1 0 (Message.combo 0 ∷ []) refl refl)))
                        (by_waiter (waiter_recv_combo 1 0 0 [] refl refl)))
                      (by_waiter (waiter_recv_items 1 0 refl)))
                    (by_waiter (waiter_kill 1 (parcel_of (meals 0)) refl)))
                  (by_boss (sigusr1_handler refl)))
                (by_boss (passes 0 refl)))
              (by_waiter (waiter_send 1 (parcel_of (meals 0)) refl)))
            (by_boy (boy_recv_fd 0 [] refl refl)))
          (by_boy (boy_poll 0 1 refl refl)))
        (by_boy (boy_recv 0 1 (parcel_of (meals 0)) [] refl refl)))
      (by_boy (boy_send 0 (parcel_of (meals 0)) refl)),
)

in_order_example : served_one.0.delivered ≡ served_right meals 0 (length served_one.0.delivered)
in_order_example = in_order meals 1 {s = served_one.0} served_one.1

-- Two waiters: each customer gets what the other one has ordered.
swapped :
    (s : Shop) × Reach meals any opened s
    × (s.delivered ≡ (0, parcel_of (meals 1)) ∷ (1, parcel_of (meals 0)) ∷ [])
unfolding opened woken first_ready
swapped = (
  _,
  later
      (later
        (later
          (later
            (later
              (later
                (later
                  (later
                    (later
                      (later
                        (later
                          (later
                            (later
                              (later
                                (later
                                  (later
                                    (later
                                      (later
                                        (later
                                          (later
                                            (later
                                              (later
                                                (later
                                                  (later
                                                    (later
                                                      (later
                                                        (later
                                                          (later
                                                            (later
                                                            (later
                                                            (later
                                                            (later here (by_boss (accepts refl)))
                                                            (by_boss
                                                            (chooses 0 1 refl (omega arith) refl)))
                                                            (by_boss (sends_fd 0 refl)))
                                                            (by_boss (sends_combo 0 refl)))
                                                            (by_boss (sleeps 0 refl)))
                                                          (by_waiter (
                                                            waiter_recv_fd 1 0
                                                            (Message.combo 0 ∷ []) refl refl)))
                                                        (by_waiter
                                                          (waiter_recv_combo 1 0 0 [] refl refl)))
                                                      (by_waiter (waiter_recv_items 1 0 refl)))
                                                    (by_waiter
                                                      (waiter_kill 1 (parcel_of (meals 0)) refl)))
                                                  (by_boss (sigusr1_handler refl)))
                                                (by_boss (passes 0 refl)))
                                              (by_boss (accepts refl)))
                                            (by_boss (chooses 1 0 refl (omega arith) refl)))
                                          (by_boss (sends_fd 1 refl)))
                                        (by_boss (sends_combo 1 refl)))
                                      (by_boss (sleeps 1 refl)))
                                    (by_waiter
                                      (waiter_recv_fd 0 1 (Message.combo 1 ∷ []) refl refl)))
                                  (by_waiter (waiter_recv_combo 0 1 1 [] refl refl)))
                                (by_waiter (waiter_recv_items 0 1 refl)))
                              (by_waiter (waiter_kill 0 (parcel_of (meals 1)) refl)))
                            (by_boss (sigusr1_handler refl)))
                          (by_boss (passes 1 refl)))
                        (by_waiter (waiter_send 1 (parcel_of (meals 0)) refl)))
                      (by_waiter (waiter_send 0 (parcel_of (meals 1)) refl)))
                    (by_boy (boy_recv_fd 0 (1 ∷ []) refl refl)))
                  (by_boy (boy_poll 0 0 refl refl)))
                (by_boy (boy_recv 0 0 (parcel_of (meals 1)) [] refl refl)))
              (by_boy (boy_send 0 (parcel_of (meals 1)) refl)))
            (by_boy (boy_recv_fd 1 [] refl refl)))
          (by_boy (boy_poll 1 1 refl refl)))
        (by_boy (boy_recv 1 1 (parcel_of (meals 0)) [] refl refl)))
      (by_boy (boy_send 1 (parcel_of (meals 0)) refl)),
  refl,
)

in_turn_example : delivered_to swapped.0.delivered ≡ numbers 0 (length swapped.0.delivered)
in_turn_example = in_turn meals any {s = swapped.0} swapped.1

-- The signal comes before pause().
lost : (s : Shop) × (Reach meals any opened s × ((s.boss ≡ Boss.asleep 0) × (due s ≡ 0)))
unfolding opened woken
lost = (
  _,
  (
    later
        (later
          (later
            (later
              (later
                (later
                  (later
                    (later
                      (later (later here (by_boss (accepts refl)))
                        (by_boss (chooses 0 1 refl (omega arith) refl)))
                      (by_boss (sends_fd 0 refl)))
                    (by_boss (sends_combo 0 refl)))
                  (by_waiter (waiter_recv_fd 1 0 (Message.combo 0 ∷ []) refl refl)))
                (by_waiter (waiter_recv_combo 1 0 0 [] refl refl)))
              (by_waiter (waiter_recv_items 1 0 refl)))
            (by_waiter (waiter_kill 1 (parcel_of (meals 0)) refl)))
          (by_boss (sigusr1_handler refl)))
        (by_boss (sleeps 0 refl)),
    (refl, omega arith),
  ),
)
