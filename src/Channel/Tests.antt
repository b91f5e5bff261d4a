-- ===== src/Channel/Tests.antt =====
-- The channel on concrete interleavings.
use flowcoro.Base.{ℕ, ◌≡◌, ◌≢◌, refl, false, List, [], ◌∷◌, ◌++◌, arith}
use flowcoro.Channel.{
  Event, sends, receives, continues, closes, init, recv, recv_suspend, close, continue, start, step,
  run,
}
use flowcoro.Channel.Order.{all_taken_in, all_handed_out, run_order}
use flowcoro.Channel.Waiters.{sender_waits, receiver_waits, closed_leaves_none_parked}

one-ne-zero : ◌≢◌ {A = ℕ} 1 0
one-ne-zero = omega arith

-- Coroutine 1 waits for room, coroutine 2 makes room and wakes it, coroutine 3 waits for an item.
abbrev late_sender : List (Event ℕ)
late_sender = sends 0 10 ∷ sends 1 11 ∷ continues 1 ∷ receives 2 ∷ receives 3 ∷ continues 3 ∷ []

-- Coroutine 0 waits for an item, coroutine 1 sends one and wakes it, coroutine 2 waits for room.
abbrev late_receiver : List (Event ℕ)
late_receiver = receives 0 ∷ continues 0 ∷ sends 1 10 ∷ sends 2 11 ∷ continues 2 ∷ []

run_order_example :
    let (outs, t) = run (init 1) late_sender in
    [] ++ all_taken_in outs ≡ all_handed_out outs ++ t.buffer
unfolding init
run_order_example = run_order (init 1) late_sender

abbrev parked_then_closed : List (Event ℕ)
parked_then_closed = receives 0 ∷ continues 0 ∷ closes ∷ []

closed_leaves_none_parked_example :
    let t = (run (init 1) parked_then_closed).1 in
    (sender_waits (t.place 0) ≡ false) × (receiver_waits (t.place 0) ≡ false)
unfolding init run step start continue recv recv_suspend close
closed_leaves_none_parked_example = closed_leaves_none_parked 1 parked_then_closed 0 refl

-- A coroutine is parked to receive; one is parked to send.
abbrev empty_handed : List (Event ℕ)
empty_handed = receives 0 ∷ continues 0 ∷ []

abbrev no_room : List (Event ℕ)
no_room = sends 0 10 ∷ sends 1 11 ∷ continues 1 ∷ []

abbrev steals_item : List (Event ℕ)
steals_item = sends 1 10 ∷ receives 2 ∷ continues 0 ∷ []

abbrev steals_room : List (Event ℕ)
steals_room = receives 2 ∷ sends 3 12 ∷ continues 1 ∷ []
