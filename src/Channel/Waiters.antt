-- ===== src/Channel/Waiters.antt =====
-- The queues of waiting coroutines, and what `close` does to them.
use flowcoro.Base.{
  ℕ, Bool-cases, inl, inr, ◌≡◌, refl, List, [], ◌∷◌, ◌++◌, arith, Bool, true, false, has,
  has-append_left, has-append_right, has_self,
}
use flowcoro.Channel.{
  Place, idle, send_parking, send_waiting, send_woken, recv_parking, recv_waiting, recv_woken,
  System, Outcome, init, Event, sends, receives, continues, closes, woken, wake, wake_all,
  wake_receiver, wake_sender, send, send_suspend, send_resume, recv, recv_suspend, recv_resume,
  close, continue, start, step, run,
}

has_last : (i : ℕ) (xs : List ℕ) → has i (xs ++ (i ∷ [])) ≡ true
has_last i xs = has-append_right i xs (i ∷ []) (has_self i [])

has_more : (j i : ℕ) (xs : List ℕ) → has j xs ≡ true → has j (xs ++ (i ∷ [])) ≡ true
has_more j i xs h = has-append_left j xs (i ∷ []) h

module _ {A : Type 0} where
  abbrev pub sender_waits : Place A → Bool
  sender_waits (send_waiting _) = true
  sender_waits _ = false

  abbrev pub receiver_waits : Place A → Bool
  receiver_waits recv_waiting = true
  receiver_waits _ = false

  -- Every parked coroutine is in its queue, and a closed channel has empty queues.
  pub record IsQueued (s : System A) : Type 0 where
    pub senders : (i : ℕ) → sender_waits (s.place i) ≡ true → has i s.send_waiters ≡ true
    pub receivers : (i : ℕ) → receiver_waits (s.place i) ≡ true → has i s.recv_waiters ≡ true
    pub shut : s.closed ≡ true → (s.send_waiters ≡ []) × (s.recv_waiters ≡ [])

  wake_all-sender :
      (ws : List ℕ) (place : ℕ → Place A) (i : ℕ)
      → sender_waits (wake_all place ws i) ≡ true
      → (sender_waits (place i) ≡ true) × (has i ws ≡ false)
  unfolding wake_all wake woken
  wake_all-sender [] place i h = (h, refl)
  wake_all-sender (w ∷ ws) place i h = ground (arith, wake_all-sender ws (wake place w) i h)

  wake_all-receiver :
      (ws : List ℕ) (place : ℕ → Place A) (i : ℕ)
      → receiver_waits (wake_all place ws i) ≡ true
      → (receiver_waits (place i) ≡ true) × (has i ws ≡ false)
  unfolding wake_all wake woken
  wake_all-receiver [] place i h = (h, refl)
  wake_all-receiver (w ∷ ws) place i h = ground (arith, wake_all-receiver ws (wake place w) i h)

  send-IsQueued : (s : System A) (i : ℕ) (v : A) → IsQueued s → IsQueued (send s i v).1
  unfolding send wake_receiver wake woken
  send-IsQueued s i v q = record {
    senders =
        λ j h. ground (arith, q.senders j, has_last i s.send_waiters, has_more j i s.send_waiters);
    receivers = λ j h.
        ground (arith, q.receivers j, has_last i s.recv_waiters, has_more j i s.recv_waiters);
    shut = ground (arith, q.shut);
  }

  send_suspend-IsQueued :
      (s : System A) (i : ℕ) (v : A) → IsQueued s → IsQueued (send_suspend s i v).1
  unfolding send_suspend
  send_suspend-IsQueued s i v q = record {
    senders =
        λ j h. ground (arith, q.senders j, has_last i s.send_waiters, has_more j i s.send_waiters);
    receivers = λ j h.
        ground (arith, q.receivers j, has_last i s.recv_waiters, has_more j i s.recv_waiters);
    shut = ground (arith, q.shut);
  }

  send_resume-IsQueued :
      (s : System A) (i : ℕ) (v : A) → IsQueued s → IsQueued (send_resume s i v).1
  unfolding send_resume
  send_resume-IsQueued s i v q = record {
    senders =
        λ j h. ground (arith, q.senders j, has_last i s.send_waiters, has_more j i s.send_waiters);
    receivers = λ j h.
        ground (arith, q.receivers j, has_last i s.recv_waiters, has_more j i s.recv_waiters);
    shut = ground (arith, q.shut);
  }

  recv-IsQueued : (s : System A) (i : ℕ) → IsQueued s → IsQueued (recv s i).1
  unfolding recv wake_sender wake woken
  recv-IsQueued s i q = record {
    senders =
        λ j h. ground (arith, q.senders j, has_last i s.send_waiters, has_more j i s.send_waiters);
    receivers = λ j h.
        ground (arith, q.receivers j, has_last i s.recv_waiters, has_more j i s.recv_waiters);
    shut = ground (arith, q.shut);
  }

  recv_suspend-IsQueued : (s : System A) (i : ℕ) → IsQueued s → IsQueued (recv_suspend s i).1
  unfolding recv_suspend
  recv_suspend-IsQueued s i q = record {
    senders =
        λ j h. ground (arith, q.senders j, has_last i s.send_waiters, has_more j i s.send_waiters);
    receivers = λ j h.
        ground (arith, q.receivers j, has_last i s.recv_waiters, has_more j i s.recv_waiters);
    shut = ground (arith, q.shut);
  }

  recv_resume-IsQueued : (s : System A) (i : ℕ) → IsQueued s → IsQueued (recv_resume s i).1
  unfolding recv_resume
  recv_resume-IsQueued s i q = record {
    senders =
        λ j h. ground (arith, q.senders j, has_last i s.send_waiters, has_more j i s.send_waiters);
    receivers = λ j h.
        ground (arith, q.receivers j, has_last i s.recv_waiters, has_more j i s.recv_waiters);
    shut = ground (arith, q.shut);
  }

  close-IsQueued : (s : System A) → IsQueued s → IsQueued (close s)
  unfolding close
  close-IsQueued s q = record {
    senders = λ i h.
        let (parked, _) = wake_all-sender s.recv_waiters (wake_all s.place s.send_waiters) i h in
        let (waits, absent) = wake_all-sender s.send_waiters s.place i parked in
        ground (arith, q.senders i waits);
    receivers = λ i h.
        let (parked, absent) =
          wake_all-receiver s.recv_waiters (wake_all s.place s.send_waiters) i h in
        let (waits, _) = wake_all-receiver s.send_waiters s.place i parked in
        ground (arith, q.receivers i waits);
    shut = λ _. (refl, refl);
  }

  start-IsQueued :
      (p : Place A) (s : System A) (begun : Outcome A × System A)
      → IsQueued s
      → IsQueued begun.1
      → IsQueued (start p s begun).1
  unfolding start
  start-IsQueued idle s begun q b = b
  start-IsQueued _ s begun q b = q

  continue-IsQueued :
      (p : Place A) (s : System A) (i : ℕ) → IsQueued s → IsQueued (continue p s i).1
  unfolding continue
  continue-IsQueued idle s i q = q
  continue-IsQueued (send_parking v) s i q = send_suspend-IsQueued s i v q
  continue-IsQueued (send_waiting v) s i q = q
  continue-IsQueued (send_woken v) s i q = send_resume-IsQueued s i v q
  continue-IsQueued recv_parking s i q = recv_suspend-IsQueued s i q
  continue-IsQueued recv_waiting s i q = q
  continue-IsQueued recv_woken s i q = recv_resume-IsQueued s i q

  step-IsQueued : (s : System A) (e : Event A) → IsQueued s → IsQueued (step s e).1
  unfolding step
  step-IsQueued s (sends i v) q =
      start-IsQueued (s.place i) s (send s i v) q (send-IsQueued s i v q)
  step-IsQueued s (receives i) q = start-IsQueued (s.place i) s (recv s i) q (recv-IsQueued s i q)
  step-IsQueued s (continues i) q = continue-IsQueued (s.place i) s i q
  step-IsQueued s closes q = close-IsQueued s q

  pub run-IsQueued : (s : System A) (es : List (Event A)) → IsQueued s → IsQueued (run s es).1
  unfolding run
  run-IsQueued s [] q = q
  run-IsQueued s (e ∷ es) q = run-IsQueued (step s e).1 es (step-IsQueued s e q)

  init-IsQueued : (n : ℕ) → IsQueued (init n)
  unfolding init
  init-IsQueued n = record { senders = λ i h. cc; receivers = λ i h. cc; shut = λ h. cc }

  -- In every interleaving from a new channel, once it is closed no coroutine is left parked in
  -- either queue.
  pub closed_leaves_none_parked :
      (n : ℕ) (es : List (Event A)) (i : ℕ)
      → (run (init n) es).1.closed ≡ true
      → let t = (run (init n) es).1 in
        (sender_waits (t.place i) ≡ false) × (receiver_waits (t.place i) ≡ false)
  closed_leaves_none_parked n es i h =
      let q = run-IsQueued (init n) es (init-IsQueued n) in
      let (no_senders, no_receivers) = q.shut h in
      (
        elim (Bool-cases (sender_waits ((run (init n) es).1.place i))) [
          | inl w ↦ ground (arith, q.senders i w)
          | inr e ↦ e
        ],
        elim (Bool-cases (receiver_waits ((run (init n) es).1.place i))) [
          | inl w ↦ ground (arith, q.receivers i w)
          | inr e ↦ e
        ],
      )
