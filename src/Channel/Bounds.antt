-- ===== src/Channel/Bounds.antt =====
-- The capacity of a bounded channel, and what a closed channel refuses.
use flowcoro.Base.{ℕ, ◌≤◌, ◌≡◌, ◌≢◌, refl, List, [], ◌∷◌, arith, length, length-append, true}
use flowcoro.Channel.{
  System, init, Event, sends, receives, continues, closes, wake_receiver, wake_sender, send,
  send_suspend, send_resume, recv, recv_suspend, recv_resume, close, continue, start, step, run,
}
use flowcoro.Channel.Order.{all_taken_in, taken_in}

module _ {A : Type 0} where
  -- The capacity never changes, and a bounded buffer stays within it.
  pub record IsBounded (limit : ℕ) (s : System A) : Type 0 where
    pub same : s.capacity ≡ limit
    pub within : length s.buffer ≤ limit

  send-IsBounded :
      (limit : ℕ) (s : System A) (i : ℕ) (v : A)
      → limit ≢ 0
      → IsBounded limit s
      → IsBounded limit (send s i v).1
  unfolding send wake_receiver
  send-IsBounded limit s i v ne b = ground (arith, length-append s.buffer (v ∷ []))

  send_resume-IsBounded :
      (limit : ℕ) (s : System A) (i : ℕ) (v : A)
      → IsBounded limit s
      → IsBounded limit (send_resume s i v).1
  unfolding send_resume
  send_resume-IsBounded limit s i v b = ground (arith, length-append s.buffer (v ∷ []))

  send_suspend-IsBounded :
      (limit : ℕ) (s : System A) (i : ℕ) (v : A)
      → IsBounded limit s
      → IsBounded limit (send_suspend s i v).1
  unfolding send_suspend
  send_suspend-IsBounded limit s i v b = ground arith

  recv-IsBounded :
      (limit : ℕ) (s : System A) (i : ℕ) → IsBounded limit s → IsBounded limit (recv s i).1
  unfolding recv wake_sender
  recv-IsBounded limit s i b = ground arith

  recv_suspend-IsBounded :
      (limit : ℕ) (s : System A) (i : ℕ) → IsBounded limit s → IsBounded limit (recv_suspend s i).1
  unfolding recv_suspend
  recv_suspend-IsBounded limit s i b = ground arith

  recv_resume-IsBounded :
      (limit : ℕ) (s : System A) (i : ℕ) → IsBounded limit s → IsBounded limit (recv_resume s i).1
  unfolding recv_resume
  recv_resume-IsBounded limit s i b = ground arith

  step-IsBounded :
      (limit : ℕ) (s : System A) (e : Event A)
      → limit ≢ 0
      → IsBounded limit s
      → IsBounded limit (step s e).1
  unfolding step start continue close
  step-IsBounded limit s (sends i v) ne b = ground (arith, send-IsBounded limit s i v ne b)
  step-IsBounded limit s (receives i) ne b = ground (arith, recv-IsBounded limit s i b)
  step-IsBounded limit s (continues i) ne b = grind (
    arith,
    send_suspend-IsBounded,
    send_resume-IsBounded,
    recv_suspend-IsBounded limit s i b,
    recv_resume-IsBounded limit s i b,
  )
  step-IsBounded limit s closes ne b = record { same = b.same; within = b.within }

  pub run-IsBounded :
      (limit : ℕ) (s : System A) (es : List (Event A))
      → limit ≢ 0
      → IsBounded limit s
      → IsBounded limit (run s es).1
  unfolding run
  run-IsBounded limit s [] ne b = b
  run-IsBounded limit s (e ∷ es) ne b =
      run-IsBounded limit (step s e).1 es ne (step-IsBounded limit s e ne b)

  -- In every interleaving, a channel that was made with a capacity other than 0 holds at most so
  -- many items.
  pub never_over_capacity :
      (limit : ℕ) (es : List (Event A)) → limit ≢ 0 → length (run (init limit) es).1.buffer ≤ limit
  unfolding init
  never_over_capacity limit es ne =
      (run-IsBounded limit (init limit) es ne (record { same = refl; within = omega arith })).within

  -- A section on a closed channel takes nothing in and leaves it closed.
  step-closed :
      (s : System A) (e : Event A)
      → s.closed ≡ true
      → (taken_in (step s e).0 ≡ []) × ((step s e).1.closed ≡ true)
  unfolding step start continue close send recv send_suspend send_resume recv_suspend recv_resume
      wake_receiver wake_sender
  step-closed s (sends i v) h = ground arith
  step-closed s (receives i) h = ground arith
  step-closed s (continues i) h = ground arith
  step-closed s closes h = (refl, refl)

  -- In every interleaving that begins with a closed channel no `send` is accepted.
  pub run-closed :
      (s : System A) (es : List (Event A)) → s.closed ≡ true → all_taken_in (run s es).0 ≡ []
  unfolding run
  run-closed s [] h = refl
  run-closed s (e ∷ es) h =
      let (none_now, still) = step-closed s e h in rw (none_now, run-closed (step s e).1 es still)
