-- ===== src/Channel/Wakeups.antt =====
-- What a coroutine that was woken does, and whom it does not wake.
use flowcoro.Base.{length-append, ℕ, ◌<◌, ◌≡◌, List, [], ◌∷◌, ◌++◌, arith, length, false}
use flowcoro.Channel.{
  idle, send_waiting, send_woken, recv_waiting, recv_woken, System, accepted, nothing, refused,
  delivered, sends, receives, continues, woken, wake, wake_receiver, wake_sender, send, send_resume,
  recv, recv_resume, continue, start, step, run,
}

module _ {A : Type 0} where
  -- A `send` that was parked and resumes with room on an open channel adds its item and wakes
  -- nobody: a receiver that is parked stays parked, with an item in the buffer.
  pub resumed_send_wakes_none :
      (s : System A) (i j : ℕ) (v : A)
      → s.place i ≡ send_woken v
      → s.closed ≡ false
      → length s.buffer < s.capacity
      → s.place j ≡ recv_waiting
      → let (out, t) = step s (continues i) in
        (out ≡ accepted v) × (t.buffer ≡ s.buffer ++ (v ∷ [])) × (t.place j ≡ recv_waiting)
  unfolding step continue send_resume
  resumed_send_wakes_none s i j v here unclosed room waits = ground arith

  -- A `recv` that was parked and resumes with an item takes it and wakes nobody: a sender that is
  -- parked stays parked.
  pub resumed_recv_wakes_none :
      (s : System A) (i j : ℕ) (v w : A) (rest : List A)
      → s.place i ≡ recv_woken
      → s.buffer ≡ v ∷ rest
      → s.place j ≡ send_waiting w
      → let (out, t) = step s (continues i) in
        (out ≡ delivered v) × (t.buffer ≡ rest) × (t.place j ≡ send_waiting w)
  unfolding step continue recv_resume
  resumed_recv_wakes_none s i j v w rest here items waits = ground arith

  -- On an open, empty channel with a parked `recv`, a `send` wakes it, another `recv` takes the
  -- item first, and the woken one returns nullopt, though the channel is still open.
  pub overtaken_recv :
      (s : System A) (i j other : ℕ) (ws : List ℕ) (v : A)
      → s.closed ≡ false
      → s.buffer ≡ []
      → s.recv_waiters ≡ j ∷ ws
      → s.place j ≡ recv_waiting
      → s.place i ≡ idle
      → s.place other ≡ idle
      → let (outs, t) = run s (sends i v ∷ receives other ∷ continues j ∷ []) in
        (outs ≡ accepted v ∷ delivered v ∷ nothing ∷ []) × (t.closed ≡ false)
  unfolding run step start continue send recv recv_resume wake_receiver wake_sender wake woken
  overtaken_recv s i j other ws v unclosed none_left queue parked free_i free_other = ground arith

  -- On an open, full channel with a parked `send`, a `recv` wakes it, another `send` takes the
  -- room first, and the woken one returns false and its item is lost, though the channel is still
  -- open.
  pub overtaken_send :
      (s : System A) (i j other : ℕ) (ws : List ℕ) (u v w : A) (rest : List A)
      → s.closed ≡ false
      → s.buffer ≡ u ∷ rest
      → length s.buffer ≡ s.capacity
      → s.send_waiters ≡ j ∷ ws
      → s.place j ≡ send_waiting v
      → s.place i ≡ idle
      → s.place other ≡ idle
      → let (outs, t) = run s (receives i ∷ sends other w ∷ continues j ∷ []) in
        (outs ≡ delivered u ∷ accepted w ∷ refused v ∷ [])
        × (t.buffer ≡ rest ++ (w ∷ []))
        × (t.closed ≡ false)
  unfolding run step start continue send recv send_resume wake_receiver wake_sender wake woken
  overtaken_send s i j other ws u v w rest unclosed items full queue parked free_i free_other =
      ground (arith, length-append rest (w ∷ []))
