-- ===== src/Channel/Order.antt =====
-- The order of items through a channel (include/flowcoro/channel.h).
use flowcoro.Base.{ℕ, ◌≡◌, sym, ap, ◌∙◌, List, [], ◌∷◌, ◌++◌, arith, append-nil, append_assoc}
use flowcoro.Channel.{
  System, Outcome, accepted, delivered, Event, sends, receives, continues, closes, wake_receiver,
  wake_sender, send, send_suspend, send_resume, recv, recv_suspend, recv_resume, close, continue,
  start, step, run,
}

module _ {A : Type 0} where
  abbrev pub taken_in : Outcome A → List A
  taken_in (accepted v) = v ∷ []
  taken_in _ = []

  abbrev pub handed_out : Outcome A → List A
  handed_out (delivered v) = v ∷ []
  handed_out _ = []

  abbrev pub all_taken_in : List (Outcome A) → List A
  all_taken_in [] = []
  all_taken_in (o ∷ os) = taken_in o ++ all_taken_in os

  abbrev pub all_handed_out : List (Outcome A) → List A
  all_handed_out [] = []
  all_handed_out (o ∷ os) = handed_out o ++ all_handed_out os

  -- One section moves items only from `send` to the back and from the front to `recv`.
  abbrev Flows : System A → Outcome A × System A → Type 0
  Flows s r = s.buffer ++ taken_in r.0 ≡ handed_out r.0 ++ r.1.buffer

  flows_idle : (s : System A) → s.buffer ++ [] ≡ s.buffer
  flows_idle s = append-nil s.buffer

  send-Flows : (s : System A) (i : ℕ) (v : A) → Flows s (send s i v)
  unfolding send wake_receiver
  send-Flows s i v = ground (arith, append-nil s.buffer)

  send_suspend-Flows : (s : System A) (i : ℕ) (v : A) → Flows s (send_suspend s i v)
  unfolding send_suspend
  send_suspend-Flows s i v = ground (arith, append-nil s.buffer)

  send_resume-Flows : (s : System A) (i : ℕ) (v : A) → Flows s (send_resume s i v)
  unfolding send_resume
  send_resume-Flows s i v = ground (arith, append-nil s.buffer)

  recv-Flows : (s : System A) (i : ℕ) → Flows s (recv s i)
  unfolding recv wake_sender
  recv-Flows s i = ground (arith, append-nil s.buffer)

  recv_suspend-Flows : (s : System A) (i : ℕ) → Flows s (recv_suspend s i)
  unfolding recv_suspend
  recv_suspend-Flows s i = ground (arith, append-nil s.buffer)

  recv_resume-Flows : (s : System A) (i : ℕ) → Flows s (recv_resume s i)
  unfolding recv_resume
  recv_resume-Flows s i = ground (arith, append-nil s.buffer)

  step-Flows : (s : System A) (e : Event A) → Flows s (step s e)
  unfolding step start continue close
  step-Flows s (sends i v) = ground (arith, append-nil s.buffer, send-Flows s i v)
  step-Flows s (receives i) = ground (arith, append-nil s.buffer, recv-Flows s i)
  step-Flows s (continues i) =
      ground (arith, append-nil s.buffer, recv_suspend-Flows s i, recv_resume-Flows s i)
  step-Flows s closes = append-nil s.buffer

  -- Over any interleaving, what was in the channel and what `send` reported as taken in is what
  -- `recv` handed out, followed by what is still in the channel, in order.
  pub run_order :
      (s : System A) (es : List (Event A))
      → let (outs, t) = run s es in s.buffer ++ all_taken_in outs ≡ all_handed_out outs ++ t.buffer
  unfolding run
  run_order s [] = append-nil s.buffer
  run_order s (e ∷ es) =
      let (out, s') = step s e in
      let (outs, t) = run s' es in
      sym (append_assoc s.buffer (taken_in out) (all_taken_in outs))
      ∙ ap (λ l. l ++ all_taken_in outs) (step-Flows s e)
      ∙ append_assoc (handed_out out) s'.buffer (all_taken_in outs)
      ∙ ap (λ l. handed_out out ++ l) (run_order s' es)
      ∙ sym (append_assoc (handed_out out) (all_handed_out outs) t.buffer)
