-- ===== src/Executor/Order.antt =====
-- The order in which a tick touches the tasks.
use flowcoro.Base.{
  ℕ, ◌≡◌, refl, ap, sym, ◌∙◌, Bool, true, false, List, [], ◌∷◌, ◌++◌, length, if◌then◌else◌,
  Bool-cases, inl, inr, append-nil, append_assoc, arith,
}
use flowcoro.Executor.{
  Timer, Action, yields, sleeps, waits, finishes, Touch, resumed, destroyed, Executor, due, handles,
  process_timers, suspend, touch, touch_all, run,
}

-- The tasks that were touched, the first one first.
abbrev pub trace : List Touch → List ℕ
trace [] = []
trace (resumed h ∷ ts) = trace ts ++ (h ∷ [])
trace (destroyed h ∷ ts) = trace ts ++ (h ∷ [])

suspend-touches : (a : Action) (e : Executor) (h : ℕ) → (suspend a e h).touches ≡ e.touches
unfolding suspend
suspend-touches yields e h = refl
suspend-touches (sleeps d) e h = refl
suspend-touches waits e h = refl
suspend-touches finishes e h = refl

process_timers-touches : (e : Executor) (now : ℕ) → (process_timers e now).touches ≡ e.touches
unfolding process_timers
process_timers-touches e now = ground arith

process_timers-batch :
    (e : Executor) (now : ℕ)
    → let popped = due (length e.timers) now e.timers in
      (process_timers e now).local_ready ++ (process_timers e now).ready_ext
      ≡ e.local_ready
        ++ (handles popped.0 ++ ((if e.stop_flag then handles popped.1 else []) ++ e.ready_ext))
unfolding process_timers
process_timers-batch e now = by_flag e.stop_flag
  where
    fired : List ℕ
    fired = handles (due (length e.timers) now e.timers).0

    rest : List Timer
    rest = (due (length e.timers) now e.timers).1

    stopped : Executor
    stopped = record e { local_ready = (e.local_ready ++ fired) ++ handles rest; timers = [] }

    going : Executor
    going = record e { local_ready = e.local_ready ++ fired; timers = rest }

    by_flag :
        (b : Bool)
        → (if b then stopped else going).local_ready ++ (if b then stopped else going).ready_ext
          ≡ e.local_ready ++ (fired ++ ((if b then handles rest else []) ++ e.ready_ext))
    by_flag true = simp append_assoc refl
    by_flag false = simp append_assoc refl

module _ (acts : ℕ → ℕ → Action) where
  trace-touch :
      (e : Executor) (h : ℕ) → trace (touch acts e h).touches ≡ trace e.touches ++ (h ∷ [])
  unfolding touch
  trace-touch e h = elim (Bool-cases (e.is_done h)) [
    | inl over ↦ rw (over, touch) refl
    | inr live ↦ rw (live, touch, suspend-touches) refl
  ]

  trace-touch_all :
      (hs : List ℕ) (e : Executor) → trace (touch_all acts e hs).touches ≡ trace e.touches ++ hs
  unfolding touch_all
  trace-touch_all [] e = sym (append-nil (trace e.touches))
  trace-touch_all (h ∷ hs) e =
      trace-touch_all hs (touch acts e h)
      ∙ ap (λ ts. ts ++ hs) (trace-touch e h)
      ∙ append_assoc (trace e.touches) (h ∷ []) hs

  -- A tick touches the tasks of the local queue in its order, then those whose timers are due, as
  -- they are popped, on a stop those of the other timers too, then the posted ones in theirs, and
  -- no other task: what these put into the queues waits for the next tick.
  pub tick_order :
      (e : Executor) (now : ℕ)
      → let popped = due (length e.timers) now e.timers in
        trace (run acts e now).touches
        ≡ trace e.touches
          ++ (e.local_ready
              ++ (handles popped.0
                  ++ ((if e.stop_flag then handles popped.1 else []) ++ e.ready_ext)))
  unfolding run
  tick_order e now =
      let p = process_timers e now in
      trace-touch_all (p.local_ready ++ p.ready_ext) (record p { local_ready = []; ready_ext = [] })
      ∙ simp (process_timers-touches e now, process_timers-batch e now) refl
