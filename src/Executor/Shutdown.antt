-- ===== src/Executor/Shutdown.antt =====
-- Stopping: the ticks after `request_stop`, once every task that is resumed runs to its end.
use flowcoro.Base.{
  ℕ, ◌+◌, ◌≤◌, ◌<◌, ◌≡◌, refl, ap, ◌∙◌, Bool, Option, none, some, true, false, ◌||◌, List, [], ◌∷◌,
  ◌++◌, length, ltb, arith, occurrences, occurrences-append, Bool-cases, inl, inr,
}
use flowcoro.Executor.{
  Timer, Action, finishes, Executor, due, handles, process_timers, suspend, touch, request_stop,
  step, Event, stops, history, init, touch_all, run, tick_all, shutdown, is_finished,
}
use flowcoro.Executor.Places.{destructions, IsSound}
use flowcoro.Executor.Ticks.{process_timers-IsSound, run-IsSound}
use flowcoro.Executor.Histories.{destroyed_finished, step-IsSound, history-IsSound, init-IsSound}

-- What the timers leave as it is.
record Fed (e p : Executor) (i : ℕ) : Type 0 where
  fed : occurrences i e.local_ready ≤ occurrences i p.local_ready
  same_waiting : p.is_waiting i ≡ e.is_waiting i
  same_done : p.is_done i ≡ e.is_done i
  same_touches : p.touches ≡ e.touches
  same_next : p.next_task ≡ e.next_task
  same_stop : p.stop_flag ≡ e.stop_flag
  emptied : e.stop_flag ≡ true → p.timers ≡ []

process_timers-Fed : (e : Executor) (now i : ℕ) → Fed e (process_timers e now) i
unfolding process_timers
process_timers-Fed e now i = record {
  fed = ground (
    arith,
    occurrences-append i e.local_ready (handles fired),
    occurrences-append i (e.local_ready ++ handles fired) (handles rest),
  );
  same_waiting = ground arith;
  same_done = ground arith;
  same_touches = ground arith;
  same_next = ground arith;
  same_stop = ground arith;
  emptied = λ stopped. ground (arith, stopped);
}
  where
    fired : List Timer
    fired = (due (length e.timers) now e.timers).0

    rest : List Timer
    rest = (due (length e.timers) now e.timers).1

module _ (acts : ℕ → ℕ → Action) (ends : (i k : ℕ) → acts i k ≡ finishes) where
  -- A task that is resumed is done afterwards, the other fields stay.
  record Ended (e after : Executor) (hs : List ℕ) (i : ℕ) : Type 0 where
    over : after.is_done i ≡ (e.is_done i || ltb 0 (occurrences i hs))
    gone :
        e.is_done i ≡ true
        → destructions i after.touches ≡ destructions i e.touches + occurrences i hs
    kept : destructions i e.touches ≤ destructions i after.touches
    same_waiting : after.is_waiting i ≡ e.is_waiting i
    same_timers : after.timers ≡ e.timers
    same_posted : after.ready_ext ≡ e.ready_ext
    same_stop : after.stop_flag ≡ e.stop_flag
    same_next : after.next_task ≡ e.next_task

  touch-Ended : (e : Executor) (h i : ℕ) → Ended e (touch acts e h) (h ∷ []) i
  unfolding touch suspend
  touch-Ended e h i = elim (Bool-cases (e.is_done h)) [
    | inl over ↦
        rw (over, touch)
          record {
            over = ground (arith, over);
            gone = λ d. ground (arith, over);
            kept = omega arith;
            same_waiting = refl;
            same_timers = refl;
            same_posted = refl;
            same_stop = refl;
            same_next = refl;
          }
    | inr live ↦
        rw (live, touch, ends h (e.resumes h))
          record {
            over = ground (arith, live);
            gone = λ d. ground (arith, live, d);
            kept = omega arith;
            same_waiting = refl;
            same_timers = refl;
            same_posted = refl;
            same_stop = refl;
            same_next = refl;
          }
  ]

  touch_all-Ended : (hs : List ℕ) (e : Executor) (i : ℕ) → Ended e (touch_all acts e hs) hs i
  unfolding touch_all
  touch_all-Ended [] e i = record {
    over = ground arith;
    gone = λ d. omega arith;
    kept = omega arith;
    same_waiting = refl;
    same_timers = refl;
    same_posted = refl;
    same_stop = refl;
    same_next = refl;
  }
  touch_all-Ended (h ∷ hs) e i =
      let one = touch-Ended e h i in
      let more = touch_all-Ended hs (touch acts e h) i in
      record {
        over = ground (arith, one.over, more.over);
        gone = λ d. ground (arith, d, one.over, one.gone d, more.gone);
        kept = omega (arith, one.kept, more.kept);
        same_waiting = more.same_waiting ∙ one.same_waiting;
        same_timers = more.same_timers ∙ one.same_timers;
        same_posted = more.same_posted ∙ one.same_posted;
        same_stop = more.same_stop ∙ one.same_stop;
        same_next = more.same_next ∙ one.same_next;
      }

  run-Ended :
      (e : Executor) (now i : ℕ)
      → let p = process_timers e now in
        Ended
          (record p { local_ready = []; ready_ext = [] })
          (run acts e now)
          (p.local_ready ++ p.ready_ext)
          i
  unfolding run
  run-Ended e now i =
      let p = process_timers e now in
      touch_all-Ended (p.local_ready ++ p.ready_ext) (record p { local_ready = []; ready_ext = [] })
        i

  -- After one tick each task is done, unless it was destroyed before.
  run_over :
      (e : Executor) (now i : ℕ)
      → IsSound e []
      → e.stop_flag ≡ true
      → e.is_waiting i ≡ false
      → i < e.next_task
      → destructions i e.touches ≡ 0
      → (run acts e now).is_done i ≡ true
  run_over e now i v stopped free made intact =
      let p = process_timers e now in
      let f = process_timers-Fed e now i in
      let t = run-Ended e now i in
      ground (
        arith,
        ((process_timers-IsSound e now v).each i).placed,
        f.same_next,
        f.same_waiting,
        ap (destructions i) f.same_touches,
        ap (λ ts. occurrences i (handles ts)) (f.emptied stopped),
        occurrences-append i p.local_ready p.ready_ext,
        t.over,
      )

  run_gone :
      (e : Executor) (now i : ℕ)
      → IsSound e []
      → e.is_done i ≡ true
      → 1 ≤ destructions i (run acts e now).touches
  run_gone e now i v over =
      let p = process_timers e now in
      let f = process_timers-Fed e now i in
      let t = run-Ended e now i in
      ground (
        arith,
        (v.each i).parked over,
        f.fed,
        f.same_done,
        ap (destructions i) f.same_touches,
        occurrences-append i p.local_ready p.ready_ext,
        t.gone,
      )

  run_kept :
      (e : Executor) (now i : ℕ)
      → destructions i e.touches ≤ destructions i (run acts e now).touches
  run_kept e now i = ground (
    arith,
    (run-Ended e now i).kept,
    ap (destructions i) (process_timers-Fed e now i).same_touches,
  )

  run_next : (e : Executor) (now : ℕ) → (run acts e now).next_task ≡ e.next_task
  run_next e now = (run-Ended e now 0).same_next ∙ (process_timers-Fed e now 0).same_next

  two_runs :
      (e : Executor) (now later : ℕ)
      → IsSound e []
      → e.stop_flag ≡ true
      → ((i : ℕ) → e.is_waiting i ≡ false)
      → is_finished (run acts (run acts e now) later) ≡ true
  two_runs e now later v stopped free =
      let one = run acts e now in
      let w = run-IsSound acts e now v in
      destroyed_finished (run-IsSound acts one later w) (λ i made. ground (
        arith,
        made,
        run_next e now,
        run_next one later,
        run_over e now i v stopped (free i),
        run_gone one later i w,
        run_kept e now i,
        run_kept one later i,
        ((run-IsSound acts one later w).each i).placed,
      ))

stop_finishes :
    (acts final : ℕ → ℕ → Action) (evs : List Event) (now later : ℕ)
    → ((i k : ℕ) → final i k ≡ finishes)
    → ((i : ℕ) → (history acts init evs).is_waiting i ≡ false)
    → is_finished (run final (run final (request_stop (history acts init evs)) now) later) ≡ true
unfolding request_stop step
stop_finishes acts final evs now later ends free =
    let e = history acts init evs in
    two_runs final ends (request_stop e) now later
      (step-IsSound acts e stops (history-IsSound acts evs init init-IsSound)) refl free

-- The loop has returned, with no task left.
abbrev pub has_finished : Option Executor → Bool
has_finished none = false
has_finished (some e) = is_finished e

tick_all_finished :
    (acts : ℕ → ℕ → Action) (times : List ℕ) (e : Executor)
    → is_finished e ≡ true
    → has_finished (tick_all acts e times) ≡ true
unfolding tick_all
tick_all_finished acts [] e over = ground (arith, over)
tick_all_finished acts (now ∷ times) e over = ground (arith, over)

tick_all_twice :
    (acts : ℕ → ℕ → Action) (now later : ℕ) (times : List ℕ) (e : Executor)
    → is_finished (run acts (run acts e now) later) ≡ true
    → has_finished (tick_all acts e (now ∷ later ∷ times)) ≡ true
unfolding tick_all
tick_all_twice acts now later times e over =
    ground (arith, over, tick_all_finished acts times (run acts (run acts e now) later) over)

-- After any history of a new executor that leaves no task waiting for an event, `shutdown`
-- returns with no task left after at most two ticks, whatever deadlines were to come, if from
-- then on every task that is resumed runs to its end.
pub shutdown_returns :
    (acts final : ℕ → ℕ → Action) (evs : List Event) (now later : ℕ) (times : List ℕ)
    → ((i k : ℕ) → final i k ≡ finishes)
    → ((i : ℕ) → (history acts init evs).is_waiting i ≡ false)
    → has_finished (shutdown final (history acts init evs) (now ∷ later ∷ times)) ≡ true
unfolding shutdown
shutdown_returns acts final evs now later times ends free =
    tick_all_twice final now later times (request_stop (history acts init evs))
      (stop_finishes acts final evs now later ends free)
