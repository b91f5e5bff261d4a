-- ===== src/Manager/Tests.antt =====
-- Timers and frames on concrete histories.
use flowcoro.Base.{
  ℕ, ◌+◌, ◌≡◌, ◌≤◌, refl, Bool, true, false, List, [], ◌∷◌, ◌++◌, length, has, occurrences, arith,
}
use flowcoro.Manager.{
  init, Event, adds, adds_enhanced, cancels, processes_timers, processes_ready, abandons,
  processes_pending, with_batch, next_popped, schedule_destroy, process_pending_tasks, timer_thread,
  step, run, add_timer, add_timer_enhanced, cancel_timer, pop_top, dispatch, fire_due,
  process_timer_queue, process_ready_queue, expire, filter_first, filter_expired, hand_on, take_due,
  timer_thread_step,
}
use flowcoro.Manager.Heap.{all_from}
use flowcoro.Manager.Timers.{fired_ids, on_time, pending, settled, timer_accounted}
use flowcoro.Manager.Frames.{handles, handles_accounted}
use flowcoro.Manager.Rounds.{due_leave_queue}
use flowcoro.Manager.Cancels.{cancelled_never_fires}
use flowcoro.Manager.Late.{late_cancel_stays}

abbrev never_done : ℕ → Bool
never_done h = false

-- Timers 1 to 3; the second is cancelled while it waits.
abbrev two_timers : List Event
two_timers = adds 10 5 ∷ adds 7 6 ∷ []

abbrev later : List Event
later =
    adds_enhanced 20 8
    ∷ processes_timers 12 never_done
    ∷ processes_ready 1
    ∷ processes_ready 1
    ∷ timer_thread 30
    ∷ timer_thread 30
    ∷ timer_thread 30
    ∷ []

timer_accounted_example :
    let m = run init (two_timers ++ later) in
    (pending m 1 + settled m 1 ≡ 1) × (on_time m.fired ≡ true)
unfolding run step init add_timer add_timer_enhanced cancel_timer pop_top dispatch fire_due
    process_timer_queue process_ready_queue expire filter_first filter_expired hand_on take_due
    timer_thread_step
timer_accounted_example =
    timer_accounted (two_timers ++ later) 1 (omega arith) (omega arith) (omega arith)

cancelled_never_fires_example :
    occurrences 2 (fired_ids (run (run init two_timers) (cancels 2 ∷ later)).fired) ≡ 0
unfolding run step init add_timer
cancelled_never_fires_example =
    cancelled_never_fires two_timers later 2 (omega arith) (omega arith) (omega arith) (omega arith)

late_cancel_stays_example :
    has 1 (run (run init (two_timers ++ later)) (cancels 1 ∷ later)).cancelled_timers ≡ true
unfolding run step init add_timer add_timer_enhanced cancel_timer pop_top dispatch fire_due
    process_timer_queue process_ready_queue expire filter_first filter_expired hand_on take_due
    timer_thread_step
late_cancel_stays_example =
    late_cancel_stays (two_timers ++ later) later 1 (omega arith) (omega arith) (omega arith) refl

all_come : (run init (two_timers ++ later)).scheduled ≡ 8 ∷ []
unfolding run step init add_timer add_timer_enhanced cancel_timer pop_top dispatch fire_due
    process_timer_queue process_ready_queue expire filter_first filter_expired hand_on take_due
    timer_thread_step
all_come = refl

-- Two calls destroy at the same time, and a frame abandons another one.
abbrev abandoned_frames : List Event
abandoned_frames =
    abandons 4
    ∷ processes_pending 1
    ∷ abandons 5
    ∷ processes_pending 2
    ∷ processes_pending 1
    ∷ abandons 6
    ∷ []

handles_accounted_example :
    let m = run init abandoned_frames in
    (occurrences 5 m.taken + occurrences 5 (handles m.resuming) + occurrences 5 m.ready_queue
      ≡ occurrences 5 m.readied)
    × (occurrences 5 m.destroyed
          + occurrences 5 (handles m.destroying)
          + occurrences 5 m.destroy_queue
        ≡ occurrences 5 m.abandoned)
unfolding run step init
handles_accounted_example = handles_accounted abandoned_frames 5

-- One frame is destroyed, one is in the batch of the other call, and one waits.
in_three_places :
    let m = run init abandoned_frames in
    (m.destroyed ≡ 4 ∷ []) × (handles m.destroying ≡ 5 ∷ []) × (m.destroy_queue ≡ 6 ∷ [])
unfolding run step init schedule_destroy process_pending_tasks with_batch next_popped
in_three_places = (refl, refl, refl)

due_leave_queue_example :
    let m = run init two_timers in
    (length m.timer_queue ≤ 32 → all_from 9 (process_timer_queue m 8 never_done).timer_queue ≡ true)
    × (m.timer_thread_stop ≡ false → all_from 9 (take_due m 8).timer_queue ≡ true)
due_leave_queue_example = due_leave_queue (run init two_timers) 8 never_done
