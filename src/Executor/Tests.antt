-- ===== src/Executor/Tests.antt =====
-- The executor on concrete histories.
use flowcoro.Base.{
  ℕ, ◌==◌, ◌+◌, ◌<◌, ◌≡◌, ◌↔◌, refl, true, List, [], ◌∷◌, arith, occurrences, if◌then◌else◌,
}
use flowcoro.Executor.{
  Action, Timer, yields, sleeps, waits, finishes, Event, spawns, runs, posts, init, spawn, shutdown,
  post_ready, is_finished, earliest, due, process_timers, unlink, suspend, touch, touch_all, run,
  step, history,
}
use flowcoro.Executor.Places.{destructions, is_clean, places}
use flowcoro.Executor.Histories.{no_lost_task, finished_when_destroyed}
use flowcoro.Executor.Shutdown.{has_finished, shutdown_returns}

-- Task 0 yields once, task 1 sleeps until 50, task 2 waits for an event; then each one finishes.
abbrev program : ℕ → ℕ → Action
program i k =
    if k == 0 then (if i == 0 then yields else if i == 1 then sleeps 50 else waits) else finishes

abbrev ending : ℕ → ℕ → Action
ending i k = finishes

abbrev calls : List Event
calls = spawns ∷ spawns ∷ spawns ∷ runs 10 ∷ posts 2 ∷ runs 20 ∷ []

abbrev pending : List Timer
pending =
    record { deadline = 30; handle = 4 }
    ∷ record { deadline = 10; handle = 5 }
    ∷ record { deadline = 90; handle = 6 }
    ∷ []

no_lost_task_example :
    let e = history program init calls in
    (is_clean 1 e.touches ≡ true)
    × (places e 1 + destructions 1 e.touches ≡ 1)
    × (occurrences 1 e.task_list + destructions 1 e.touches ≡ 1)
unfolding init history step spawn run touch_all touch suspend process_timers due earliest unlink
    post_ready
no_lost_task_example = no_lost_task program calls 1 (omega arith)

finished_when_destroyed_example :
    let e = history program init calls in
    (is_finished e ≡ true) ↔ ((i : ℕ) → i < e.next_task → destructions i e.touches ≡ 1)
unfolding init history step spawn run touch_all touch suspend process_timers due earliest unlink
    post_ready
finished_when_destroyed_example = finished_when_destroyed program calls (omega arith)

shutdown_returns_example :
    has_finished (shutdown ending (history program init calls) (21 ∷ 22 ∷ [])) ≡ true
unfolding init history step spawn run touch_all touch suspend process_timers due earliest unlink
    post_ready
shutdown_returns_example =
    shutdown_returns program ending calls 21 22 [] (λ i k. refl) (λ i. ground arith)
