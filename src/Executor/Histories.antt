-- ===== src/Executor/Histories.antt =====
-- The tasks after any sequence of calls and ticks.
use flowcoro.Base.{
  ℕ, ◌+◌, ◌<◌, ◌≡◌, ◌↔◌, refl, ap, true, List, [], ◌∷◌, length, arith, occurrences,
  occurrences-append, none_occur, word, Bool-cases, inl, inr,
}
use flowcoro.Executor.{
  is_finished, Action, Executor, init, spawn, request_stop, post_ready, Event, spawns, runs, posts,
  stops, step, history,
}
use flowcoro.Executor.Places.{destructions, is_clean, places, IsPlaced, IsSound}
use flowcoro.Executor.Ticks.{run-IsSound}

spawn-IsSound : (e : Executor) → IsSound e [] → IsSound (spawn e) []
unfolding spawn
spawn-IsSound e v = record {
  each = λ i. record {
    placed = ground (
      arith,
      (v.each i).placed,
      (v.each i).unmade,
      occurrences-append i e.local_ready (e.next_task ∷ []),
    );
    unmade =
        ground (arith, (v.each i).unmade, occurrences-append i e.local_ready (e.next_task ∷ []));
    listed = ground (arith, (v.each i).listed, (v.each i).unmade);
    parked = λ over. ground (
      arith,
      (v.each i).parked over,
      (v.each i).unmade,
      occurrences-append i e.local_ready (e.next_task ∷ []),
    );
    clean = (v.each i).clean;
  };
  counted = omega (arith, v.counted);
}

post-IsPlaced :
    (e : Executor) (h i : ℕ)
    → e.is_waiting h ≡ true
    → IsPlaced e [] i
    → IsPlaced (post_ready e h) [] i
unfolding post_ready
post-IsPlaced e h i waited v = record {
  placed = ground (arith, v.placed, occurrences-append i e.ready_ext (h ∷ []));
  unmade = ground (arith, v.unmade, occurrences-append i e.ready_ext (h ∷ []));
  listed = v.listed;
  parked = v.parked;
  clean = v.clean;
}

post-IsSound :
    (e : Executor) (h : ℕ) → e.is_waiting h ≡ true → IsSound e [] → IsSound (post_ready e h) []
unfolding post_ready
post-IsSound e h waited v = record {
  each = λ i. post-IsPlaced e h i waited (v.each i);
  counted = v.counted;
}

pub step-IsSound :
    (acts : ℕ → ℕ → Action) (e : Executor) (ev : Event) → IsSound e [] → IsSound (step acts e ev) []
unfolding step request_stop
step-IsSound acts e spawns v = spawn-IsSound e v
step-IsSound acts e (runs now) v = run-IsSound acts e now v
step-IsSound acts e (posts h) v = elim (Bool-cases (e.is_waiting h)) [
  | inl waited ↦ rw (waited, step) (post-IsSound e h waited v)
  | inr busy ↦ rw (busy, step) v
]
step-IsSound acts e stops v = record {
  each = λ i. record {
    placed = (v.each i).placed;
    unmade = (v.each i).unmade;
    listed = (v.each i).listed;
    parked = (v.each i).parked;
    clean = (v.each i).clean;
  };
  counted = v.counted;
}

pub history-IsSound :
    (acts : ℕ → ℕ → Action) (evs : List Event) (e : Executor)
    → IsSound e []
    → IsSound (history acts e evs) []
unfolding history
history-IsSound acts [] e v = v
history-IsSound acts (ev ∷ evs) e v =
    history-IsSound acts evs (step acts e ev) (step-IsSound acts e ev v)

pub init-IsSound : IsSound init []
unfolding init
init-IsSound = record {
  each = λ i. record {
    placed = λ h. absurd (omega arith);
    unmade = λ h. refl;
    listed = λ h. absurd (omega arith);
    parked = λ h. absurd (cc);
    clean = refl;
  };
  counted = omega arith;
}

occurrences-of_empty : (i : ℕ) (xs : List ℕ) → length xs ≡ 0 → occurrences i xs ≡ 0
occurrences-of_empty i [] h = refl
occurrences-of_empty i (x ∷ xs) h = absurd (omega arith)

pub finished_destroyed :
    {e : Executor}
    → IsSound e []
    → length e.task_list < word
    → is_finished e ≡ true
    → (i : ℕ) → i < e.next_task
    → destructions i e.touches ≡ 1
unfolding is_finished
finished_destroyed {e} v few over i made =
    let none_left : occurrences i e.task_list ≡ 0 =
      occurrences-of_empty i e.task_list (ground (arith, v.counted)) in
    omega (arith, (v.each i).listed made)

pub destroyed_finished :
    {e : Executor}
    → IsSound e []
    → ((i : ℕ) → i < e.next_task → destructions i e.touches ≡ 1)
    → is_finished e ≡ true
unfolding is_finished
destroyed_finished {e} v gone =
    let empty : e.task_list ≡ [] =
      none_occur e.task_list (λ i. ground (arith, gone i, (v.each i).listed, (v.each i).unmade)) in
    ground (arith, v.counted, ap length empty)

-- Whatever the tasks do, and however spawns, ticks, posted events and a stop follow each other on
-- a new executor: the frame of a spawned task is touched no more once it is destroyed; until then
-- it stands exactly once among the queues, the timers and the tasks that wait for an event; and
-- it is in the task list once while it is not destroyed, and not at all afterwards.
pub no_lost_task :
    (acts : ℕ → ℕ → Action) (evs : List Event) (i : ℕ)
    → i < (history acts init evs).next_task
    → let e = history acts init evs in
      (is_clean i e.touches ≡ true)
      × (places e i + destructions i e.touches ≡ 1)
      × (occurrences i e.task_list + destructions i e.touches ≡ 1)
no_lost_task acts evs i made =
    let v = (history-IsSound acts evs init init-IsSound).each i in
    (v.clean, omega (arith, v.placed made), v.listed made)

-- After any history of a new executor whose task list is shorter than `2 ^ 64`, `is_finished` is
-- true exactly when the frame of every spawned task is destroyed.
pub finished_when_destroyed :
    (acts : ℕ → ℕ → Action) (evs : List Event)
    → length (history acts init evs).task_list < word
    → let e = history acts init evs in
      (is_finished e ≡ true) ↔ ((i : ℕ) → i < e.next_task → destructions i e.touches ≡ 1)
finished_when_destroyed acts evs few =
    let v = history-IsSound acts evs init init-IsSound in
    (finished_destroyed v few, destroyed_finished v)
