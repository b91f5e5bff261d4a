-- ===== src/Balancer/Loads.antt =====
-- What the load of a scheduler counts.
use flowcoro.Base.{
  ℕ, ◌+◌, ◌%◌, ◌<◌, ◌≡◌, refl, Bool, true, false, not, ◌&&◌, List, [], ◌∷◌, arith, ◌==◌,
  if◌then◌else◌, word,
}
use flowcoro.Balancer.{
  Balancer, set_scheduler_count, select_scheduler, update_load, increment_load, decrement_load,
  on_task_completed, Event, counts, selects, updates, increments, decrements, completes, step, run,
}

-- What an event adds to the load of scheduler `i`, what it takes off, and whether it sets the load
-- outright.
abbrev added : ℕ → Event → ℕ
added i (increments id) = if id == i then 1 else 0
added i _ = 0

abbrev taken_off : ℕ → Event → ℕ
taken_off i (decrements id) = if id == i then 1 else 0
taken_off i (completes id) = if id == i then 1 else 0
taken_off i _ = 0

abbrev sets : ℕ → Event → Bool
sets i (updates id load) = id == i
sets i _ = false

abbrev pub all_added : ℕ → List Event → ℕ
all_added i [] = 0
all_added i (e ∷ es) = added i e + all_added i es

abbrev pub all_taken_off : ℕ → List Event → ℕ
all_taken_off i [] = 0
all_taken_off i (e ∷ es) = taken_off i e + all_taken_off i es

abbrev pub never_sets : ℕ → List Event → Bool
never_sets i [] = true
never_sets i (e ∷ es) = not (sets i e) && never_sets i es

step_counts :
    (b : Balancer) (e : Event) (i : ℕ)
    → i < 32
    → sets i e ≡ false
    → ((step b e).queue_loads i + taken_off i e) % word ≡ (b.queue_loads i + added i e) % word
unfolding step set_scheduler_count select_scheduler update_load increment_load decrement_load
    on_task_completed
step_counts b (counts n) i h keep = refl
step_counts b selects i h keep = ground arith
step_counts b (updates id load) i h keep = ground arith
step_counts b (increments id) i h keep = ground arith
step_counts b (decrements id) i h keep = ground arith
step_counts b (completes id) i h keep = ground arith

-- Over any sequence of calls that does not set it outright, the load of a scheduler below 32
-- changes by the increments, less the decrements and the completed tasks, as 64-bit words.
pub load_counts :
    (b : Balancer) (es : List Event) (i : ℕ)
    → i < 32
    → never_sets i es ≡ true
    → ((run b es).queue_loads i + all_taken_off i es) % word
      ≡ (b.queue_loads i + all_added i es) % word
unfolding run
load_counts b [] i h keep = refl
load_counts b (e ∷ es) i h keep = ground (arith, step_counts b e i h, load_counts (step b e) es i h)
