-- ===== src/Balancer.antt =====
-- `SmartLoadBalancer` of include/flowcoro/load_balancer.h. Each atomic operation is one step; a
-- `select_scheduler` reads the loads in one step, so its choice is made of
-- the loads that it reads.
pub mod Choice
pub mod Loads
mod Tests
use flowcoro.Base.{
  ℕ, zero, suc, ◌+◌, ◌-◌, ◌%◌, ◌^◌, min, Bool, List, [], ◌∷◌, ltb, ◌==◌, if◌then◌else◌, low_mask,
  bit_and, word, add64, sub64, update,
}

-- The two arrays have `MAX_SCHEDULERS` entries; no operation reads or writes past them.
pub record Balancer : Type 0 where
  pub queue_loads : ℕ → ℕ
  pub total_processed : ℕ → ℕ
  pub scheduler_count : ℕ
  pub round_robin : ℕ

abbrev pub max_schedulers : ℕ
max_schedulers = 32

pub init : Balancer
init = record {
  queue_loads = λ _. 0;
  total_processed = λ _. 0;
  scheduler_count = 0;
  round_robin = 0;
}

pub set_scheduler_count : Balancer → ℕ → Balancer
set_scheduler_count b count = record b { scheduler_count = min count max_schedulers }

-- The loop of `select_scheduler`, from scheduler `i` on, with `left` rounds to go.
pub least_from : (ℕ → ℕ) → ℕ → ℕ → ℕ → ℕ → ℕ
least_from loads i zero min_load best = best
least_from loads i (suc left) min_load best =
    let less = ltb (loads i) min_load in
    least_from loads (i + 1) left (if less then loads i else min_load) (if less then i else best)

pub select_scheduler : Balancer → ℕ × Balancer
unfolding least_from
select_scheduler b =
    if b.scheduler_count == 0
    then (0, b)
    else if b.scheduler_count == 1
    then (0, b)
    else let quick_choice = b.round_robin % b.scheduler_count in
      (
        if bit_and quick_choice (low_mask 4) == 0
            then least_from b.queue_loads 0 b.scheduler_count (word - 1) 0
            else quick_choice,
        record b { round_robin = add64 b.round_robin 1 },
      )

pub update_load : Balancer → ℕ → ℕ → Balancer
update_load b id load =
    if ltb id max_schedulers then record b { queue_loads = update b.queue_loads id load } else b

pub increment_load : Balancer → ℕ → Balancer
increment_load b id =
    if ltb id max_schedulers
    then record b { queue_loads = update b.queue_loads id (add64 (b.queue_loads id) 1) }
    else b

pub decrement_load : Balancer → ℕ → Balancer
decrement_load b id =
    if ltb id max_schedulers
    then record b { queue_loads = update b.queue_loads id (sub64 (b.queue_loads id) 1) }
    else b

pub on_task_completed : Balancer → ℕ → Balancer
unfolding decrement_load
on_task_completed b id =
    let c = decrement_load b id in
    if ltb id max_schedulers
    then record c { total_processed = update c.total_processed id (add64 (c.total_processed id) 1) }
    else c

-- `LoadStats`, but for the score, which is the load as a floating-point number.
pub record LoadStats : Type 0 where
  pub scheduler_id : ℕ
  pub queue_load : ℕ
  pub processed : ℕ

-- The loop of `get_load_stats`.
pub stats_from : Balancer → ℕ → ℕ → List LoadStats
stats_from b i zero = []
stats_from b i (suc left) =
    record { scheduler_id = i; queue_load = b.queue_loads i; processed = b.total_processed i }
    ∷ stats_from b (i + 1) left

pub get_load_stats : Balancer → List LoadStats
unfolding stats_from
get_load_stats b = stats_from b 0 b.scheduler_count

pub data Event : Type 0 where
  counts : ℕ → Event
  selects : Event
  updates : ℕ → ℕ → Event
  increments : ℕ → Event
  decrements : ℕ → Event
  completes : ℕ → Event

pub step : Balancer → Event → Balancer
unfolding set_scheduler_count select_scheduler update_load increment_load decrement_load
    on_task_completed
step b (counts n) = set_scheduler_count b n
step b selects = (select_scheduler b).1
step b (updates id load) = update_load b id (load % word)
step b (increments id) = increment_load b id
step b (decrements id) = decrement_load b id
step b (completes id) = on_task_completed b id

pub run : Balancer → List Event → Balancer
unfolding step
run b [] = b
run b (e ∷ es) = run (step b e) es
