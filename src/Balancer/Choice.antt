-- ===== src/Balancer/Choice.antt =====
-- Which scheduler `select_scheduler` chooses.
use native.Mathlib.Nat.{mod-lt}
use flowcoro.Base.{
  ℕ, zero, suc, ◌+◌, ◌-◌, ◌%◌, ◌≤◌, ◌<◌, ◌≡◌, ◌≢◌, ◌⊎◌, inl, refl, List, [], ◌∷◌, arith, ltb, ◌==◌,
  if◌then◌else◌, bit_and-low_mask, word,
}
use flowcoro.Balancer.{
  Balancer, init, set_scheduler_count, least_from, select_scheduler, update_load, increment_load,
  decrement_load, on_task_completed, Event, counts, selects, updates, increments, decrements,
  completes, step, run,
}

-- What every history keeps: the arrays are long enough, and a load is a word.
pub record IsValid (b : Balancer) : Type 0 where
  pub few : b.scheduler_count ≤ 32
  pub words : (i : ℕ) → b.queue_loads i < word

pub init-IsValid : IsValid init
unfolding init
init-IsValid = record { few = omega arith; words = λ i. omega arith }

pub step-IsValid : (b : Balancer) (e : Event) → IsValid b → IsValid (step b e)
unfolding step set_scheduler_count select_scheduler update_load increment_load decrement_load
    on_task_completed
step-IsValid b (counts n) v = record { few = ground arith; words = v.words }
step-IsValid b selects v = record {
  few = ground (arith, v.few);
  words = λ i. ground (arith, v.words i);
}
step-IsValid b (updates id load) v = record {
  few = ground (arith, v.few);
  words = λ i. ground (arith, v.words i);
}
step-IsValid b (increments id) v = record {
  few = ground (arith, v.few);
  words = λ i. ground (arith, v.words i);
}
step-IsValid b (decrements id) v = record {
  few = ground (arith, v.few);
  words = λ i. ground (arith, v.words i);
}
step-IsValid b (completes id) v = record {
  few = ground (arith, v.few);
  words = λ i. ground (arith, v.words i);
}

pub run-IsValid : (b : Balancer) (es : List Event) → IsValid b → IsValid (run b es)
unfolding run
run-IsValid b [] v = v
run-IsValid b (e ∷ es) v = run-IsValid (step b e) es (step-IsValid b e v)

-- The loop ends at a scheduler that it has seen, or stays with the one it began with.
least_from-seen :
    (loads : ℕ → ℕ) (i left least best : ℕ)
    → let r = least_from loads i left least best in (r ≡ best) ⊎ ((i ≤ r) × (r < i + left))
unfolding least_from
least_from-seen loads i zero least best = inl refl
least_from-seen loads i (suc left) least best = ground (
  arith,
  least_from-seen loads (i + 1) left (if ltb (loads i) least then loads i else least)
      (if ltb (loads i) least then i else best),
)

-- No load that the loop has seen is below the load of the scheduler it ends with.
least_from-least :
    (loads : ℕ → ℕ) (i left least best : ℕ)
    → loads best ≤ least
    → let r = least_from loads i left least best in
      (loads r ≤ least) × ((j : ℕ) → i ≤ j → j < i + left → loads r ≤ loads j)
unfolding least_from
least_from-least loads i zero least best h = (h, λ j from to. absurd (omega arith))
least_from-least loads i (suc left) least best h =
    let less = ltb (loads i) least in
    let least' = if less then loads i else least in
    let best' = if less then i else best in
    let (low, all) = least_from-least loads (i + 1) left least' best' (ground (arith, h)) in
    (ground (arith, low), λ j from to. ground (arith, low, all j))

-- After any history in which the number of schedulers is not 0, the choice is below that number.
pub select_scheduler-in_range :
    (es : List Event)
    → (run init es).scheduler_count ≢ 0
    → (select_scheduler (run init es)).0 < (run init es).scheduler_count
unfolding select_scheduler
select_scheduler-in_range es some_left =
    ground (arith, least_from-seen b.queue_loads 0 b.scheduler_count (word - 1) 0, below)
  where
    b : Balancer
    b = run init es

    below : b.round_robin % b.scheduler_count < b.scheduler_count
    below = mod-lt b.round_robin (omega arith)

-- When the rotation of more than one scheduler has come to a multiple of 16, the choice has a
-- load that is no higher than that of any scheduler, after any history.
pub select_scheduler-least :
    (es : List Event) (i : ℕ)
    → 1 < (run init es).scheduler_count
    → (run init es).round_robin % (run init es).scheduler_count % 16 ≡ 0
    → i < (run init es).scheduler_count
    → let b = run init es in b.queue_loads (select_scheduler b).0 ≤ b.queue_loads i
unfolding select_scheduler
select_scheduler-least es i several turn there =
    let v = run-IsValid init es init-IsValid in
    let (_, all) =
      least_from-least b.queue_loads 0 b.scheduler_count (word - 1) 0 (omega (arith, v.words 0)) in
    ground (
      arith,
      bit_and-low_mask 4 (b.round_robin % b.scheduler_count),
      all i (omega arith) (omega arith),
    )
  where
    b : Balancer
    b = run init es

-- With more than one scheduler and at most 16, the loads are looked at when the rotation comes to
-- scheduler 0, so at one call in `scheduler_count`, and at any other the choice is the
-- rotation's.
pub select_scheduler-few :
    (b : Balancer)
    → 1 < b.scheduler_count
    → b.scheduler_count ≤ 16
    → let turn = b.round_robin % b.scheduler_count in
      (select_scheduler b).0
      ≡ (if turn == 0 then least_from b.queue_loads 0 b.scheduler_count (word - 1) 0 else turn)
unfolding select_scheduler
select_scheduler-few b several few =
    ground (arith, bit_and-low_mask 4 (b.round_robin % b.scheduler_count), below)
  where
    below : b.round_robin % b.scheduler_count < b.scheduler_count
    below = mod-lt b.round_robin (omega arith)
