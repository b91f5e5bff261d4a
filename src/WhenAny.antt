-- ===== src/WhenAny.antt =====
-- `when_any` of include/flowcoro/when_any.h, its selectors and its awaiter, and `with_timeout` of
-- include/flowcoro/timeout.h. Each atomic operation is a step; the steps of the selectors, of the
-- caller's `await_suspend` and of the resumed caller interleave in any order.
pub mod Wakeup
pub mod Reading
mod Tests
use flowcoro.Base.{
  ℕ, zero, suc, ◌+◌, ◌-◌, Bool, true, false, Option, none, some, List, [], ◌∷◌, length, ltb, ◌==◌,
  if◌then◌else◌, update,
}

-- What an `std::any` holds.
pub data Any : Type 0 where
  empty : Any
  value : ℕ → Any
  exception : ℕ → Any

-- A selector: its task runs; it lost; or it won and stores its index, stores the result, wakes the
-- waiter, has ended.
pub data Selector : Type 0 where
  works : Selector
  has_lost : Selector
  stores_index : Selector
  stores_result : Selector
  wakes : Selector
  has_ended : Selector

-- The caller: `await_ready`; the parts of `await_suspend`; behind it; or it has never suspended.
pub data Caller : Type 0 where
  asks : Caller
  registers : Caller
  checks_again : Caller
  wakes_itself : Caller
  has_suspended : Caller
  goes_on : Caller

pub record State : Type 0 where
  pub winner : Option ℕ  -- `winner_set`, with the selector that set it
  pub winner_index : Option ℕ  -- none for `size_t(-1)`
  pub result : Any
  pub waiter : Bool  -- whether the caller's address is there
  pub selector : ℕ → Selector
  pub caller : Caller
  pub scheduled : ℕ  -- how often the caller was handed to the manager
  pub reads : List (Option ℕ × Any)  -- what the caller has found on its resumptions

pub init : State
init = record {
  winner = none;
  winner_index = none;
  result = empty;
  waiter = false;
  selector = λ _. works;
  caller = asks;
  scheduled = 0;
  reads = [];
}

abbrev pub is_set : Option ℕ → Bool
is_set none = false
is_set (some _) = true

abbrev pub move_selector : State → ℕ → Selector → State
move_selector s i p = record s { selector = update s.selector i p }

-- `resume_waiter`, or the exchange at the end of `await_suspend`: who takes the address schedules.
abbrev pub take_waiter : State → State
take_waiter s = if s.waiter then record s { waiter = false; scheduled = suc s.scheduled } else s

module _ (outcome : ℕ → Any) where
  -- `selector`, with `try_win` and `resume_waiter`.
  pub selector_step : State → ℕ → Selector → State
  selector_step s i works =
      if is_set s.winner
      then move_selector s i has_lost
      else move_selector (record s { winner = some i }) i stores_index
  selector_step s i has_lost = s
  selector_step s i stores_index =
      move_selector (record s { winner_index = some i }) i stores_result
  selector_step s i stores_result = move_selector (record s { result = outcome i }) i wakes
  selector_step s i wakes = move_selector (take_waiter s) i has_ended
  selector_step s i has_ended = s

-- `await_ready` and `await_suspend`.
pub caller_step : State → Caller → State
caller_step s asks = record s { caller = if is_set s.winner then goes_on else registers }
caller_step s registers = record s { waiter = true; caller = checks_again }
caller_step s checks_again = record s {
  caller = if is_set s.winner then wakes_itself else has_suspended;
}
caller_step s wakes_itself = record (take_waiter s) { caller = has_suspended }
caller_step s has_suspended = s
caller_step s goes_on = s

-- The caller behind its await: what `when_any` returns.
abbrev pub read_state : State → State
read_state s = record s { reads = (s.winner_index, s.result) ∷ s.reads }

abbrev pub never_suspends : Caller → Bool
never_suspends asks = false
never_suspends registers = false
never_suspends checks_again = false
never_suspends wakes_itself = false
never_suspends has_suspended = false
never_suspends goes_on = true

-- The caller comes behind its await at once if it never suspends, and each time it is scheduled.
pub resume_step : State → State
resume_step s =
    if ltb (length s.reads) (s.scheduled + (if never_suspends s.caller then 1 else 0))
    then read_state s
    else s

pub data Event : Type 0 where
  selects : ℕ → Event
  calls : Event
  resumes : Event

pub step : (ℕ → Any) → State → Event → State
unfolding selector_step caller_step resume_step
step outcome s (selects i) = selector_step outcome s i (s.selector i)
step outcome s calls = caller_step s s.caller
step outcome s resumes = resume_step s

pub run : (ℕ → Any) → State → List Event → State
unfolding step
run outcome s [] = s
run outcome s (e ∷ es) = run outcome (step outcome s e) es

-- How `with_timeout` ends: task 0 is the caller's, task 1 the clock's.
pub data Outcome : Type 0 where
  returns : ℕ → Outcome
  rethrows : ℕ → Outcome
  times_out : Outcome

pub with_timeout : Option ℕ × Any → Outcome
with_timeout (none, r) = times_out
with_timeout (some (suc i), r) = times_out
with_timeout (some zero, empty) = times_out
with_timeout (some zero, value v) = returns v
with_timeout (some zero, exception e) = rethrows e
