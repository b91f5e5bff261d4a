-- ===== src/Executor.antt =====
-- `RtExecutor` of include/flowcoro/rt_executor.h with the tasks that it runs. A task is a number.
-- What a task does between two suspensions is its own code, an argument; the clock is one too. All
-- of `run` is done by one thread and is one step; other threads only post and ask to stop.
pub mod Timers
pub mod Places
pub mod Order
pub mod Ticks
pub mod Histories
pub mod Shutdown
mod Tests
use flowcoro.Base.{
  ℕ, zero, suc, ◌+◌, ◌-◌, Bool, true, false, not, ◌&&◌, Option, none, some, List, [], ◌∷◌, ◌++◌,
  length, leb, ◌==◌, if◌then◌else◌, update, map, add64, sub64,
}

-- `TimerEntry`
pub record Timer : Type 0 where
  pub deadline : ℕ
  pub handle : ℕ

-- How a resumed task gives the thread back: by `yield`, by `sleep_for` with a deadline to come, by
-- waiting for an event that another thread will post, or by reaching its final suspension.
pub data Action : Type 0 where
  yields : Action
  sleeps : ℕ → Action
  waits : Action
  finishes : Action

-- What was done to a coroutine frame.
pub data Touch : Type 0 where
  resumed : ℕ → Touch
  destroyed : ℕ → Touch

pub record Executor : Type 0 where
  pub local_ready : List ℕ
  pub ready_ext : List ℕ
  pub timers : List Timer
  pub task_list : List ℕ  -- from `task_list_head_` on
  pub stop_flag : Bool
  pub active_count : ℕ
  pub is_done : ℕ → Bool  -- `done_` of each promise
  pub is_waiting : ℕ → Bool  -- suspended until an event is posted
  pub resumes : ℕ → ℕ  -- how often each task has been resumed
  pub next_task : ℕ
  pub touches : List Touch  -- the last one first

pub init : Executor
init = record {
  local_ready = [];
  ready_ext = [];
  timers = [];
  task_list = [];
  stop_flag = false;
  active_count = 0;
  is_done = λ _. false;
  is_waiting = λ _. false;
  resumes = λ _. 0;
  next_task = 0;
  touches = [];
}

abbrev pub post_local : Executor → ℕ → Executor
post_local e h = record e { local_ready = e.local_ready ++ (h ∷ []) }

-- `spawn`, with `task_list_push`.
pub spawn : Executor → Executor
spawn e = record e {
  active_count = add64 e.active_count 1;
  task_list = e.next_task ∷ e.task_list;
  local_ready = e.local_ready ++ (e.next_task ∷ []);
  next_task = suc e.next_task;
}

pub request_stop : Executor → Executor
request_stop e = record e { stop_flag = true }

-- `post_ready`, for a task that waits for the event.
pub post_ready : Executor → ℕ → Executor
post_ready e h = record e {
  ready_ext = e.ready_ext ++ (h ∷ []);
  is_waiting = update e.is_waiting h false;
}

pub is_finished : Executor → Bool
is_finished e = e.active_count == 0

-- An entry with the least deadline, and the others: the front of the heap. Among equal deadlines
-- the heap may choose another one.
pub earliest : List Timer → Option (Timer × List Timer)
earliest [] = none
earliest (t ∷ ts) = elim (earliest ts) [
  | none ↦ some (t, [])
  | some (m, rest) ↦ if leb t.deadline m.deadline then some (t, ts) else some (m, t ∷ rest)
]

-- The loop of `process_timers`: what is due, in the order in which it is popped, and what stays.
-- Each round pops an entry, so the number of entries is enough fuel.
pub due : ℕ → ℕ → List Timer → List Timer × List Timer
unfolding earliest
due zero now ts = ([], ts)
due (suc fuel) now ts = elim (earliest ts) [
  | none ↦ ([], ts)
  | some (t, rest) ↦
      let later = due fuel now rest in
      if leb t.deadline now then (t ∷ later.0, later.1) else ([], ts)
]

abbrev pub handles : List Timer → List ℕ
handles [] = []
handles (t ∷ ts) = t.handle ∷ handles ts

pub process_timers : Executor → ℕ → Executor
unfolding due
process_timers e now =
    let (fired, rest) = due (length e.timers) now e.timers in
    let posted = e.local_ready ++ handles fired in
    if e.stop_flag
    then record e { local_ready = posted ++ handles rest; timers = [] }
    else record e { local_ready = posted; timers = rest }

-- `task_list_unlink`
pub unlink : ℕ → List ℕ → List ℕ
unlink h [] = []
unlink h (x ∷ xs) = if x == h then xs else x ∷ unlink h xs

-- `resume`: the task runs to its next suspension.
pub suspend : Action → Executor → ℕ → Executor
suspend yields e h = post_local e h
suspend (sleeps d) e h = record e { timers = record { deadline = d; handle = h } ∷ e.timers }
suspend waits e h = record e { is_waiting = update e.is_waiting h true }
suspend finishes e h = post_local (record e { is_done = update e.is_done h true }) h

module _ (acts : ℕ → ℕ → Action) where
  -- The body of the loop of `run`.
  pub touch : Executor → ℕ → Executor
  unfolding unlink suspend
  touch e h =
      if e.is_done h
      then record e {
        task_list = unlink h e.task_list;
        active_count = sub64 e.active_count 1;
        touches = destroyed h ∷ e.touches;
      }
      else suspend (acts h (e.resumes h))
          (record e {
            resumes = update e.resumes h (suc (e.resumes h));
            touches = resumed h ∷ e.touches;
          })
          h

  pub touch_all : Executor → List ℕ → Executor
  unfolding touch
  touch_all e [] = e
  touch_all e (h ∷ hs) = touch_all (touch e h) hs

  -- The queues are emptied before the batch, so what the batch posts waits for the next tick.
  pub run : Executor → ℕ → Executor
  unfolding process_timers touch_all
  run e now =
      let p = process_timers e now in
      let batch = p.local_ready ++ p.ready_ext in
      touch_all (record p { local_ready = []; ready_ext = [] }) batch

  -- The loop of `shutdown` and of `run_blocking`, with the times of its ticks: nothing is returned
  -- when they are used up and there are tasks left.
  pub tick_all : Executor → List ℕ → Option Executor
  unfolding run is_finished
  tick_all e [] = if is_finished e then some e else none
  tick_all e (now ∷ times) =
      let later = tick_all (run e now) times in if is_finished e then some e else later

  pub shutdown : Executor → List ℕ → Option Executor
  unfolding request_stop tick_all
  shutdown e times = tick_all (request_stop e) times

-- What the host thread and other threads do. An event is posted for a task that waits for it.
pub data Event : Type 0 where
  spawns : Event
  runs : ℕ → Event
  posts : ℕ → Event
  stops : Event

pub step : (ℕ → ℕ → Action) → Executor → Event → Executor
unfolding spawn run post_ready request_stop
step acts e spawns = spawn e
step acts e (runs now) = run acts e now
step acts e (posts h) = if e.is_waiting h then post_ready e h else e
step acts e stops = request_stop e

pub history : (ℕ → ℕ → Action) → Executor → List Event → Executor
unfolding step
history acts e [] = e
history acts e (ev ∷ evs) = history acts (step acts e ev) evs
