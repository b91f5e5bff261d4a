-- ===== src/Manager.antt =====
-- `CoroutineManager` of include/flowcoro/coroutine_manager.h. Each section under a mutex is a step, and the
-- steps of all threads interleave in any order; so is each handle that `process_ready_queue` and
-- `process_pending_tasks` then resume or destroy, outside the mutex. A coroutine handle is a number, 0 for
-- none.
pub mod Heap
pub mod Keeps
pub mod Late
pub mod Timers
pub mod Cancels
pub mod Frames
pub mod Rounds
mod Tests
use flowcoro.Base.{
  ℕ, zero, suc, ◌-◌, Bool, true, false, not, ◌&&◌, ◌||◌, Option, none, some, List, [], ◌∷◌, ◌++◌,
  ◌==◌, ltb, leb, length, take, drop, has, if◌then◌else◌, add64,
}

pub record TimerEntry : Type 0 where
  pub when : ℕ
  pub timer_id : ℕ
  pub handle : ℕ

-- A timer that has come to its end, and the time that was read before.
pub record Fired : Type 0 where
  pub entry : TimerEntry
  pub at : ℕ

-- A handle that a call has popped and not yet resumed or destroyed.
pub record Popped : Type 0 where
  pub call : ℕ
  pub popped : ℕ

pub record Manager : Type 0 where
  pub timer_queue : List TimerEntry
  pub cancelled_timers : List ℕ
  pub ready_queue : List ℕ
  pub destroy_queue : List ℕ
  pub resuming : List Popped  -- the batches of the calls, each in its order
  pub destroying : List Popped
  pub timer_id_generator : ℕ
  pub timer_thread_stop : Bool
  pub now : ℕ  -- of the timer thread, as are the next two
  pub expired : List TimerEntry
  pub to_resume : List ℕ
  pub scheduled : List ℕ  -- handed to the coroutine pool
  pub fired : List Fired  -- read by no step, as are the next four
  pub dropped : List ℕ
  pub readied : List ℕ
  pub taken : List ℕ
  pub abandoned : List ℕ
  pub destroyed : List ℕ

pub init : Manager
init = record {
  timer_queue = [];
  cancelled_timers = [];
  ready_queue = [];
  destroy_queue = [];
  resuming = [];
  destroying = [];
  timer_id_generator = 1;
  timer_thread_stop = false;
  now = 0;
  expired = [];
  to_resume = [];
  scheduled = [];
  fired = [];
  dropped = [];
  readied = [];
  taken = [];
  abandoned = [];
  destroyed = [];
}

pub add_timer : Manager → ℕ → ℕ → ℕ × Manager
add_timer m when handle =
    let id = m.timer_id_generator in
    (
      id,
      record m {
        timer_id_generator = add64 id 1;
        timer_queue = record { when = when; timer_id = id; handle = handle } ∷ m.timer_queue;
      },
    )

-- Both ways, with the timer thread and without, do what `add_timer` does.
pub add_timer_enhanced : Manager → ℕ → ℕ → ℕ × Manager
unfolding add_timer
add_timer_enhanced m when handle = if handle == 0 then (0, m) else add_timer m when handle

-- Insertion into the set, and `erase`.
abbrev pub inserted : ℕ → List ℕ → List ℕ
inserted id ids = if has id ids then ids else id ∷ ids

abbrev pub erased : ℕ → List ℕ → List ℕ
erased id [] = []
erased id (i ∷ ids) = if i == id then erased id ids else i ∷ erased id ids

pub cancel_timer : Manager → ℕ → Manager
cancel_timer m id =
    if id == 0 then m else record m { cancelled_timers = inserted id m.cancelled_timers }

-- `top` and `pop`; among equal times the choice is the model's.
pub pop_top : List TimerEntry → Option (TimerEntry × List TimerEntry)
pop_top [] = none
pop_top (t ∷ ts) = elim (pop_top ts) [
  | none ↦ some (t, [])
  | some (e, rest) ↦ if leb t.when e.when then some (t, ts) else some (e, t ∷ rest)
]

abbrev pub timer_batch : ℕ
timer_batch = 32

-- Whether the entry goes into the batch.
abbrev pub is_wanted : Manager → (ℕ → Bool) → TimerEntry → Bool
is_wanted m done e =
    not (has e.timer_id m.cancelled_timers) && not (e.handle == 0) && not (done e.handle)

-- What `process_timer_queue` does with an entry that it pops, and leaves `rest`.
pub dispatch : Manager → ℕ → (ℕ → Bool) → TimerEntry → List TimerEntry → Manager
dispatch m now done e rest =
    if is_wanted m done e
    then record m {
      timer_queue = rest;
      ready_queue = m.ready_queue ++ e.handle ∷ [];
      readied = m.readied ++ e.handle ∷ [];
      fired = record { entry = e; at = now } ∷ m.fired;
    }
    else record m {
      timer_queue = rest;
      cancelled_timers = erased e.timer_id m.cancelled_timers;
      dropped = e.timer_id ∷ m.dropped;
    }

-- The loop, with room for so many entries in the batch.
pub fire_due : ℕ → Manager → ℕ → (ℕ → Bool) → ℕ → Manager
unfolding pop_top dispatch
fire_due zero m now done room = m
fire_due (suc fuel) m now done room = elim (pop_top m.timer_queue) [
  | none ↦ m
  | some (e, rest) ↦
      let later =
        fire_due fuel (dispatch m now done e rest) now done
          (if is_wanted m done e then room - 1 else room) in
      if ltb now e.when || room == 0 then m else later
]

-- Each round pops an entry, so the number of entries is enough.
pub process_timer_queue : Manager → ℕ → (ℕ → Bool) → Manager
unfolding fire_due
process_timer_queue m now done = fire_due (length m.timer_queue) m now done timer_batch

abbrev pub batch_size : ℕ
batch_size = 64

-- A batch beside those of the other calls, and the next handle of a call's batch.
pub with_batch : ℕ → List ℕ → List Popped → List Popped
with_batch call [] others = others
with_batch call (h ∷ hs) others = record { call = call; popped = h } ∷ with_batch call hs others

pub next_popped : ℕ → List Popped → Option (ℕ × List Popped)
next_popped call [] = none
next_popped call (x ∷ xs) =
    let later = next_popped call xs in
    if x.call == call
    then some (x.popped, xs)
    else elim later [ none ↦ none | some (h, rest) ↦ some (h, x ∷ rest) ]

-- A call under way comes to its next handle, which it resumes unless it is done; another call pops
-- its batch under the mutex.
pub process_ready_queue : Manager → ℕ → Manager
unfolding with_batch next_popped
process_ready_queue m call = elim (next_popped call m.resuming) [
  | some (h, rest) ↦ record m { resuming = rest; taken = m.taken ++ h ∷ [] }
  | none ↦ record m {
    ready_queue = drop batch_size m.ready_queue;
    resuming = with_batch call (take batch_size m.ready_queue) m.resuming;
  }
]

pub schedule_destroy : Manager → ℕ → Manager
schedule_destroy m handle = if handle == 0 then m else record m {
  destroy_queue = m.destroy_queue ++ handle ∷ [];
  abandoned = m.abandoned ++ handle ∷ [];
}

-- A call under way destroys its next frame, whose locals may abandon others before the call goes
-- on; another call pops its batch under the mutex.
pub process_pending_tasks : Manager → ℕ → Manager
unfolding with_batch next_popped
process_pending_tasks m call = elim (next_popped call m.destroying) [
  | some (h, rest) ↦ record m { destroying = rest; destroyed = m.destroyed ++ h ∷ [] }
  | none ↦ record m {
    destroy_queue = drop batch_size m.destroy_queue;
    destroying = with_batch call (take batch_size m.destroy_queue) m.destroying;
  }
]

-- The flag is set under the mutex of the timers.
pub stop_timer_thread : Manager → Manager
stop_timer_thread m = record m { timer_thread_stop = true }

-- The timer thread: it takes all that is due, then leaves out what is cancelled, then hands the rest on.
pub expire : ℕ → Manager → ℕ → Manager
unfolding pop_top
expire zero m now = m
expire (suc fuel) m now = elim (pop_top m.timer_queue) [
  | none ↦ m
  | some (e, rest) ↦
      let later =
        expire fuel (record m { timer_queue = rest; expired = m.expired ++ e ∷ []; now = now })
          now in
      if ltb now e.when then m else later
]

pub filter_first : Manager → TimerEntry → List TimerEntry → Manager
filter_first m e rest =
    if has e.timer_id m.cancelled_timers
    then record m {
      expired = rest;
      cancelled_timers = erased e.timer_id m.cancelled_timers;
      dropped = e.timer_id ∷ m.dropped;
    }
    else record m {
      expired = rest;
      to_resume = m.to_resume ++ e.handle ∷ [];
      fired = record { entry = e; at = m.now } ∷ m.fired;
    }

pub filter_expired : List TimerEntry → Manager → Manager
unfolding filter_first
filter_expired [] m = m
filter_expired (e ∷ es) m = filter_expired es (filter_first m e es)

pub hand_on : Manager → List ℕ → Manager
hand_on m [] = m
hand_on m (h ∷ hs) = record m {
  to_resume = hs;
  scheduled = if h == 0 then m.scheduled else m.scheduled ++ h ∷ [];
}

pub take_due : Manager → ℕ → Manager
unfolding expire
take_due m now = if m.timer_thread_stop then m else expire (length m.timer_queue) m now

abbrev pub is_empty {ℓ} : {A : Type ℓ} → List A → Bool
is_empty [] = true
is_empty (x ∷ xs) = false

pub timer_thread_step : Manager → ℕ → Manager
unfolding filter_expired hand_on take_due
timer_thread_step m now =
    if not (is_empty m.to_resume)
    then hand_on m m.to_resume
    else if not (is_empty m.expired)
    then filter_expired m.expired m
    else take_due m now

pub data Event : Type 0 where
  adds : (when handle : ℕ) → Event
  adds_enhanced : (when handle : ℕ) → Event
  cancels : (id : ℕ) → Event
  processes_timers : (now : ℕ) → (done : ℕ → Bool) → Event
  processes_ready : (call : ℕ) → Event
  abandons : (handle : ℕ) → Event
  processes_pending : (call : ℕ) → Event
  timer_thread : (now : ℕ) → Event
  stops : Event

pub step : Manager → Event → Manager
unfolding add_timer add_timer_enhanced cancel_timer process_timer_queue process_ready_queue
    schedule_destroy process_pending_tasks timer_thread_step stop_timer_thread
step m (adds when handle) = (add_timer m when handle).1
step m (adds_enhanced when handle) = (add_timer_enhanced m when handle).1
step m (cancels id) = cancel_timer m id
step m (processes_timers now done) = process_timer_queue m now done
step m (processes_ready call) = process_ready_queue m call
step m (abandons handle) = schedule_destroy m handle
step m (processes_pending call) = process_pending_tasks m call
step m (timer_thread now) = timer_thread_step m now
step m stops = stop_timer_thread m

pub run : Manager → List Event → Manager
unfolding step
run m [] = m
run m (e ∷ es) = run (step m e) es
