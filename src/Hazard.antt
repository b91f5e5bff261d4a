-- ===== src/Hazard.antt =====
-- include/flowcoro/hazard_pointer.h together with its client `Stack` of include/flowcoro/lockfree.h, in
-- memory that is used again: a node is the address of its block, 0 for `nullptr`. Each atomic operation is a
-- step, and the steps of all threads interleave in any order.
pub mod Lists
pub mod Nodes
pub mod Publishing
pub mod Scans
pub mod Steps
pub mod Safety
pub mod Pending
pub mod Drain
mod Tests
use flowcoro.Base.{
  ℕ, zero, suc, ◌+◌, ◌*◌, ◌%◌, min, Bool, true, false, not, ◌&&◌, List, [], ◌∷◌, ◌++◌, ◌==◌, ltb,
  length, drop, has, if◌then◌else◌, update,
}

abbrev pub slots_per_thread : ℕ
slots_per_thread = 2

abbrev pub max_threads : ℕ
max_threads = 128

-- `RETIRE_THRESHOLD_FACTOR * HAZARD_SLOTS_PER_THREAD * MAX_HAZARD_THREADS`.
abbrev pub threshold : ℕ
threshold = 4 * slots_per_thread * max_threads

-- Where a block is; the program reads of it only whether the allocator may give it out.
pub data Status : Type 0 where
  is_free : Status
  is_owned : ℕ → Status  -- made by a push that has not published it
  is_linked : Status
  is_taken : ℕ → Status  -- popped by a thread that has not retired it
  is_retired : ℕ → Status

-- A thread, by the operation that comes next; `p` is the pointer that its guard holds.
pub data Client : Type 0 where
  is_idle : Client
  loads_head : (a : ℕ) → Client
  publishes : (a h : ℕ) → Client
  begins_pop : (p : ℕ) → Client
  protects : (h : ℕ) → Client
  confirms : (h : ℕ) → Client
  loads_next : (h : ℕ) → Client
  swings : (h n : ℕ) → Client
  retires : (h : ℕ) → Client
  counts : (p : ℕ) → Client
  scans : (p n k : ℕ) (found : List ℕ) → Client
  releases : (p : ℕ) → Client

pub record State : Type 0 where
  pub registered : ℕ  -- `next_thread_id_`
  pub hazard : ℕ → ℕ  -- slot `s` of record `t` is number `2 * t + s`
  pub retired : ℕ → List ℕ
  pub head : ℕ
  pub next : ℕ → ℕ
  pub thread : ℕ → Client
  pub status : ℕ → Status
  pub chain : List ℕ  -- what pushes and pops make of a list of blocks; read by no step

pub init : State
init = record {
  registered = 0;
  hazard = λ _. 0;
  retired = λ _. [];
  head = 0;
  next = λ _. 0;
  thread = λ _. is_idle;
  status = λ _. is_free;
  chain = [];
}

abbrev pub goes : State → ℕ → Client → State
goes s c k = record s { thread = update s.thread c k }

abbrev pub available : Status → Bool
available is_free = true
available _ = false

pub data Call : Type 0 where
  push : (a : ℕ) → Call  -- with the block that the allocator gives
  pop : Call
  drain_current_thread : Call

abbrev pub idle : Client → Bool
idle is_idle = true
idle _ = false

pub begin_call : State → ℕ → Call → State
begin_call s c (push a) =
    if available (s.status a) && not (a == 0)
    then goes (record s { status = update s.status a (is_owned c) }) c (loads_head a)
    else s
begin_call s c pop = goes s c (begins_pop 0)
begin_call s c drain_current_thread = goes s c (counts 0)

-- `still_hazardous`: the retired nodes that the snapshot has.
abbrev pub kept : List ℕ → List ℕ → List ℕ
kept found [] = []
kept found (a ∷ bs) = if has a found then a ∷ kept found bs else kept found bs

-- The blocks of the other retired nodes go back to the allocator.
abbrev pub reclaimed : (ℕ → Status) → List ℕ → List ℕ → ℕ → Status
reclaimed status retired found a = if has a retired && not (has a found) then is_free else status a

abbrev pub is_nil : List ℕ → Bool
is_nil [] = true
is_nil (a ∷ bs) = false

-- `scan`: a load of each slot of the registered threads, then the walk over the retired nodes.
pub scan_step : State → ℕ → ℕ → ℕ → ℕ → ℕ → List ℕ → State
scan_step s c i p n k found =
    if ltb k (slots_per_thread * min n max_threads)
    then goes s c (scans p n (suc k) (if s.hazard k == 0 then found else s.hazard k ∷ found))
    else goes
        (record s {
          retired = update s.retired i (kept found (s.retired i));
          status = reclaimed s.status (s.retired i) found;
        })
        c (releases p)

-- `retire`, up to the test of the threshold.
pub retire_step : State → ℕ → ℕ → ℕ → State
retire_step s c i h =
    goes
      (record s {
        retired = update s.retired i (s.retired i ++ h ∷ []);
        status = update s.status h (is_retired i);
      })
      c (if ltb threshold (length (s.retired i ++ h ∷ [])) then counts h else releases h)

-- The weak exchange of `push`, and that of `pop`; either may fail for no reason (`spurious`).
pub publish_step : State → ℕ → Bool → ℕ → ℕ → State
publish_step s c spurious a h =
    if (s.head == h) && not spurious
    then goes
        (record s {
          head = a;
          next = update s.next a h;
          status = update s.status a is_linked;
          chain = a ∷ s.chain;
        })
        c is_idle
    else goes (record s { next = update s.next a h }) c (publishes a s.head)

pub swing_step : State → ℕ → Bool → ℕ → ℕ → State
swing_step s c spurious h n =
    if (s.head == h) && not spurious
    then goes
        (record s { head = n; status = update s.status h (is_taken c); chain = drop 1 s.chain }) c
        (retires h)
    else goes s c (begins_pop h)

abbrev pub set_hazard : State → ℕ → ℕ → State
set_hazard s i h = record s { hazard = update s.hazard (slots_per_thread * i) h }

abbrev pub clear_hazard : State → ℕ → State
clear_hazard s i = record s { hazard = update s.hazard (slots_per_thread * i) 0 }

-- The next operation of thread `c`, whose record is number `i`.
pub atomic_step : State → ℕ → ℕ → Bool → Client → State
unfolding scan_step retire_step publish_step swing_step
atomic_step s c i spurious is_idle = s
atomic_step s c i spurious (loads_head a) = goes s c (publishes a s.head)
atomic_step s c i spurious (publishes a h) = publish_step s c spurious a h
atomic_step s c i spurious (begins_pop p) =
    goes s c (if s.head == 0 then releases p else protects s.head)
atomic_step s c i spurious (protects h) = goes (set_hazard s i h) c (confirms h)
atomic_step s c i spurious (confirms h) =
    goes s c (if s.head == h then loads_next h else begins_pop h)
atomic_step s c i spurious (loads_next h) = goes s c (swings h (s.next h))
atomic_step s c i spurious (swings h n) = swing_step s c spurious h n
atomic_step s c i spurious (retires h) = retire_step s c i h
atomic_step s c i spurious (counts p) =
    goes s c (if is_nil (s.retired i) then releases p else scans p s.registered 0 [])
atomic_step s c i spurious (scans p n k found) = scan_step s c i p n k found
atomic_step s c i spurious (releases p) =
    if p == 0 then goes s c is_idle else goes (clear_hazard s i) c is_idle

-- `register_thread_impl`: threads are numbered bs they register, and share records from the 129th on.
abbrev pub thread_id : ℕ → ℕ
thread_id c = c % max_threads

pub data Event : Type 0 where
  registers : Event
  begins : (c : ℕ) → Call → Event
  runs : (c : ℕ) → (spurious : Bool) → Event

pub step : State → Event → State
unfolding begin_call atomic_step
step s registers = record s { registered = suc s.registered }
step s (begins c call) = if ltb c s.registered && idle (s.thread c) then begin_call s c call else s
step s (runs c spurious) =
    if ltb c s.registered then atomic_step s c (thread_id c) spurious (s.thread c) else s

pub run : State → List Event → State
unfolding step
run s [] = s
run s (e ∷ es) = run (step s e) es

abbrev pub pending_below : (ℕ → List ℕ) → ℕ → ℕ
pending_below retired zero = 0
pending_below retired (suc t) = pending_below retired t + length (retired t)

pub pending_retired_count : State → ℕ
pending_retired_count s = pending_below s.retired (min s.registered max_threads)
