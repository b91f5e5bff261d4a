-- ===== src/Executor/Places.antt =====
-- Where each task is, and what may be done to its frame.
use flowcoro.Base.{
  ℕ, suc, ◌+◌, ◌-◌, ◌%◌, ◌≤◌, ◌<◌, ◌≡◌, refl, Bool, true, false, ◌&&◌, List, [], ◌∷◌, ◌++◌, length,
  ◌==◌, if◌then◌else◌, arith, occurrences, occurrences-append, word, sub64, update,
}
use flowcoro.Executor.{
  Timer, Action, yields, sleeps, waits, finishes, Touch, resumed, destroyed, Executor, handles,
  unlink, suspend,
}

abbrev pub destructions : ℕ → List Touch → ℕ
destructions i [] = 0
destructions i (resumed j ∷ ts) = destructions i ts
destructions i (destroyed j ∷ ts) = (if j == i then 1 else 0) + destructions i ts

-- Nothing is done to the frame of `i` once it is destroyed.
abbrev pub is_clean : ℕ → List Touch → Bool
is_clean i [] = true
is_clean i (resumed j ∷ ts) = (if j == i then destructions i ts == 0 else true) && is_clean i ts
is_clean i (destroyed j ∷ ts) = (if j == i then destructions i ts == 0 else true) && is_clean i ts

abbrev pub one_if : Bool → ℕ
one_if true = 1
one_if false = 0

-- The queues, the timers and the events in which `i` stands.
abbrev pub places : Executor → ℕ → ℕ
places e i =
    occurrences i e.local_ready
    + occurrences i e.ready_ext
    + occurrences i (handles e.timers)
    + one_if (e.is_waiting i)

-- What holds of task `i` while `batch` is still to be gone through.
pub record IsPlaced (e : Executor) (batch : List ℕ) (i : ℕ) : Type 0 where
  pub placed : i < e.next_task → places e i + occurrences i batch + destructions i e.touches ≡ 1
  pub unmade :
      e.next_task ≤ i
      → places e i + occurrences i batch + destructions i e.touches + occurrences i e.task_list ≡ 0
  pub listed : i < e.next_task → occurrences i e.task_list + destructions i e.touches ≡ 1
  pub parked :
      e.is_done i ≡ true
      → occurrences i e.local_ready + occurrences i batch + destructions i e.touches ≡ 1
  pub clean : is_clean i e.touches ≡ true

occurrences-unlink :
    (i h : ℕ) (xs : List ℕ)
    → occurrences i (unlink h xs) ≡ occurrences i xs - (if h == i then 1 else 0)
unfolding unlink
occurrences-unlink i h [] = ground arith
occurrences-unlink i h (x ∷ xs) = ground (arith, occurrences-unlink i h xs)

length-unlink : (h : ℕ) (xs : List ℕ) → 0 < occurrences h xs → length (unlink h xs) + 1 ≡ length xs
unfolding unlink
length-unlink h [] m = absurd (omega arith)
length-unlink h (x ∷ xs) m = ground (arith, length-unlink h xs)

abbrev pub resumes_at : Executor → ℕ → Executor
resumes_at e h = record e {
  resumes = update e.resumes h (suc (e.resumes h));
  touches = resumed h ∷ e.touches;
}

abbrev pub destroys_at : Executor → ℕ → Executor
destroys_at e h = record e {
  task_list = unlink h e.task_list;
  active_count = sub64 e.active_count 1;
  touches = destroyed h ∷ e.touches;
}

-- A task is in the batch only if it has been made, and only once, and not destroyed.
batched :
    (e : Executor) (h : ℕ) (hs : List ℕ)
    → IsPlaced e (h ∷ hs) h
    → (h < e.next_task) × (destructions h e.touches ≡ 0) × (places e h ≡ 0) × (occurrences h hs ≡ 0)
batched e h hs v = ground (arith, v.placed, v.unmade)

pub suspend-IsPlaced :
    (a : Action) (e : Executor) (h : ℕ) (hs : List ℕ) (i : ℕ)
    → e.is_done h ≡ false
    → IsPlaced e (h ∷ hs) h
    → IsPlaced e (h ∷ hs) i
    → IsPlaced (suspend a (resumes_at e h) h) hs i
unfolding suspend
suspend-IsPlaced a e h hs i live w v =
    let (made, intact, nowhere, once) = batched e h hs w in by_action a made intact nowhere once
  where
    by_action :
        (a : Action)
        → h < e.next_task
        → destructions h e.touches ≡ 0
        → places e h ≡ 0
        → occurrences h hs ≡ 0
        → IsPlaced (suspend a (resumes_at e h) h) hs i
    by_action yields made intact nowhere once = record {
      placed = ground (arith, v.placed, occurrences-append i e.local_ready (h ∷ []));
      unmade = ground (arith, v.unmade, occurrences-append i e.local_ready (h ∷ []));
      listed = ground (arith, v.listed);
      parked = ground (arith, v.parked, occurrences-append i e.local_ready (h ∷ []));
      clean = ground (arith, v.clean);
    }
    by_action (sleeps d) made intact nowhere once = record {
      placed = ground (arith, v.placed);
      unmade = ground (arith, v.unmade);
      listed = ground (arith, v.listed);
      parked = ground (arith, v.parked);
      clean = ground (arith, v.clean);
    }
    by_action waits made intact nowhere once = record {
      placed = ground (arith, v.placed);
      unmade = ground (arith, v.unmade);
      listed = ground (arith, v.listed);
      parked = ground (arith, v.parked);
      clean = ground (arith, v.clean);
    }
    by_action finishes made intact nowhere once = record {
      placed = ground (arith, v.placed, occurrences-append i e.local_ready (h ∷ []));
      unmade = ground (arith, v.unmade, occurrences-append i e.local_ready (h ∷ []));
      listed = ground (arith, v.listed);
      parked = ground (arith, v.parked, occurrences-append i e.local_ready (h ∷ []));
      clean = ground (arith, v.clean);
    }

pub destroy-IsPlaced :
    (e : Executor) (h : ℕ) (hs : List ℕ) (i : ℕ)
    → IsPlaced e (h ∷ hs) h
    → IsPlaced e (h ∷ hs) i
    → IsPlaced (destroys_at e h) hs i
destroy-IsPlaced e h hs i w v =
    let (made, intact, nowhere, once) = batched e h hs w in
    record {
      placed = ground (arith, v.placed);
      unmade = ground (arith, v.unmade, occurrences-unlink i h e.task_list);
      listed = ground (arith, v.listed, occurrences-unlink i h e.task_list);
      parked = ground (arith, v.parked);
      clean = ground (arith, v.clean);
    }

-- The tasks of the executor, and its counter of them.
pub record IsSound (e : Executor) (batch : List ℕ) : Type 0 where
  pub each : (i : ℕ) → IsPlaced e batch i
  pub counted : e.active_count ≡ length e.task_list % word

pub suspend_keeps :
    (a : Action) (e : Executor) (h : ℕ)
    → ((suspend a e h).active_count ≡ e.active_count) × ((suspend a e h).task_list ≡ e.task_list)
unfolding suspend
suspend_keeps yields e h = (refl, refl)
suspend_keeps (sleeps d) e h = (refl, refl)
suspend_keeps waits e h = (refl, refl)
suspend_keeps finishes e h = (refl, refl)

pub one_fewer :
    (e : Executor) (h : ℕ) (hs : List ℕ)
    → IsSound e (h ∷ hs)
    → sub64 e.active_count 1 ≡ length (unlink h e.task_list) % word
one_fewer e h hs v =
    let (made, intact, nowhere, once) = batched e h hs (v.each h) in
    let member : 0 < occurrences h e.task_list = omega (arith, (v.each h).listed made, intact) in
    omega (arith, v.counted, length-unlink h e.task_list member)

-- Fired timers move from the timers to the queue.
pub moved-IsPlaced :
    (e : Executor) (fired : List ℕ) (rest : List Timer) (i : ℕ)
    → occurrences i (handles e.timers) ≡ occurrences i fired + occurrences i (handles rest)
    → IsPlaced e [] i
    → IsPlaced (record e { local_ready = e.local_ready ++ fired; timers = rest }) [] i
moved-IsPlaced e fired rest i same v = record {
  placed = ground (arith, v.placed, occurrences-append i e.local_ready fired);
  unmade = ground (arith, v.unmade, occurrences-append i e.local_ready fired);
  listed = v.listed;
  parked =
      λ h. ground (arith, v.placed, v.unmade, v.parked, occurrences-append i e.local_ready fired);
  clean = v.clean;
}
