-- ===== src/Executor/Ticks.antt =====
-- One tick of the executor: which tasks it touches, and where they are afterwards.
use flowcoro.Base.{
  ℕ, ◌+◌, ◌%◌, ◌≡◌, ap, sym, ◌∙◌, Bool, true, false, List, [], ◌∷◌, ◌++◌, length, if◌then◌else◌,
  arith, occurrences, occurrences-append, word, Bool-cases, inl, inr,
}
use flowcoro.Executor.{
  Timer, Action, Executor, due, handles, process_timers, suspend, touch, touch_all, run,
}
use flowcoro.Executor.Timers.{due-Fired}
use flowcoro.Executor.Places.{
  IsPlaced, IsSound, resumes_at, suspend-IsPlaced, destroy-IsPlaced, suspend_keeps, one_fewer,
  moved-IsPlaced,
}

pub process_timers-IsSound :
    (e : Executor) (now : ℕ) → IsSound e [] → IsSound (process_timers e now) []
unfolding process_timers
process_timers-IsSound e now v = by_flag e.stop_flag
  where
    fired : List Timer
    fired = (due (length e.timers) now e.timers).0

    rest : List Timer
    rest = (due (length e.timers) now e.timers).1

    same :
        (i : ℕ)
        → occurrences i (handles e.timers)
          ≡ occurrences i (handles fired) + occurrences i (handles rest)
    same = (due-Fired (length e.timers) now e.timers (omega arith)).same

    due_moved : Executor
    due_moved = record e { local_ready = e.local_ready ++ handles fired; timers = rest }

    all_moved : Executor
    all_moved = record e {
      local_ready = (e.local_ready ++ handles fired) ++ handles rest;
      timers = [];
    }

    due_placed : (i : ℕ) → IsPlaced due_moved [] i
    due_placed i = moved-IsPlaced e (handles fired) rest i (same i) (v.each i)

    all_placed : (i : ℕ) → IsPlaced all_moved [] i
    all_placed i = moved-IsPlaced due_moved (handles rest) [] i (omega arith) (due_placed i)

    by_flag : (b : Bool) → IsSound (if b then all_moved else due_moved) []
    by_flag true = record { each = all_placed; counted = v.counted }
    by_flag false = record { each = due_placed; counted = v.counted }

begin-IsSound :
    (e : Executor)
    → IsSound e []
    → IsSound (record e { local_ready = []; ready_ext = [] }) (e.local_ready ++ e.ready_ext)
begin-IsSound e v = record {
  each = λ i. record {
    placed = ground (arith, (v.each i).placed, occurrences-append i e.local_ready e.ready_ext);
    unmade = ground (arith, (v.each i).unmade, occurrences-append i e.local_ready e.ready_ext);
    listed = (v.each i).listed;
    parked = λ h. ground (
      arith,
      (v.each i).placed,
      (v.each i).unmade,
      (v.each i).parked,
      occurrences-append i e.local_ready e.ready_ext,
    );
    clean = (v.each i).clean;
  };
  counted = v.counted;
}

module _ (acts : ℕ → ℕ → Action) where
  touch-IsSound :
      (e : Executor) (h : ℕ) (hs : List ℕ) → IsSound e (h ∷ hs) → IsSound (touch acts e h) hs
  unfolding touch
  touch-IsSound e h hs v = elim (Bool-cases (e.is_done h)) [
    | inl over ↦
        rw (over, touch)
          record {
            each = λ i. destroy-IsPlaced e h hs i (v.each h) (v.each i);
            counted = one_fewer e h hs v;
          }
    | inr live ↦
        rw (live, touch)
          record {
            each = λ i. suspend-IsPlaced (acts h (e.resumes h)) e h hs i live (v.each h) (v.each i);
            counted = by_action (suspend_keeps (acts h (e.resumes h)) (resumes_at e h) h);
          }
  ]
    where
      by_action :
          ((suspend (acts h (e.resumes h)) (resumes_at e h) h).active_count ≡ e.active_count)
            × ((suspend (acts h (e.resumes h)) (resumes_at e h) h).task_list ≡ e.task_list)
          → (suspend (acts h (e.resumes h)) (resumes_at e h) h).active_count
            ≡ length (suspend (acts h (e.resumes h)) (resumes_at e h) h).task_list % word
      by_action (a, l) = a ∙ v.counted ∙ ap (λ xs. length xs % word) (sym l)

  touch_all-IsSound : (hs : List ℕ) (e : Executor) → IsSound e hs → IsSound (touch_all acts e hs) []
  unfolding touch_all
  touch_all-IsSound [] e v = v
  touch_all-IsSound (h ∷ hs) e v = touch_all-IsSound hs (touch acts e h) (touch-IsSound e h hs v)

  pub run-IsSound : (e : Executor) (now : ℕ) → IsSound e [] → IsSound (run acts e now) []
  unfolding run
  run-IsSound e now v =
      let p = process_timers e now in
      touch_all-IsSound (p.local_ready ++ p.ready_ext)
        (record p { local_ready = []; ready_ext = [] })
        (begin-IsSound p (process_timers-IsSound e now v))
