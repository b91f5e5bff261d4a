-- ===== src/Scheduler/Handles.antt =====
-- What holds of the handles in every interleaving; `schedule_coroutine` keeps it.
use flowcoro.Base.{
  ℕ, suc, ◌≡◌, ◌≤◌, refl, sym, ap, ◌∙◌, Bool, true, false, not, ◌&&◌, ◌||◌, List, [], ◌∷◌, ◌++◌,
  ◌==◌, length, append_assoc, arith, Bool-cases, inl, inr,
}
use flowcoro.Scheduler.{
  Producer, is_idle, counts_total, enqueues, counts, loads_size, Worker, not_started, tests_stop,
  collects, subtracts, resumes, has_ended, Stopper, not_stopping, joins, Fate, resumed, was_skipped,
  left_at_stop, destroyed, Outcome, Scheduler, is_address, batch_limit, schedule_coroutine,
}

abbrev pub handles : List Outcome → List ℕ
handles [] = []
handles (o ∷ os) = o.handle ∷ handles os

abbrev pub is_served : Fate → Bool
is_served resumed = true
is_served was_skipped = true
is_served left_at_stop = false
is_served destroyed = false

-- No outcome comes of a stop.
abbrev pub all_served : List Outcome → Bool
all_served [] = true
all_served (o ∷ os) = is_served o.fate && all_served os

abbrev pub in_batch : Worker → List ℕ
in_batch (collects batch) = batch
in_batch (subtracts batch) = batch
in_batch (resumes left) = left
in_batch _ = []

-- A worker that has no batch.
abbrev pub is_quiet : Worker → Bool
is_quiet not_started = true
is_quiet tests_stop = true
is_quiet has_ended = true
is_quiet _ = false

abbrev pub Stopping : Bool → Worker → Stopper → Type 0
Stopping flag w not_stopping = Unit {0}
Stopping flag w joins = flag ≡ true
Stopping flag w _ = (flag ≡ true) × (is_quiet w ≡ true)

pub record IsSound (s : Scheduler) : Type 0 where
  pub in_order : handles s.outcomes ++ (in_batch s.worker ++ s.coroutine_queue) ≡ s.enqueued
  pub served : s.stop_flag ≡ false → all_served s.outcomes ≡ true
  pub stopping : Stopping s.stop_flag s.worker s.stopper
  pub room : length (in_batch s.worker) ≤ batch_limit

handles-ended :
    (os : List Outcome) (h : ℕ) (f : Fate)
    → handles (os ++ (record { handle = h; fate = f }) ∷ []) ≡ handles os ++ h ∷ []
handles-ended [] h f = refl
handles-ended (o ∷ os) h f = ap (λ ys. o.handle ∷ ys) (handles-ended os h f)

pub all_served-ended :
    (os : List Outcome) (h : ℕ) (f : Fate)
    → all_served os ≡ true
    → is_served f ≡ true
    → all_served (os ++ (record { handle = h; fate = f }) ∷ []) ≡ true
all_served-ended [] h f a b = ground (arith, b)
all_served-ended (o ∷ os) h f a b = ground (arith, a, all_served-ended os h f)

-- The first handle behind the outcomes becomes one.
pub out_in_order :
    (os : List Outcome) (h : ℕ) (f : Fate) (rest all : List ℕ)
    → handles os ++ h ∷ rest ≡ all
    → handles (os ++ (record { handle = h; fate = f }) ∷ []) ++ rest ≡ all
out_in_order os h f rest all e =
    ap (λ ys. ys ++ rest) (handles-ended os h f) ∙ append_assoc (handles os) (h ∷ []) rest ∙ e

pub length-append_one : (xs : List ℕ) (h : ℕ) → length (xs ++ h ∷ []) ≡ suc (length xs)
length-append_one [] h = refl
length-append_one (x ∷ xs) h = ground (arith, length-append_one xs h)

pub schedule_coroutine-IsSound :
    (s : Scheduler) (p h : ℕ) (done : Bool) (k : Producer)
    → IsSound s
    → IsSound (schedule_coroutine s p h done k)
unfolding schedule_coroutine
schedule_coroutine-IsSound s p h done is_idle v =
    elim (Bool-cases (h == 0 || done || s.stop_flag || not (is_address h))) [
      | inl e ↦ rw (e, schedule_coroutine) v
      | inr e ↦
          rw (e, schedule_coroutine)
            record {
              in_order = v.in_order;
              served = v.served;
              stopping = v.stopping;
              room = v.room;
            }
    ]
schedule_coroutine-IsSound s p h done (counts_total g) v = record {
  in_order = v.in_order;
  served = v.served;
  stopping = v.stopping;
  room = v.room;
}
schedule_coroutine-IsSound s p h done (enqueues g) v = record {
  in_order =
      ap (λ ys. handles s.outcomes ++ ys)
        (sym (append_assoc (in_batch s.worker) s.coroutine_queue (g ∷ [])))
      ∙ sym (append_assoc (handles s.outcomes) (in_batch s.worker ++ s.coroutine_queue) (g ∷ []))
      ∙ ap (λ ys. ys ++ g ∷ []) v.in_order;
  served = v.served;
  stopping = v.stopping;
  room = v.room;
}
schedule_coroutine-IsSound s p h done counts v = record {
  in_order = v.in_order;
  served = v.served;
  stopping = v.stopping;
  room = v.room;
}
schedule_coroutine-IsSound s p h done loads_size v = record {
  in_order = v.in_order;
  served = v.served;
  stopping = v.stopping;
  room = v.room;
}
