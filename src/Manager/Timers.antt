-- ===== src/Manager/Timers.antt =====
-- Where each timer is: in the queue, with the timer thread, fired or dropped.
use flowcoro.Base.{
  ℕ, suc, ◌+◌, ◌≡◌, ◌≤◌, ◌<◌, refl, Bool, true, ◌&&◌, List, [], ◌∷◌, leb, length, has, occurrences,
  word, add64, arith, Bool-cases, inl, inr,
}
use mathlib.Core.Path.{subst}
use flowcoro.Manager.{
  TimerEntry, Fired, Manager, init, add_timer, dispatch, is_wanted, filter_first, Event, run,
}
use flowcoro.Manager.Heap.{ids, all_by, all_by-append_one, occurrences-append_one}
use flowcoro.Manager.Keeps.{Kept, run_keeps}

abbrev pub fired_ids : List Fired → List ℕ
fired_ids [] = []
fired_ids (f ∷ fs) = f.entry.timer_id ∷ fired_ids fs

-- Whether every timer fired at its time or later.
abbrev pub on_time : List Fired → Bool
on_time [] = true
on_time (f ∷ fs) = leb f.entry.when f.at && on_time fs

abbrev pub pending : Manager → ℕ → ℕ
pending m id = occurrences id (ids m.timer_queue) + occurrences id (ids m.expired)

abbrev pub settled : Manager → ℕ → ℕ
settled m id = occurrences id (fired_ids m.fired) + occurrences id m.dropped

pub record IsSound (m : Manager) : Type 0 where
  pub counted : (id : ℕ) → 0 < id → id < m.timer_id_generator → pending m id + settled m id ≡ 1
  pub unknown : (id : ℕ) → m.timer_id_generator ≤ id → pending m id + settled m id ≡ 0
  pub nonzero : 0 < m.timer_id_generator
  pub punctual : on_time m.fired ≡ true
  pub due : all_by m.now m.expired ≡ true

dispatch-IsSound :
    (m : Manager) (now : ℕ) (done : ℕ → Bool) (e : TimerEntry) (rest : List TimerEntry)
    → ((i : ℕ) → occurrences i (ids m.timer_queue) ≡ occurrences i (e.timer_id ∷ ids rest))
    → e.when ≤ now
    → IsSound m
    → IsSound (dispatch m now done e rest)
unfolding dispatch
dispatch-IsSound m now done e rest same come v = elim (Bool-cases (is_wanted m done e)) [
  | inl w ↦ rw w record {
    counted = λ i a b. omega (arith, v.counted i a b, same i);
    unknown = λ i a. omega (arith, v.unknown i a, same i);
    nonzero = v.nonzero;
    punctual = ground (arith, v.punctual, come);
    due = v.due;
  }
  | inr w ↦ rw w record {
    counted = λ i a b. omega (arith, v.counted i a b, same i);
    unknown = λ i a. omega (arith, v.unknown i a, same i);
    nonzero = v.nonzero;
    punctual = v.punctual;
    due = v.due;
  }
]

filter_first-IsSound :
    (m : Manager) (e : TimerEntry) (rest : List TimerEntry)
    → m.expired ≡ e ∷ rest
    → IsSound m
    → IsSound (filter_first m e rest)
unfolding filter_first
filter_first-IsSound m e rest at v =
    let due : all_by m.now (e ∷ rest) ≡ true = subst (λ xs. all_by m.now xs ≡ true) at v.due in
    let same : (i : ℕ) → occurrences i (ids m.expired) ≡ occurrences i (ids (e ∷ rest)) =
      λ i. rw at refl in
    elim (Bool-cases (has e.timer_id m.cancelled_timers)) [
      | inl w ↦ rw w record {
        counted = λ i a b. omega (arith, v.counted i a b, same i);
        unknown = λ i a. omega (arith, v.unknown i a, same i);
        nonzero = v.nonzero;
        punctual = v.punctual;
        due = ground (arith, due);
      }
      | inr w ↦ rw w record {
        counted = λ i a b. omega (arith, v.counted i a b, same i);
        unknown = λ i a. omega (arith, v.unknown i a, same i);
        nonzero = v.nonzero;
        punctual = ground (arith, v.punctual, due);
        due = ground (arith, due);
      }
    ]

pub IsSound-Kept : Kept IsSound
IsSound-Kept = record {
  by_cancel = λ m id v. record {
    counted = v.counted;
    unknown = v.unknown;
    nonzero = v.nonzero;
    punctual = v.punctual;
    due = v.due;
  };
  by_dispatch = dispatch-IsSound;
  by_expiry = λ m now e rest same come due v. record {
    counted = λ i a b. omega (arith, v.counted i a b, same i, occurrences-append_one i e m.expired);
    unknown = λ i a. omega (arith, v.unknown i a, same i, occurrences-append_one i e m.expired);
    nonzero = v.nonzero;
    punctual = v.punctual;
    due = all_by-append_one now e m.expired due come;
  };
  by_filter = filter_first-IsSound;
  by_rest = λ m r q x c f d g n v. record {
    counted = λ i a b. rw (q, x, f, d) (v.counted i a (rw (← g) b));
    unknown = λ i a. rw (q, x, f, d) (v.unknown i (rw (← g) a));
    nonzero = rw g v.nonzero;
    punctual = rw f v.punctual;
    due = rw (n, x) v.due;
  };
}

pub add_timer-IsSound :
    (m : Manager) (when handle : ℕ)
    → suc m.timer_id_generator < word
    → IsSound m
    → IsSound (add_timer m when handle).1
unfolding add_timer
add_timer-IsSound m when handle few v =
    let next : add64 m.timer_id_generator 1 ≡ suc m.timer_id_generator = omega (arith, few) in
    rw next record {
      counted = λ i a b. ground (arith, v.counted i a, v.unknown i, b);
      unknown = λ i a. ground (arith, v.unknown i, a);
      nonzero = omega arith;
      punctual = v.punctual;
      due = v.due;
    }

pub run-init-IsSound : (es : List Event) → suc (length es) < word → IsSound (run init es)
unfolding init
run-init-IsSound es few =
    run_keeps IsSound IsSound-Kept add_timer-IsSound es init (omega (arith, few)) record {
      counted = λ id a b. absurd (omega (arith, a, b));
      unknown = λ id a. refl;
      nonzero = omega arith;
      punctual = refl;
      due = refl;
    }

-- After any history shorter than `2 ^ 64 - 1` of a new manager, whoever drives it: a timer that
-- was given out is in one place, once: in the queue, taken out by the timer thread, fired, or
-- dropped; and no timer fired at a time before its own.
pub timer_accounted :
    (es : List Event) (id : ℕ)
    → suc (length es) < word
    → let m = run init es in
      0 < id
      → id < m.timer_id_generator
      → (pending m id + settled m id ≡ 1) × (on_time m.fired ≡ true)
timer_accounted es id few a b = let v = run-init-IsSound es few in (v.counted id a b, v.punctual)
