-- ===== src/Manager/Cancels.antt =====
-- A timer that is cancelled in time.
use flowcoro.Base.{
  ℕ, suc, ◌+◌, ◌≡◌, ◌≤◌, ◌<◌, refl, Bool, true, false, List, [], ◌∷◌, ◌==◌, length, has,
  occurrences, word, arith, Bool-cases, inl, inr,
}
use mathlib.Core.Path.{subst}
use flowcoro.Manager.{
  TimerEntry, Manager, init, add_timer, cancel_timer, erased, inserted, dispatch, is_wanted,
  filter_first, Event, cancels, step, run,
}
use flowcoro.Manager.Heap.{ids, occurrences-append_one}
use flowcoro.Manager.Keeps.{Kept, run_keeps, step_keeps, step-generator, run-generator}
use flowcoro.Manager.Timers.{
  fired_ids, pending, IsSound, IsSound-Kept, add_timer-IsSound, run-init-IsSound,
}

pub has-erased : (i j : ℕ) (xs : List ℕ) → (j == i) ≡ false → has i (erased j xs) ≡ has i xs
has-erased i j [] e = refl
has-erased i j (x ∷ xs) e = ground (arith, has-erased i j xs e)

-- A timer that is waiting is marked, and it has not fired.
record IsCancelled (id : ℕ) (m : Manager) : Type 0 where
  pub some_id : 0 < id
  pub known : id < m.timer_id_generator
  pub quiet : occurrences id (fired_ids m.fired) ≡ 0
  pub marked : 0 < pending m id → has id m.cancelled_timers ≡ true

dispatch-IsCancelled :
    (id : ℕ) (m : Manager) (now : ℕ) (done : ℕ → Bool) (e : TimerEntry) (rest : List TimerEntry)
    → ((i : ℕ) → occurrences i (ids m.timer_queue) ≡ occurrences i (e.timer_id ∷ ids rest))
    → IsSound m
    → IsCancelled id m
    → IsCancelled id (dispatch m now done e rest)
unfolding dispatch
dispatch-IsCancelled id m now done e rest same s v = elim (Bool-cases (is_wanted m done e)) [
  | inl w ↦ rw w record {
    some_id = v.some_id;
    known = v.known;
    quiet = ground (arith, v.quiet, v.marked, same id, w);
    marked = λ p. v.marked (omega (arith, same id, p));
  }
  | inr w ↦ rw w record {
    some_id = v.some_id;
    known = v.known;
    quiet = v.quiet;
    marked = λ p. ground (
      arith,
      v.marked,
      p,
      same id,
      s.counted id v.some_id v.known,
      has-erased id e.timer_id m.cancelled_timers,
    );
  }
]

filter_first-IsCancelled :
    (id : ℕ) (m : Manager) (e : TimerEntry) (rest : List TimerEntry)
    → m.expired ≡ e ∷ rest
    → IsSound m
    → IsCancelled id m
    → IsCancelled id (filter_first m e rest)
unfolding filter_first
filter_first-IsCancelled id m e rest at s v =
    let same : occurrences id (ids m.expired) ≡ occurrences id (ids (e ∷ rest)) = rw at refl in
    elim (Bool-cases (has e.timer_id m.cancelled_timers)) [
      | inl w ↦ rw w record {
        some_id = v.some_id;
        known = v.known;
        quiet = v.quiet;
        marked = λ p. ground (
          arith,
          v.marked,
          p,
          same,
          s.counted id v.some_id v.known,
          has-erased id e.timer_id m.cancelled_timers,
        );
      }
      | inr w ↦ rw w record {
        some_id = v.some_id;
        known = v.known;
        quiet = ground (arith, v.quiet, v.marked, same, w);
        marked = λ p. v.marked (omega (arith, same, p));
      }
    ]

add_timer-IsCancelled :
    (id : ℕ) (m : Manager) (when handle : ℕ)
    → suc m.timer_id_generator < word
    → IsCancelled id m
    → IsCancelled id (add_timer m when handle).1
unfolding add_timer
add_timer-IsCancelled id m when handle few v = record {
  some_id = v.some_id;
  known = omega (arith, v.known, few);
  quiet = v.quiet;
  marked = λ p. ground (arith, v.marked, p, v.known);
}

IsCancelled-Kept : (id : ℕ) → Kept (λ m. IsSound m × IsCancelled id m)
IsCancelled-Kept id = record {
  by_cancel = λ m i (s, v). (
    IsSound-Kept.by_cancel m i s,
    record {
      some_id = v.some_id;
      known = v.known;
      quiet = v.quiet;
      marked = λ p. ground (arith, v.marked p);
    },
  );
  by_dispatch = λ m now done e rest same come (s, v). (
    IsSound-Kept.by_dispatch m now done e rest same come s,
    dispatch-IsCancelled id m now done e rest same s v,
  );
  by_expiry = λ m now e rest same come due (s, v). (
    IsSound-Kept.by_expiry m now e rest same come due s,
    record {
      some_id = v.some_id;
      known = v.known;
      quiet = v.quiet;
      marked = λ p. v.marked (omega (arith, p, same id, occurrences-append_one id e m.expired));
    },
  );
  by_filter = λ m e rest at (s, v).
      (IsSound-Kept.by_filter m e rest at s, filter_first-IsCancelled id m e rest at s v);
  by_rest = λ m r q x c f d g n (s, v). (
    IsSound-Kept.by_rest m r q x c f d g n s,
    record {
      some_id = v.some_id;
      known = rw g v.known;
      quiet = rw f v.quiet;
      marked = λ p. rw c (v.marked (rw (← q, ← x) p));
    },
  );
}

pub cancels_one :
    (m : Manager) (id : ℕ)
    → 0 < id
    → record m { cancelled_timers = inserted id m.cancelled_timers } ≡ step m (cancels id)
unfolding step cancel_timer
cancels_one m id a = let some_id : (id == 0) ≡ false = ground (arith, a) in rw some_id refl

-- What holds of any timer once it has been cancelled.
pub after_cancel :
    (P : Manager → Type 0)
    → Kept (λ m. IsSound m × P m)
    → ((m : Manager) (when handle : ℕ)
        → suc m.timer_id_generator < word
        → P m
        → P (add_timer m when handle).1)
    → (es fs : List Event) (id : ℕ) → suc (length es) + suc (length fs) < word
    → P (step (run init es) (cancels id))
    → P (run (run init es) (cancels id ∷ fs))
unfolding init run
after_cancel P k adding es fs id few p =
    let m = run init es in
    let s = run-init-IsSound es (omega (arith, few)) in
    let up : (run init es).timer_id_generator ≤ suc (length es) =
      omega (arith, run-generator es init (omega (arith, few))) in
    let least : m.timer_id_generator + suc (length fs) < word = omega (arith, up, few) in
    let step_up = step-generator m (cancels id) (omega (arith, least)) in
    let sound =
      step_keeps IsSound IsSound-Kept m (cancels id)
        (λ when handle. add_timer-IsSound m when handle (omega (arith, least)) s) s in
    (run_keeps (λ m. IsSound m × P m) k
      (λ m when handle f (s, v). (add_timer-IsSound m when handle f s, adding m when handle f v)) fs
      (step m (cancels id)) (omega (arith, least, step_up)) (sound, p)).1

-- A timer that is cancelled while it waits in the queue, or after the timer thread has taken it
-- out but not yet looked at the cancelled ones, never fires, whatever follows, in a history
-- shorter than `2 ^ 64 - 2` in all.
pub cancelled_never_fires :
    (es fs : List Event) (id : ℕ)
    → suc (length es) + suc (length fs) < word
    → let m = run init es in
      0 < id
      → id < m.timer_id_generator
      → 0 < pending m id
      → occurrences id (fired_ids (run m (cancels id ∷ fs)).fired) ≡ 0
cancelled_never_fires es fs id few a b waiting =
    let m = run init es in
    let s = run-init-IsSound es (omega (arith, few)) in
    (after_cancel (IsCancelled id) (IsCancelled-Kept id) (add_timer-IsCancelled id) es fs id few (
      subst (IsCancelled id) (cancels_one m id a) record {
        some_id = a;
        known = b;
        quiet = omega (arith, s.counted id a b, waiting);
        marked = λ p. ground arith;
      })).quiet
