-- ===== src/Manager/Late.antt =====
-- A timer that is cancelled too late.
use flowcoro.Base.{
  ℕ, suc, ◌+◌, ◌≡◌, ◌<◌, refl, Bool, true, List, ◌∷◌, length, has, occurrences, word, arith,
  Bool-cases, inl, inr,
}
use mathlib.Core.Path.{subst}
use flowcoro.Manager.{
  TimerEntry, Manager, init, add_timer, dispatch, is_wanted, filter_first, Event, cancels, run,
}
use flowcoro.Manager.Heap.{ids, occurrences-append_one}
use flowcoro.Manager.Keeps.{Kept}
use flowcoro.Manager.Timers.{pending, IsSound, IsSound-Kept}
use flowcoro.Manager.Cancels.{has-erased, cancels_one, after_cancel}

-- A timer that is not waiting any more, and is marked.
record IsLate (id : ℕ) (m : Manager) : Type 0 where
  pub known : id < m.timer_id_generator
  pub gone : pending m id ≡ 0
  pub marked : has id m.cancelled_timers ≡ true

dispatch-IsLate :
    (id : ℕ) (m : Manager) (now : ℕ) (done : ℕ → Bool) (e : TimerEntry) (rest : List TimerEntry)
    → ((i : ℕ) → occurrences i (ids m.timer_queue) ≡ occurrences i (e.timer_id ∷ ids rest))
    → IsLate id m
    → IsLate id (dispatch m now done e rest)
unfolding dispatch
dispatch-IsLate id m now done e rest same v = elim (Bool-cases (is_wanted m done e)) [
  | inl w ↦
      rw w record { known = v.known; gone = omega (arith, v.gone, same id); marked = v.marked }
  | inr w ↦ rw w record {
    known = v.known;
    gone = omega (arith, v.gone, same id);
    marked = ground (arith, v.marked, v.gone, same id, has-erased id e.timer_id m.cancelled_timers);
  }
]

filter_first-IsLate :
    (id : ℕ) (m : Manager) (e : TimerEntry) (rest : List TimerEntry)
    → m.expired ≡ e ∷ rest
    → IsLate id m
    → IsLate id (filter_first m e rest)
unfolding filter_first
filter_first-IsLate id m e rest at v =
    let same : occurrences id (ids m.expired) ≡ occurrences id (ids (e ∷ rest)) = rw at refl in
    elim (Bool-cases (has e.timer_id m.cancelled_timers)) [
      | inl w ↦ rw w record {
        known = v.known;
        gone = omega (arith, v.gone, same);
        marked =
            ground (arith, v.marked, v.gone, same, has-erased id e.timer_id m.cancelled_timers);
      }
      | inr w ↦
          rw w record { known = v.known; gone = omega (arith, v.gone, same); marked = v.marked }
    ]

IsLate-Kept : (id : ℕ) → Kept (λ m. IsSound m × IsLate id m)
IsLate-Kept id = record {
  by_cancel = λ m i (s, v). (
    IsSound-Kept.by_cancel m i s,
    record { known = v.known; gone = v.gone; marked = ground (arith, v.marked) },
  );
  by_dispatch = λ m now done e rest same come (s, v). (
    IsSound-Kept.by_dispatch m now done e rest same come s,
    dispatch-IsLate id m now done e rest same v,
  );
  by_expiry = λ m now e rest same come due (s, v). (
    IsSound-Kept.by_expiry m now e rest same come due s,
    record {
      known = v.known;
      gone = omega (arith, v.gone, same id, occurrences-append_one id e m.expired);
      marked = v.marked;
    },
  );
  by_filter = λ m e rest at (s, v).
      (IsSound-Kept.by_filter m e rest at s, filter_first-IsLate id m e rest at v);
  by_rest = λ m r q x c f d g n (s, v). (
    IsSound-Kept.by_rest m r q x c f d g n s,
    record { known = rw g v.known; gone = rw (q, x) v.gone; marked = rw c v.marked },
  );
}

add_timer-IsLate :
    (id : ℕ) (m : Manager) (when handle : ℕ)
    → suc m.timer_id_generator < word
    → IsLate id m
    → IsLate id (add_timer m when handle).1
unfolding add_timer
add_timer-IsLate id m when handle few v = record {
  known = omega (arith, v.known, few);
  gone = ground (arith, v.gone, v.known);
  marked = v.marked;
}

-- The id of a timer that is cancelled after it has fired or was dropped stays in the set of
-- cancelled ids whatever follows, in a history shorter than `2 ^ 64 - 2` in all.
pub late_cancel_stays :
    (es fs : List Event) (id : ℕ)
    → suc (length es) + suc (length fs) < word
    → let m = run init es in
      0 < id
      → id < m.timer_id_generator
      → pending m id ≡ 0
      → has id (run m (cancels id ∷ fs)).cancelled_timers ≡ true
late_cancel_stays es fs id few a b gone =
    let m = run init es in
    (after_cancel (IsLate id) (IsLate-Kept id) (add_timer-IsLate id) es fs id few (
      subst (IsLate id) (cancels_one m id a)
        record { known = b; gone = gone; marked = ground arith })).marked
