-- ===== src/Monitor/Alerts.antt =====
-- Which alerts a check gives to the callback, and how far apart they are.
use flowcoro.Base.{
  ℕ, ◌+◌, ◌≡◌, refl, ap, sym, ◌∙◌, Bool, true, false, not, ◌&&◌, ◌||◌, Option, none, some, List, [],
  ◌∷◌, leb, ◌==◌, arith, if◌then◌else◌,
}
use mathlib.Core.Path.{subst}
use flowcoro.Monitor.{
  Metrics, Monitor, Thresholds, new_monitor, waits_long, executes_long, succeeds_seldom,
  has_many_failed, is_exhausted, is_too_soon, trigger_alert, raise, recorded, reset,
  check_performance_thresholds, Event, records, resets, sets_callback, checks, step, run,
  high_wait_time, high_execution_time, low_success_rate, too_many_failed_connections,
  connection_pool_exhausted,
}

-- When the callback was given alerts of a type, the last time first.
abbrev pub times_of : ℕ → List (ℕ × ℕ) → List ℕ
times_of k [] = []
times_of k ((j, t) ∷ later) = let rest = times_of k later in if j == k then t ∷ rest else rest

abbrev pub is_spaced : ℕ → List ℕ → Bool
is_spaced interval [] = true
is_spaced interval (t ∷ []) = true
is_spaced interval (t ∷ u ∷ ts) = leb (u + interval) t && is_spaced interval (u ∷ ts)

-- An alert of type `k` is due.
abbrev pub is_due : ℕ → ℕ → Monitor → Bool
is_due k now m = not (is_too_soon (m.last_alert_time k) m.thresholds.alert_interval now)

-- The condition for an alert of each type.
abbrev pub calls_for : ℕ → Thresholds → Metrics → Bool
calls_for k t m =
    if k == high_wait_time
    then waits_long t m
    else if k == high_execution_time
    then executes_long t m
    else if k == low_success_rate
    then succeeds_seldom t m
    else if k == too_many_failed_connections
    then has_many_failed t m
    else if k == connection_pool_exhausted
    then is_exhausted m
    else false

-- What a part of a check does, seen from type `k`, where `c` says whether it called for such an alert.
record Seen (c : Bool) (now k : ℕ) (m r : Monitor) : Type 0 where
  same_thresholds : r.thresholds ≡ m.thresholds
  same_callback : r.has_callback ≡ m.has_callback
  last : r.last_alert_time k ≡ (if c && is_due k now m then some now else m.last_alert_time k)
  given : times_of k r.alerts ≡ (
      if (c && is_due k now m) && m.has_callback
      then now ∷ times_of k m.alerts
      else times_of k m.alerts)

raise-Seen : (b : Bool) (j now k : ℕ) (m : Monitor) → Seen (b && (j == k)) now k m (raise b j now m)
unfolding raise trigger_alert
raise-Seen false j now k m = record {
  same_thresholds = refl;
  same_callback = refl;
  last = refl;
  given = refl;
}
raise-Seen true j now k m = record {
  same_thresholds = ground arith;
  same_callback = ground arith;
  last = ground arith;
  given = ground arith;
}

Seen-both :
    {c d : Bool} {now k : ℕ} {m r s : Monitor}
    → (c && d) ≡ false
    → Seen c now k m r
    → Seen d now k r s
    → Seen (c || d) now k m s
Seen-both {c} {d} {now} {k} {m} {r} {s} apart v w = record {
  same_thresholds = w.same_thresholds ∙ v.same_thresholds;
  same_callback = w.same_callback ∙ v.same_callback;
  last = ground (arith, apart, v.last, w.last, same_interval);
  given = ground (arith, apart, v.last, w.last, v.given, w.given, v.same_callback, same_interval);
}
  where
    same_interval : r.thresholds.alert_interval ≡ m.thresholds.alert_interval
    same_interval = ap (λ t. t.alert_interval) v.same_thresholds

check-Seen :
    (now k : ℕ) (m : Monitor)
    → Seen (calls_for k m.thresholds m.metrics) now k m (check_performance_thresholds now m)
unfolding check_performance_thresholds
check-Seen now k m =
    subst (λ c. Seen c now k m (check_performance_thresholds now m)) which
      (Seen-both (ground arith)
        (Seen-both (ground arith)
          (Seen-both (ground arith)
            (Seen-both (ground arith)
              (raise-Seen (waits_long m.thresholds m.metrics) high_wait_time now k m)
              (raise-Seen (executes_long m.thresholds m.metrics) high_execution_time now k _))
            (raise-Seen (succeeds_seldom m.thresholds m.metrics) low_success_rate now k _))
          (raise-Seen (has_many_failed m.thresholds m.metrics) too_many_failed_connections now k _))
        (raise-Seen (is_exhausted m.metrics) connection_pool_exhausted now k _))
  where
    which :
        (((((waits_long m.thresholds m.metrics && (high_wait_time == k))
                || (executes_long m.thresholds m.metrics && (high_execution_time == k)))
              || (succeeds_seldom m.thresholds m.metrics && (low_success_rate == k)))
            || (has_many_failed m.thresholds m.metrics && (too_many_failed_connections == k)))
          || (is_exhausted m.metrics && (connection_pool_exhausted == k)))
        ≡ calls_for k m.thresholds m.metrics
    which = ground arith

-- The last alert was no earlier than the last one given, and these are far apart.
abbrev is_apart : ℕ → Option ℕ → List ℕ → Bool
is_apart interval last [] = true
is_apart interval none (t ∷ ts) = false
is_apart interval (some u) (t ∷ ts) = leb t u && is_spaced interval (t ∷ ts)

is_apart_next :
    (interval now : ℕ) (due given : Bool) (last : Option ℕ) (ts : List ℕ)
    → is_apart interval last ts ≡ true
    → (due ≡ true → is_too_soon last interval now ≡ false)
    → is_apart interval (if due then some now else last) (if due && given then now ∷ ts else ts)
      ≡ true
unfolding is_too_soon
is_apart_next interval now false given last ts v fresh = v
is_apart_next interval now true false last [] v fresh = refl
is_apart_next interval now true true last [] v fresh = ground arith
is_apart_next interval now true given none (t ∷ ts) v fresh = absurd (cc)
is_apart_next interval now true false (some u) (t ∷ ts) v fresh = ground (arith, v, fresh refl)
is_apart_next interval now true true (some u) (t ∷ ts) v fresh = ground (arith, v, fresh refl)

is_apart_of :
    {i i' : ℕ} {l l' : Option ℕ} {ts ts' : List ℕ}
    → i ≡ i'
    → l ≡ l'
    → ts ≡ ts'
    → is_apart i' l' ts' ≡ true
    → is_apart i l ts ≡ true
is_apart_of {i} {i'} {l} {l'} {ts} {ts'} p q r v =
    ap (λ x. is_apart x l ts) p ∙ ap (λ x. is_apart i' x ts) q ∙ ap (λ x. is_apart i' l' x) r ∙ v

abbrev IsApart : ℕ → Monitor → Type 0
IsApart k m =
    is_apart m.thresholds.alert_interval (m.last_alert_time k) (times_of k m.alerts) ≡ true

check-IsApart :
    (now k : ℕ) (m : Monitor) → IsApart k m → IsApart k (check_performance_thresholds now m)
check-IsApart now k m v =
    let r = check-Seen now k m in
    let c = calls_for k m.thresholds m.metrics in
    is_apart_of (ap (λ t. t.alert_interval) r.same_thresholds) r.last r.given (
      is_apart_next m.thresholds.alert_interval now (c && is_due k now m) m.has_callback
        (m.last_alert_time k) (times_of k m.alerts) v (λ due. ground (arith, due)))

step-IsApart : (k : ℕ) (e : Event) (m : Monitor) → IsApart k m → IsApart k (step m e)
unfolding step
step-IsApart k (records r) m v = v
step-IsApart k resets m v = v
step-IsApart k sets_callback m v = v
step-IsApart k (checks now) m v = check-IsApart now k m v

run-IsApart : (k : ℕ) (es : List Event) (m : Monitor) → IsApart k m → IsApart k (run m es)
unfolding run
run-IsApart k [] m v = v
run-IsApart k (e ∷ es) m v = run-IsApart k es (step m e) (step-IsApart k e m v)

same_interval : (es : List Event) (m : Monitor) → (run m es).thresholds ≡ m.thresholds
unfolding run step
same_interval [] m = refl
same_interval (records r ∷ es) m = same_interval es (record m { metrics = recorded m.metrics r })
same_interval (resets ∷ es) m = same_interval es (record m { metrics = reset m.metrics })
same_interval (sets_callback ∷ es) m = same_interval es (record m { has_callback = true })
same_interval (checks now ∷ es) m =
    same_interval es (check_performance_thresholds now m) ∙ (check-Seen now 0 m).same_thresholds

is_spaced_of_apart :
    (interval : ℕ) (last : Option ℕ) (ts : List ℕ)
    → is_apart interval last ts ≡ true
    → is_spaced interval ts ≡ true
is_spaced_of_apart interval last [] v = refl
is_spaced_of_apart interval none (t ∷ ts) v = absurd (cc)
is_spaced_of_apart interval (some u) (t ∷ ts) v = ground (arith, v)

-- Over any history of a new monitor, and whatever its clock does, two alerts of one type are
-- given to the callback at times that are at least `alert_interval` apart.
pub alerts_spaced :
    (t : Thresholds) (es : List Event) (k : ℕ)
    → is_spaced t.alert_interval (times_of k (run (new_monitor t) es).alerts) ≡ true
unfolding new_monitor
alerts_spaced t es k =
    let m = run (new_monitor t) es in
    ap (λ s. is_spaced s.alert_interval (times_of k m.alerts))
      (sym (same_interval es (new_monitor t)))
    ∙ is_spaced_of_apart m.thresholds.alert_interval (m.last_alert_time k) (times_of k m.alerts)
        (run-IsApart k es (new_monitor t) refl)

-- On a monitor with a callback a check gives an alert of a type exactly when the condition of the
-- type holds and the last alert of the type, if there was one, is at least `alert_interval` ago;
-- it gives one at most.
pub check_gives :
    (m : Monitor) (now k : ℕ)
    → m.has_callback ≡ true
    → times_of k (check_performance_thresholds now m).alerts ≡ (
        if calls_for k m.thresholds m.metrics && is_due k now m
        then now ∷ times_of k m.alerts
        else times_of k m.alerts)
check_gives m now k set = ground (arith, set, (check-Seen now k m).given)
