-- ===== src/Monitor/Balance.antt =====
-- The counters of connections over any history.
use flowcoro.Base.{ℕ, ◌≡◌, ◌<◌, refl, sym, Bool, true, false, List, [], ◌∷◌, add64, word, arith}
use mathlib.Core.Path.{subst}
use flowcoro.Monitor.{
  Metrics, Report, request_start, request_success, request_failure, request_timeout, request_retry,
  connection_created, connection_destroyed, connection_activated, connection_released,
  connection_failed, health_check, recorded, reset, Monitor, Thresholds, new_monitor, trigger_alert,
  raise, check_performance_thresholds, Event, records, resets, sets_callback, checks, step, run,
}

record IsBalanced (total destroyed created active idle : ℕ) : Type 0 where
  made_and_gone : add64 total destroyed ≡ created
  in_use_and_idle : add64 active idle ≡ 0
  total_word : total < word
  active_word : active < word

abbrev Balanced : Metrics → Type 0
Balanced m =
    IsBalanced m.total_connections m.destroyed_connections m.created_connections
      m.active_connections m.idle_connections

Balanced-recorded : (m : Metrics) (r : Report) → Balanced m → Balanced (recorded m r)
unfolding recorded
Balanced-recorded m request_start v = v
Balanced-recorded m (request_success w e) v = v
Balanced-recorded m request_failure v = v
Balanced-recorded m request_timeout v = v
Balanced-recorded m request_retry v = v
Balanced-recorded m connection_created v = record {
  made_and_gone = omega (arith, v.made_and_gone);
  in_use_and_idle = v.in_use_and_idle;
  total_word = omega arith;
  active_word = v.active_word;
}
Balanced-recorded m connection_destroyed v = record {
  made_and_gone = omega (arith, v.made_and_gone, v.total_word);
  in_use_and_idle = v.in_use_and_idle;
  total_word = omega arith;
  active_word = v.active_word;
}
Balanced-recorded m connection_activated v = record {
  made_and_gone = v.made_and_gone;
  in_use_and_idle = omega (arith, v.in_use_and_idle);
  total_word = v.total_word;
  active_word = omega arith;
}
Balanced-recorded m connection_released v = record {
  made_and_gone = v.made_and_gone;
  in_use_and_idle = omega (arith, v.in_use_and_idle, v.active_word);
  total_word = v.total_word;
  active_word = omega arith;
}
Balanced-recorded m connection_failed v = v
Balanced-recorded m (health_check ok now) v = v

metrics-trigger_alert :
    (type now : ℕ) (m : Monitor) → (trigger_alert type now m).metrics ≡ m.metrics
unfolding trigger_alert
metrics-trigger_alert type now m = ground arith

metrics-raise : (b : Bool) (type now : ℕ) (m : Monitor) → (raise b type now m).metrics ≡ m.metrics
unfolding raise
metrics-raise true type now m = metrics-trigger_alert type now m
metrics-raise false type now m = refl

metrics-check : (now : ℕ) (m : Monitor) → (check_performance_thresholds now m).metrics ≡ m.metrics
unfolding check_performance_thresholds
metrics-check now m =
    rw (metrics-raise, metrics-raise, metrics-raise, metrics-raise, metrics-raise) refl

Balanced-run : (m : Monitor) (es : List Event) → Balanced m.metrics → Balanced (run m es).metrics
unfolding run step reset
Balanced-run m [] v = v
Balanced-run m (records r ∷ es) v =
    Balanced-run (record m { metrics = recorded m.metrics r }) es (Balanced-recorded m.metrics r v)
Balanced-run m (resets ∷ es) v = Balanced-run (record m { metrics = reset m.metrics }) es v
Balanced-run m (sets_callback ∷ es) v = Balanced-run (record m { has_callback = true }) es v
Balanced-run m (checks now ∷ es) v =
    Balanced-run (check_performance_thresholds now m) es
      (subst Balanced (sym (metrics-check now m)) v)

-- Over any history of a new monitor, as 64-bit words, the total of connections and those
-- destroyed make up those created, and the active and the idle ones add up to 0.
pub connection_counters :
    (t : Thresholds) (es : List Event)
    → let m = (run (new_monitor t) es).metrics in
      (add64 m.total_connections m.destroyed_connections ≡ m.created_connections)
      × (add64 m.active_connections m.idle_connections ≡ 0)
unfolding new_monitor
connection_counters t es =
    let v = Balanced-run (new_monitor t) es record {
      made_and_gone = refl;
      in_use_and_idle = refl;
      total_word = omega arith;
      active_word = omega arith;
    } in
    (v.made_and_gone, v.in_use_and_idle)
