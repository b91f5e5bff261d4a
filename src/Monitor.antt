-- ===== src/Monitor.antt =====
-- `PoolMetrics` and `PoolMonitor` of include/flowcoro/db/pool_monitor.h. A call is one step; the loop
-- that raises a maximum is taken apart in Race. Times are numbers of one unit.
pub mod Alerts
pub mod Balance
pub mod Race
mod Tests
use flowcoro.Base.{
  ℕ, zero, suc, ◌+◌, ◌*◌, ◌-◌, Bool, true, false, ◌&&◌, Option, none, some, List, [], ◌∷◌, ltb,
  ◌==◌, if◌then◌else◌, add64, sub64, word, update,
}

pub record Metrics : Type 0 where
  pub total_connections : ℕ
  pub active_connections : ℕ
  pub idle_connections : ℕ
  pub failed_connections : ℕ
  pub created_connections : ℕ
  pub destroyed_connections : ℕ
  pub total_requests : ℕ
  pub successful_requests : ℕ
  pub failed_requests : ℕ
  pub timeout_requests : ℕ
  pub retry_requests : ℕ
  pub total_wait_time_us : ℕ
  pub max_wait_time_us : ℕ
  pub min_wait_time_us : ℕ
  pub total_execution_time_us : ℕ
  pub max_execution_time_us : ℕ
  pub health_checks_performed : ℕ
  pub health_checks_failed : ℕ
  pub last_health_check_time : ℕ

abbrev pub new_metrics : Metrics
new_metrics = record {
  total_connections = 0;
  active_connections = 0;
  idle_connections = 0;
  failed_connections = 0;
  created_connections = 0;
  destroyed_connections = 0;
  total_requests = 0;
  successful_requests = 0;
  failed_requests = 0;
  timeout_requests = 0;
  retry_requests = 0;
  total_wait_time_us = 0;
  max_wait_time_us = 0;
  min_wait_time_us = word - 1;
  total_execution_time_us = 0;
  max_execution_time_us = 0;
  health_checks_performed = 0;
  health_checks_failed = 0;
  last_health_check_time = 0;
}

pub reset : Metrics → Metrics
reset m = record m {
  total_requests = 0;
  successful_requests = 0;
  failed_requests = 0;
  timeout_requests = 0;
  retry_requests = 0;
  total_wait_time_us = 0;
  max_wait_time_us = 0;
  min_wait_time_us = word - 1;
  total_execution_time_us = 0;
  max_execution_time_us = 0;
  health_checks_performed = 0;
  health_checks_failed = 0;
}

-- What the clients of the monitor report.
pub data Report : Type 0 where
  request_start : Report
  request_success : ℕ → ℕ → Report  -- the time waited, and the time executed
  request_failure : Report
  request_timeout : Report
  request_retry : Report
  connection_created : Report
  connection_destroyed : Report
  connection_activated : Report
  connection_released : Report
  connection_failed : Report
  health_check : Bool → ℕ → Report  -- with the time in seconds

-- The `record_` methods.
pub recorded : Metrics → Report → Metrics
recorded m request_start = record m { total_requests = add64 m.total_requests 1 }
recorded m (request_success wait_us exec_us) = record m {
  successful_requests = add64 m.successful_requests 1;
  total_wait_time_us = add64 m.total_wait_time_us wait_us;
  max_wait_time_us = if ltb m.max_wait_time_us wait_us then wait_us else m.max_wait_time_us;
  min_wait_time_us = if ltb wait_us m.min_wait_time_us then wait_us else m.min_wait_time_us;
  total_execution_time_us = add64 m.total_execution_time_us exec_us;
  max_execution_time_us =
      if ltb m.max_execution_time_us exec_us then exec_us else m.max_execution_time_us;
}
recorded m request_failure = record m { failed_requests = add64 m.failed_requests 1 }
recorded m request_timeout = record m { timeout_requests = add64 m.timeout_requests 1 }
recorded m request_retry = record m { retry_requests = add64 m.retry_requests 1 }
recorded m connection_created = record m {
  total_connections = add64 m.total_connections 1;
  created_connections = add64 m.created_connections 1;
}
recorded m connection_destroyed = record m {
  total_connections = sub64 m.total_connections 1;
  destroyed_connections = add64 m.destroyed_connections 1;
}
recorded m connection_activated = record m {
  active_connections = add64 m.active_connections 1;
  idle_connections = sub64 m.idle_connections 1;
}
recorded m connection_released = record m {
  active_connections = sub64 m.active_connections 1;
  idle_connections = add64 m.idle_connections 1;
}
recorded m connection_failed = record m { failed_connections = add64 m.failed_connections 1 }
recorded m (health_check success now) = record m {
  health_checks_performed = add64 m.health_checks_performed 1;
  last_health_check_time = now;
  health_checks_failed = if success then m.health_checks_failed else add64 m.health_checks_failed 1;
}

-- `AlertType`: the numbers of the enumerators; the last one is never raised.
abbrev pub high_wait_time : ℕ
high_wait_time = 0

abbrev pub high_execution_time : ℕ
high_execution_time = 1

abbrev pub low_success_rate : ℕ
low_success_rate = 2

abbrev pub too_many_failed_connections : ℕ
too_many_failed_connections = 3

abbrev pub connection_pool_exhausted : ℕ
connection_pool_exhausted = 4

-- The least rate of success is `min_success` of `success_scale`.
pub record Thresholds : Type 0 where
  pub max_wait_time : ℕ  -- milliseconds
  pub max_execution_time : ℕ
  pub min_success : ℕ
  pub success_scale : ℕ
  pub max_failed_connections : ℕ
  pub alert_interval : ℕ

pub record Monitor : Type 0 where
  pub thresholds : Thresholds
  pub metrics : Metrics
  pub has_callback : Bool
  pub last_alert_time : ℕ → Option ℕ
  pub alerts : List (ℕ × ℕ)  -- what the callback was given and when, the last one first

pub new_monitor : Thresholds → Monitor
new_monitor t = record {
  thresholds = t;
  metrics = new_metrics;
  has_callback = false;
  last_alert_time = λ _. none;
  alerts = [];
}

-- The averages and the rate are compared as fractions; the times recorded are microseconds.
pub waits_long : Thresholds → Metrics → Bool
waits_long t m =
    if m.total_requests == 0
    then false
    else ltb (t.max_wait_time * (m.total_requests * 1000)) m.total_wait_time_us

pub executes_long : Thresholds → Metrics → Bool
executes_long t m =
    if m.successful_requests == 0
    then false
    else ltb (t.max_execution_time * (m.successful_requests * 1000)) m.total_execution_time_us

pub succeeds_seldom : Thresholds → Metrics → Bool
succeeds_seldom t m =
    if m.total_requests == 0
    then ltb t.success_scale t.min_success
    else ltb (m.successful_requests * t.success_scale) (t.min_success * m.total_requests)

pub has_many_failed : Thresholds → Metrics → Bool
has_many_failed t m = ltb t.max_failed_connections m.failed_connections

pub is_exhausted : Metrics → Bool
is_exhausted m = m.active_connections == m.total_connections && ltb 0 m.total_connections

pub is_too_soon : Option ℕ → ℕ → ℕ → Bool
is_too_soon none interval now = false
is_too_soon (some last) interval now = ltb now (last + interval)

pub trigger_alert : ℕ → ℕ → Monitor → Monitor
unfolding is_too_soon
trigger_alert type now m =
    if is_too_soon (m.last_alert_time type) m.thresholds.alert_interval now then m else record m {
      last_alert_time = update m.last_alert_time type (some now);
      alerts = if m.has_callback then (type, now) ∷ m.alerts else m.alerts;
    }

pub raise : Bool → ℕ → ℕ → Monitor → Monitor
unfolding trigger_alert
raise b type now m = if b then trigger_alert type now m else m

pub check_performance_thresholds : ℕ → Monitor → Monitor
unfolding waits_long executes_long succeeds_seldom has_many_failed is_exhausted raise
check_performance_thresholds now m =
    let s = m.metrics in
    let t = m.thresholds in
    raise (is_exhausted s) connection_pool_exhausted now (
      raise (has_many_failed t s) too_many_failed_connections now (
        raise (succeeds_seldom t s) low_success_rate now (
          raise (executes_long t s) high_execution_time now
            (raise (waits_long t s) high_wait_time now m))))

-- What the clients and the monitor's own thread do.
pub data Event : Type 0 where
  records : Report → Event
  resets : Event
  sets_callback : Event
  checks : ℕ → Event

pub step : Monitor → Event → Monitor
unfolding recorded reset check_performance_thresholds
step m (records r) = record m { metrics = recorded m.metrics r }
step m resets = record m { metrics = reset m.metrics }
step m sets_callback = record m { has_callback = true }
step m (checks now) = check_performance_thresholds now m

pub run : Monitor → List Event → Monitor
unfolding step
run m [] = m
run m (e ∷ es) = run (step m e) es
