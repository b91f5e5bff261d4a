-- ===== src/Pool/State.antt =====
-- The data of the connection pool of include/flowcoro/db/connection_pool.h, and what its
-- operations share. A connection is a number; whether it is valid, what the driver returns and what
-- a ping answers are the driver's, and enter as arguments. Times are milliseconds.
use flowcoro.Base.{
  occurrences, ℕ, Bool, true, false, List, [], ◌∷◌, ◌==◌, if◌then◌else◌, update, add64, sub64,
}

-- `PoolConfig`, its fields that the pool reads.
pub record Config : Type 0 where
  pub min_connections : ℕ
  pub max_connections : ℕ
  pub acquire_timeout : ℕ
  pub idle_timeout : ℕ
  pub validate_on_acquire : Bool
  pub validate_on_return : Bool

-- `PoolStats`, its counters.
pub record Stats : Type 0 where
  pub total_connections : ℕ
  pub active_connections : ℕ
  pub idle_connections : ℕ
  pub failed_connections : ℕ
  pub total_requests : ℕ
  pub successful_requests : ℕ
  pub failed_requests : ℕ
  pub timeout_requests : ℕ
  pub total_wait_time_ms : ℕ
  pub max_wait_time_ms : ℕ

pub record Pool : Type 0 where
  pub config : Config
  pub open config use *
  pub stats : Stats
  pub open stats use *
  pub idle : List ℕ  -- `idle_connections_`, the front of the queue first
  pub all : List ℕ  -- `all_connections_`, a set
  pub last_used : ℕ → ℕ
  pub in_use : ℕ → Bool
  pub shutdown : Bool
  pub next_conn : ℕ  -- the connections from here on have not been made
  pub checking : List ℕ  -- what a health check has taken out of the queue

abbrev pub no_stats : Stats
no_stats = record {
  total_connections = 0;
  active_connections = 0;
  idle_connections = 0;
  failed_connections = 0;
  total_requests = 0;
  successful_requests = 0;
  failed_requests = 0;
  timeout_requests = 0;
  total_wait_time_ms = 0;
  max_wait_time_ms = 0;
}

unfoldable pub init : Config → Pool
init c = record {
  config = c;
  stats = no_stats;
  idle = [];
  all = [];
  last_used = λ _. 0;
  in_use = λ _. false;
  shutdown = false;
  next_conn = 0;
  checking = [];
}

-- `PooledConnection::mark_used` and `mark_unused`, at the time `now`.
unfoldable pub mark_used : Pool → ℕ → ℕ → Pool
mark_used p c now = record p {
  last_used = update p.last_used c now;
  in_use = update p.in_use c true;
}

unfoldable pub mark_unused : Pool → ℕ → ℕ → Pool
mark_unused p c now = record p {
  last_used = update p.last_used c now;
  in_use = update p.in_use c false;
}

unfoldable pub without : ℕ → List ℕ → List ℕ
without c [] = []
without c (x ∷ xs) = if x == c then without c xs else x ∷ without c xs

-- One more failed connection; one connection fewer in the counters of the set and of the queue.
abbrev pub count_failed : Pool → Pool
count_failed p = record p {
  stats = record p.stats { failed_connections = add64 p.failed_connections 1 };
}

-- `remove_connection_unsafe`: the queue is rebuilt without the connection, and each entry that is
-- left out is taken off the counter of idle connections.
unfoldable pub remove_connection : Pool → ℕ → Pool
unfolding without
remove_connection p c = record p {
  all = without c p.all;
  idle = without c p.idle;
  stats = record p.stats {
    total_connections = sub64 p.total_connections 1;
    idle_connections = sub64 p.idle_connections (occurrences c p.idle);
  };
}

-- A connection goes from the queue to a caller.
abbrev pub take_idle : Pool → Pool
take_idle p = record p {
  stats = record p.stats {
    idle_connections = sub64 p.idle_connections 1;
    active_connections = add64 p.active_connections 1;
  };
}
