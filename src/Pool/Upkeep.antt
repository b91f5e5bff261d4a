-- ===== src/Pool/Upkeep.antt =====
-- Shutdown, warm-up and the work of the two background threads. The pool's mutex makes each
-- function one step.
use flowcoro.Base.{
  ℕ, zero, suc, ◌+◌, ◌-◌, Bool, true, false, ◌&&◌, List, [], ◌∷◌, ◌++◌, length, ltb, if◌then◌else◌,
  add64, sub64, update,
}
use flowcoro.Pool.State.{Pool, without, count_failed, remove_connection}

-- The `exchange` of `shutdown`; the pool is emptied later, under the mutex.
unfoldable pub shut_down : Pool → Pool
shut_down p = record p { shutdown = true }

-- `cleanup_all_connections_unsafe`
unfoldable pub cleanup_all : Pool → Pool
cleanup_all p = record p {
  idle = [];
  all = [];
  stats = record p.stats { total_connections = 0; active_connections = 0; idle_connections = 0 };
}

-- `create_and_add_connection` of `warm_up`, after the driver's answer at the time `now`, with the
-- constructor of `PooledConnection`.
unfoldable pub warm_up_one : Bool → Pool → ℕ → Pool
warm_up_one false p now = count_failed p
warm_up_one true p now = record p {
  last_used = update p.last_used p.next_conn now;
  all = p.next_conn ∷ p.all;
  idle = p.idle ++ (p.next_conn ∷ []);
  next_conn = suc p.next_conn;
  stats = record p.stats {
    total_connections = add64 p.total_connections 1;
    idle_connections = add64 p.idle_connections 1;
  };
}

-- `perform_health_check` in three sections: it takes the queue, drops each connection whose ping
-- fails, and puts the others back.
unfoldable pub check_begin : Pool → Pool
check_begin p = record p { checking = p.checking ++ p.idle; idle = [] }

unfoldable pub check_failed : Pool → ℕ → Pool
unfolding remove_connection
check_failed p c = count_failed (remove_connection (record p { checking = without c p.checking }) c)

unfoldable pub check_end : Pool → Pool
check_end p = record p { idle = p.idle ++ p.checking; checking = [] }

-- The loop of `cleanup_idle_connections`: `kept` is its queue of connections that stay, `removed`
-- its counter. Each round pops a connection.
unfoldable pub clean : ℕ → Pool → ℕ → List ℕ → ℕ → Pool × ℕ
unfolding remove_connection
clean zero p now kept removed = (record p { idle = kept }, removed)
clean (suc fuel) p now kept removed = elim p.idle [
  | [] ↦ (record p { idle = kept }, removed)
  | c ∷ rest ↦
      let popped = record p { idle = rest } in
      let drop = clean fuel (remove_connection popped c) now kept (removed + 1) in
      let keep = clean fuel popped now (kept ++ (c ∷ [])) removed in
      if ltb p.idle_timeout (now - p.last_used c)
        && ltb p.min_connections (sub64 (length p.all) removed)
      then drop
      else keep
]

-- `cleanup_idle_connections`
unfoldable pub cleanup : Pool → ℕ → Pool
unfolding clean
cleanup p now = (clean (length p.idle) p now [] 0).0
