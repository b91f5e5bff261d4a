-- ===== src/Pool/Lease.antt =====
-- How a connection gets to a caller and back: `acquire_connection` and the destructor of a guard.
-- The pool's mutex makes each function one step.
use flowcoro.Base.{
  ℕ, zero, suc, Bool, true, false, not, ◌&&◌, Option, none, some, [], ◌∷◌, ◌++◌, length, ltb, leb,
  if◌then◌else◌, add64, sub64,
}
use flowcoro.Pool.State.{Pool, mark_used, mark_unused, count_failed, remove_connection, take_idle}

-- The loop of `try_get_available_connection`. Each round pops a connection, so the length of the
-- queue is enough fuel.
unfoldable pub try_get : (ℕ → Bool) → ℕ → Pool → Option ℕ × Pool
unfolding remove_connection
try_get valid zero p = (none, p)
try_get valid (suc fuel) p = elim p.idle [
  | [] ↦ (none, p)
  | c ∷ rest ↦
      let popped = record p { idle = rest } in
      let next = try_get valid fuel (remove_connection (count_failed popped) c) in
      if p.validate_on_acquire && not (valid c) then next else (some c, take_idle popped)
]

-- How a section of `acquire_connection` leaves its caller.
pub data Acquire : Type 0 where
  got : ℕ → Acquire  -- a guard on this connection
  creates : Acquire  -- awaits the driver
  waits : Acquire  -- goes on in `wait_for_available_connection`
  fails : Acquire  -- throws

-- `update_wait_time_stats`
unfoldable pub record_wait : Pool → ℕ → Pool
record_wait p ms = record p {
  stats = record p.stats {
    total_wait_time_ms = add64 p.total_wait_time_ms ms;
    max_wait_time_ms = if ltb p.max_wait_time_ms ms then ms else p.max_wait_time_ms;
  };
}

-- The successful end of `acquire_connection`, with the constructor of the guard.
unfoldable pub grant : Pool → ℕ → ℕ → ℕ → Acquire × Pool
unfolding record_wait mark_used
grant p c waited now =
    let q = record_wait p waited in
    (
      got c,
      mark_used
          (record q {
            stats = record q.stats { successful_requests = add64 q.successful_requests 1 };
          })
          c now,
    )

-- `can_create_new_connection`
unfoldable pub can_create : Pool → Bool
can_create p = ltb (length p.all) p.max_connections

-- `acquire_connection` up to the first await.
unfoldable pub acquire : (ℕ → Bool) → Pool → ℕ → Acquire × Pool
unfolding try_get grant can_create
acquire valid p now =
    let asked = record p { stats = record p.stats { total_requests = add64 p.total_requests 1 } } in
    let (found, q) = try_get valid (length asked.idle) asked in
    elim found [
      | some c ↦ grant q c 0 now
      | none ↦ if can_create q then (creates, q) else (waits, q)
    ]

-- What follows the driver's answer in `create_new_connection` and `acquire_connection`; false is
-- a null pointer or an exception.
unfoldable pub created : Bool → Pool → ℕ → ℕ → Acquire × Pool
unfolding grant
created false p waited now = (waits, count_failed p)
created true p waited now =
    grant
      (record p {
        all = p.next_conn ∷ p.all;
        next_conn = suc p.next_conn;
        stats = record p.stats {
          total_connections = add64 p.total_connections 1;
          active_connections = add64 p.active_connections 1;
        };
      })
      p.next_conn waited now

-- The end of `acquire_connection` without a connection.
unfoldable pub give_up : Pool → Acquire × Pool
give_up p = (
  fails,
  record p {
    stats = record p.stats {
      timeout_requests = add64 p.timeout_requests 1;
      failed_requests = add64 p.failed_requests 1;
    };
  },
)

-- One pass of `wait_for_available_connection` under the mutex, `elapsed` after the request. `waits`
-- means that the caller sleeps on the condition variable; if that times out it gives up.
unfoldable pub wait_pass : (ℕ → Bool) → Pool → ℕ → ℕ → Acquire × Pool
unfolding try_get grant give_up
wait_pass valid p elapsed now =
    if p.shutdown
    then give_up p
    else let (found, q) = try_get valid (length p.idle) p in
      elim found [
        | some c ↦ grant q c elapsed now
        | none ↦ if leb q.acquire_timeout elapsed then give_up q else (waits, q)
      ]

-- The destructor of a guard: `mark_unused`, then `return_connection`.
unfoldable pub give_back : (ℕ → Bool) → Pool → ℕ → ℕ → Pool
unfolding mark_unused remove_connection
give_back valid p c now =
    let q = mark_unused p c now in
    if q.shutdown
    then q
    else if q.validate_on_return && not (valid c)
    then remove_connection (count_failed q) c
    else record (mark_unused q c now) {
      idle = q.idle ++ (c ∷ []);
      stats = record q.stats {
        active_connections = sub64 q.active_connections 1;
        idle_connections = add64 q.idle_connections 1;
      };
    }
