-- ===== src/Pool/History.antt =====
-- The pool's life as a sequence of steps.
use flowcoro.Base.{ℕ, Bool, List, [], ◌∷◌, if◌then◌else◌, has}
use flowcoro.Pool.State.{Pool}
use flowcoro.Pool.Lease.{acquire, created, give_up, wait_pass, give_back}
use flowcoro.Pool.Upkeep.{
  shut_down, cleanup_all, warm_up_one, check_begin, check_failed, check_end, cleanup,
}

-- What the callers, the driver and the pool's two background threads do. A guard is given back
-- only while it exists, and a ping fails only for a connection that is being checked.
pub data Event : Type 0 where
  acquires : ℕ → Event
  answers : Bool → ℕ → ℕ → Event
  looks : ℕ → ℕ → Event
  times_out : Event
  gives_back : ℕ → ℕ → Event
  shuts_down : Event
  empties : Event
  warms_up : Bool → ℕ → Event
  check_begins : Event
  check_fails : ℕ → Event
  check_ends : Event
  cleans : ℕ → Event

unfoldable pub step : (ℕ → Bool) → Pool → Event → Pool
unfolding acquire created wait_pass give_up give_back shut_down cleanup_all warm_up_one check_begin
    check_failed check_end cleanup
step valid p (acquires now) = (acquire valid p now).1
step valid p (answers ok waited now) = (created ok p waited now).1
step valid p (looks elapsed now) = (wait_pass valid p elapsed now).1
step valid p times_out = (give_up p).1
step valid p (gives_back c now) = if p.in_use c then give_back valid p c now else p
step valid p shuts_down = shut_down p
step valid p empties = if p.shutdown then cleanup_all p else p
step valid p (warms_up ok now) = warm_up_one ok p now
step valid p check_begins = check_begin p
step valid p (check_fails c) = if has c p.checking then check_failed p c else p
step valid p check_ends = check_end p
step valid p (cleans now) = cleanup p now

-- Each event comes with which connections are valid at that moment.
unfoldable pub run : Pool → List ((ℕ → Bool) × Event) → Pool
unfolding step
run p [] = p
run p ((valid, e) ∷ es) = run (step valid p e) es
