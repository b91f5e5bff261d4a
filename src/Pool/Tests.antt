-- ===== src/Pool/Tests.antt =====
-- The connection pool on concrete histories.
use flowcoro.Base.{
  occurrences, ℕ, ◌≤◌, ◌≡◌, refl, Bool, true, false, ◌==◌, not, List, [], ◌∷◌, arith,
}
use flowcoro.Pool.State.{Pool, Config, init, without, remove_connection}
use flowcoro.Pool.Lease.{try_get, grant, acquire}
use flowcoro.Pool.Upkeep.{warm_up_one}
use flowcoro.Pool.History.{Event, acquires, answers, warms_up, step, run}
use flowcoro.Pool.Leases.{acquire_exclusive}

abbrev two_at_most : Config
two_at_most = record {
  min_connections = 1;
  max_connections = 2;
  acquire_timeout = 30;
  idle_timeout = 5;
  validate_on_acquire = true;
  validate_on_return = false;
}

abbrev all_valid : ℕ → Bool
all_valid c = true

abbrev not_first : ℕ → Bool
not_first c = not (c == 0)

abbrev warm : List ((ℕ → Bool) × Event)
warm = (all_valid, warms_up true 0) ∷ (all_valid, warms_up true 0) ∷ []

-- Two connections in the queue.
abbrev warmed : Pool
warmed = run (init two_at_most) warm

-- One connection, which a caller holds.
abbrev one_out : Pool
one_out = run (init two_at_most) ((all_valid, acquires 0) ∷ (all_valid, answers true 0 0) ∷ [])

-- Both connections that the limit allows are with callers.
abbrev both_out : Pool
both_out = run one_out ((all_valid, acquires 1) ∷ (all_valid, answers true 0 1) ∷ [])

acquire_exclusive_example :
    let q = (acquire not_first warmed 3).1 in
    (warmed.in_use 1 ≡ false)
    × (q.in_use 1 ≡ true)
    × (occurrences 1 q.idle ≡ 0)
    × (occurrences 1 q.checking ≡ 0)
unfolding init run step warm_up_one acquire try_get remove_connection without grant
acquire_exclusive_example = acquire_exclusive two_at_most warm not_first 3 1 refl

single : (c : ℕ) → occurrences c warmed.all ≤ 1
unfolding init run step warm_up_one
single c = ground arith
