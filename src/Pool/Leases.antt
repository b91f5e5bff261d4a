-- ===== src/Pool/Leases.antt =====
-- Who holds a connection (include/flowcoro/db/connection_pool.h).
use flowcoro.Base.{
  occurrences, occurrences-append, ℕ, zero, suc, ◌+◌, ◌≤◌, ◌≡◌, refl, Bool, true, false, Option,
  some, List, [], ◌∷◌, ◌++◌, arith, length, add64,
}
use flowcoro.Pool.State.{Pool, Config, init, without, count_failed, remove_connection}
use flowcoro.Pool.Lease.{got, try_get, acquire, created, wait_pass, give_back}
use flowcoro.Pool.Upkeep.{warm_up_one, check_failed, clean}
use flowcoro.Pool.History.{
  Event, acquires, answers, looks, times_out, gives_back, shuts_down, empties, warms_up,
  check_begins, check_fails, check_ends, cleans, step, run,
}

abbrev pub holds : Bool → ℕ
holds true = 1
holds false = 0

-- The places where a connection can be: in a guard, in the queue, or in a health check.
abbrev pub places : Pool → ℕ → ℕ
places p c = holds (p.in_use c) + occurrences c p.idle + occurrences c p.checking

pub record IsSingle (p : Pool) (c : ℕ) : Type 0 where
  pub single : places p c ≤ 1
  pub unmade : p.next_conn ≤ c → places p c ≡ 0

pub occurrences-without-le :
    (c d : ℕ) (xs : List ℕ) → occurrences c (without d xs) ≤ occurrences c xs
unfolding without
occurrences-without-le c d [] = omega arith
occurrences-without-le c d (x ∷ xs) = ground (arith, occurrences-without-le c d xs)

-- Nothing but a guard is added on the way out of `try_get`, and what it returns was in the queue.
record Taken (p : Pool) (c : ℕ) (r : Option ℕ × Pool) : Type 0 where
  same_flags : r.1.in_use c ≡ p.in_use c
  same_check : r.1.checking ≡ p.checking
  same_next : r.1.next_conn ≡ p.next_conn
  fewer : occurrences c r.1.idle ≤ occurrences c p.idle
  popped : r.0 ≡ some c → occurrences c r.1.idle + 1 ≤ occurrences c p.idle

try_get-Taken_at :
    (valid : ℕ → Bool) (fuel : ℕ) (p : Pool) (c : ℕ) (queue : List ℕ)
    → p.idle ≡ queue
    → ((q : Pool) → Taken q c (try_get valid fuel q))
    → Taken p c (try_get valid (suc fuel) p)
unfolding try_get
try_get-Taken_at valid fuel p c [] e ih = ground arith
try_get-Taken_at valid fuel p c (x ∷ rest) e ih = ground (
  arith,
  ih (remove_connection (count_failed (record p { idle = rest })) x),
  occurrences-without-le c x rest,
)

try_get-Taken : (valid : ℕ → Bool) (fuel : ℕ) (p : Pool) (c : ℕ) → Taken p c (try_get valid fuel p)
unfolding try_get
try_get-Taken valid zero p c = ground arith
try_get-Taken valid (suc fuel) p c =
    try_get-Taken_at valid fuel p c p.idle refl (λ q. try_get-Taken valid fuel q c)

abbrev asked : Pool → Pool
asked p = record p { stats = record p.stats { total_requests = add64 p.total_requests 1 } }

acquire-IsSingle :
    (valid : ℕ → Bool) (p : Pool) (now c : ℕ) → IsSingle p c → IsSingle (acquire valid p now).1 c
unfolding acquire
acquire-IsSingle valid p now c v = ground (arith, try_get-Taken valid (length p.idle) (asked p) c)

wait_pass-IsSingle :
    (valid : ℕ → Bool) (p : Pool) (elapsed now c : ℕ)
    → IsSingle p c
    → IsSingle (wait_pass valid p elapsed now).1 c
unfolding wait_pass
wait_pass-IsSingle valid p elapsed now c v = ground (arith, try_get-Taken valid (length p.idle) p c)

created-IsSingle :
    (ok : Bool) (p : Pool) (waited now c : ℕ)
    → IsSingle p c
    → IsSingle (created ok p waited now).1 c
unfolding created
created-IsSingle ok p waited now c v = ground arith

give_back-IsSingle :
    (valid : ℕ → Bool) (p : Pool) (d now c : ℕ)
    → p.in_use d ≡ true
    → IsSingle p c
    → IsSingle (give_back valid p d now) c
unfolding give_back
give_back-IsSingle valid p d now c used v =
    ground (arith, occurrences-append c p.idle (d ∷ []), occurrences-without-le c d p.idle)

warm_up_one-IsSingle :
    (ok : Bool) (p : Pool) (now c : ℕ) → IsSingle p c → IsSingle (warm_up_one ok p now) c
unfolding warm_up_one
warm_up_one-IsSingle ok p now c v = ground (arith, occurrences-append c p.idle (p.next_conn ∷ []))

check_failed-IsSingle : (p : Pool) (d c : ℕ) → IsSingle p c → IsSingle (check_failed p d) c
unfolding check_failed
check_failed-IsSingle p d c v =
    ground (arith, occurrences-without-le c d p.idle, occurrences-without-le c d p.checking)

-- Cleaning moves the queue's connections over or drops them.
record Cleaned (p : Pool) (kept : List ℕ) (c : ℕ) (q : Pool) : Type 0 where
  same_flags : q.in_use c ≡ p.in_use c
  same_check : q.checking ≡ p.checking
  same_next : q.next_conn ≡ p.next_conn
  fewer : occurrences c q.idle ≤ occurrences c p.idle + occurrences c kept

clean-Cleaned_at :
    (fuel : ℕ) (p : Pool) (now : ℕ) (kept : List ℕ) (removed c : ℕ) (queue : List ℕ)
    → p.idle ≡ queue
    → ((q : Pool) (l : List ℕ) (r : ℕ) → Cleaned q l c (clean fuel q now l r).0)
    → Cleaned p kept c (clean (suc fuel) p now kept removed).0
unfolding clean
clean-Cleaned_at fuel p now kept removed c [] e ih = ground arith
clean-Cleaned_at fuel p now kept removed c (x ∷ rest) e ih = ground (
  arith,
  ih (remove_connection (record p { idle = rest }) x) kept (removed + 1),
  ih (record p { idle = rest }) (kept ++ (x ∷ [])) removed,
  occurrences-append c kept (x ∷ []),
  occurrences-without-le c x rest,
)

clean-Cleaned :
    (fuel : ℕ) (p : Pool) (now : ℕ) (kept : List ℕ) (removed c : ℕ)
    → Cleaned p kept c (clean fuel p now kept removed).0
unfolding clean
clean-Cleaned zero p now kept removed c = ground arith
clean-Cleaned (suc fuel) p now kept removed c =
    clean-Cleaned_at fuel p now kept removed c p.idle refl (λ q l r. clean-Cleaned fuel q now l r c)

step-IsSingle :
    (valid : ℕ → Bool) (p : Pool) (e : Event) (c : ℕ) → IsSingle p c → IsSingle (step valid p e) c
unfolding step
step-IsSingle valid p (acquires now) c v = acquire-IsSingle valid p now c v
step-IsSingle valid p (answers ok waited now) c v = created-IsSingle ok p waited now c v
step-IsSingle valid p (looks elapsed now) c v = wait_pass-IsSingle valid p elapsed now c v
step-IsSingle valid p times_out c v = ground arith
step-IsSingle valid p (gives_back d now) c v = ground (arith, give_back-IsSingle valid p d now c)
step-IsSingle valid p shuts_down c v = ground arith
step-IsSingle valid p empties c v = ground arith
step-IsSingle valid p (warms_up ok now) c v = warm_up_one-IsSingle ok p now c v
step-IsSingle valid p check_begins c v = ground (arith, occurrences-append c p.checking p.idle)
step-IsSingle valid p (check_fails d) c v = ground (arith, check_failed-IsSingle p d c v)
step-IsSingle valid p check_ends c v = ground (arith, occurrences-append c p.idle p.checking)
step-IsSingle valid p (cleans now) c v = ground (arith, clean-Cleaned (length p.idle) p now [] 0 c)

pub run-IsSingle :
    (p : Pool) (es : List ((ℕ → Bool) × Event)) (c : ℕ) → IsSingle p c → IsSingle (run p es) c
unfolding run
run-IsSingle p [] c v = v
run-IsSingle p ((valid, e) ∷ es) c v =
    run-IsSingle (step valid p e) es c (step-IsSingle valid p e c v)

init-IsSingle : (config : Config) (c : ℕ) → IsSingle (init config) c
unfolding init
init-IsSingle config c = ground arith

-- After any history of a new pool, a connection that `acquire_connection` hands out at once was
-- in no guard before, is in one now, and is neither in the queue nor in a health check.
pub acquire_exclusive :
    (config : Config) (es : List ((ℕ → Bool) × Event)) (valid : ℕ → Bool) (now c : ℕ)
    → (acquire valid (run (init config) es) now).0 ≡ got c
    → let p = run (init config) es in
      let q = (acquire valid p now).1 in
      (p.in_use c ≡ false)
      × (q.in_use c ≡ true)
      × (occurrences c q.idle ≡ 0)
      × (occurrences c q.checking ≡ 0)
unfolding acquire
acquire_exclusive config es valid now c h = ground (
  arith,
  run-IsSingle (init config) es c (init-IsSingle config c),
  try_get-Taken valid (length p.idle) (asked p) c,
)
  where
    p : Pool
    p = run (init config) es
