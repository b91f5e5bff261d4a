-- ===== src/Pool/Capacity.antt =====
-- How many connections the pool makes.
use flowcoro.Base.{
  ℕ, zero, suc, ◌+◌, ◌≤◌, ◌≡◌, refl, Bool, true, Option, List, [], ◌∷◌, arith, length, add64,
}
use flowcoro.Pool.State.{Pool, without, count_failed, remove_connection}
use flowcoro.Pool.Lease.{creates, try_get, acquire, created}

pub length-without-le : (c : ℕ) (xs : List ℕ) → length (without c xs) ≤ length xs
unfolding without
length-without-le c [] = omega arith
length-without-le c (x ∷ xs) = ground (arith, length-without-le c xs)

record Kept (p : Pool) (r : Option ℕ × Pool) : Type 0 where
  no_more : length r.1.all ≤ length p.all
  same_config : r.1.config ≡ p.config

try_get-Kept_at :
    (valid : ℕ → Bool) (fuel : ℕ) (p : Pool) (queue : List ℕ)
    → p.idle ≡ queue
    → ((q : Pool) → Kept q (try_get valid fuel q))
    → Kept p (try_get valid (suc fuel) p)
unfolding try_get
try_get-Kept_at valid fuel p [] e ih = ground arith
try_get-Kept_at valid fuel p (x ∷ rest) e ih = ground (
  arith,
  ih (remove_connection (count_failed (record p { idle = rest })) x),
  length-without-le x p.all,
)

try_get-Kept : (valid : ℕ → Bool) (fuel : ℕ) (p : Pool) → Kept p (try_get valid fuel p)
unfolding try_get
try_get-Kept valid zero p = ground arith
try_get-Kept valid (suc fuel) p =
    try_get-Kept_at valid fuel p p.idle refl (λ q. try_get-Kept valid fuel q)

-- A caller that `acquire_connection` sends to the driver leaves the set within `max_connections`
-- if the pool does nothing else until the driver has answered.
pub alone_within_limit :
    (valid : ℕ → Bool) (p : Pool) (now waited later : ℕ) (ok : Bool)
    → (acquire valid p now).0 ≡ creates
    → let q = (acquire valid p now).1 in
      length (created ok q waited later).1.all ≤ p.max_connections
unfolding acquire created
alone_within_limit valid p now waited later ok h =
    ground (arith, try_get-Kept valid (length p.idle) (asked p))
  where
    asked : Pool → Pool
    asked p = record p { stats = record p.stats { total_requests = add64 p.total_requests 1 } }

-- With an empty queue and room for one connection more, two callers that ask before the driver
-- answers are both sent to it, and the pool then holds one connection more than
-- `max_connections`.
pub two_creators_overshoot :
    (valid : ℕ → Bool) (p : Pool) (now : ℕ)
    → p.idle ≡ []
    → length p.all + 1 ≡ p.max_connections
    → let (first, p1) = acquire valid p now in
      let (second, p2) = acquire valid p1 now in
      let p3 = (created true p2 0 now).1 in
      let p4 = (created true p3 0 now).1 in
      (first ≡ creates) × (second ≡ creates) × (length p4.all ≡ p.max_connections + 1)
unfolding acquire created
two_creators_overshoot valid p now e room = ground arith
