-- ===== src/Pool/Validation.antt =====
-- What the pool checks of a connection before it hands it out.
use flowcoro.Base.{ℕ, zero, suc, ◌≡◌, refl, Bool, true, some, List, [], ◌∷◌, arith, length, add64}
use flowcoro.Pool.State.{Pool, count_failed, remove_connection}
use flowcoro.Pool.Lease.{got, try_get, acquire}

try_get-valid_at :
    (valid : ℕ → Bool) (fuel : ℕ) (p : Pool) (c : ℕ) (queue : List ℕ)
    → p.idle ≡ queue
    → ((q : Pool)
        → q.validate_on_acquire ≡ true
        → (try_get valid fuel q).0 ≡ some c
        → valid c ≡ true)
    → p.validate_on_acquire ≡ true
    → (try_get valid (suc fuel) p).0 ≡ some c
    → valid c ≡ true
unfolding try_get
try_get-valid_at valid fuel p c [] e ih on h = ground arith
try_get-valid_at valid fuel p c (x ∷ rest) e ih on h =
    ground (arith, ih (remove_connection (count_failed (record p { idle = rest })) x) on)

try_get-valid :
    (valid : ℕ → Bool) (fuel : ℕ) (p : Pool) (c : ℕ)
    → p.validate_on_acquire ≡ true
    → (try_get valid fuel p).0 ≡ some c
    → valid c ≡ true
unfolding try_get
try_get-valid valid zero p c on h = cc
try_get-valid valid (suc fuel) p c on h =
    try_get-valid_at valid fuel p c p.idle refl (λ q. try_get-valid valid fuel q c) on h

abbrev asked : Pool → Pool
asked p = record p { stats = record p.stats { total_requests = add64 p.total_requests 1 } }

-- A pool that validates on acquire hands out at once only a connection that is valid, whatever
-- stands before it in the queue.
pub acquire_validated :
    (valid : ℕ → Bool) (p : Pool) (now c : ℕ)
    → p.validate_on_acquire ≡ true
    → (acquire valid p now).0 ≡ got c
    → valid c ≡ true
unfolding acquire
acquire_validated valid p now c on h =
    ground (arith, try_get-valid valid (length p.idle) (asked p) c)
