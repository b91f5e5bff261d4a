-- ===== src/Pool/Fuel.antt =====
-- The loops of the pool and their fuel (include/flowcoro/db/connection_pool.h).
use flowcoro.Base.{
  ℕ, zero, suc, ◌+◌, ◌-◌, ◌≤◌, ◌≡◌, refl, sym, ap, ◌∙◌, Bool, ◌&&◌, none, List, [], ◌∷◌, ◌++◌,
  arith, length, ltb, if◌then◌else◌, sub64, add64,
}
use flowcoro.Pool.State.{Pool, count_failed, remove_connection}
use flowcoro.Pool.Lease.{try_get, acquire, can_create, waits}
use flowcoro.Pool.Upkeep.{clean}
use flowcoro.Pool.Capacity.{length-without-le}

try_get-empties_at :
    (valid : ℕ → Bool) (fuel : ℕ) (p : Pool) (queue : List ℕ)
    → p.idle ≡ queue
    → ((q : Pool)
        → length q.idle ≤ fuel
        → (try_get valid fuel q).0 ≡ none
        → (try_get valid fuel q).1.idle ≡ [])
    → length p.idle ≤ suc fuel
    → (try_get valid (suc fuel) p).0 ≡ none
    → (try_get valid (suc fuel) p).1.idle ≡ []
unfolding try_get remove_connection
try_get-empties_at valid fuel p [] e ih fits h = ground arith
try_get-empties_at valid fuel p (c ∷ rest) e ih fits h = ground (
  arith,
  length-without-le c rest,
  ih (remove_connection (count_failed (record p { idle = rest })) c),
)

pub try_get-empties :
    (valid : ℕ → Bool) (fuel : ℕ) (p : Pool)
    → length p.idle ≤ fuel
    → (try_get valid fuel p).0 ≡ none
    → (try_get valid fuel p).1.idle ≡ []
unfolding try_get
try_get-empties valid zero p fits h = ground arith
try_get-empties valid (suc fuel) p fits h =
    try_get-empties_at valid fuel p p.idle refl (λ q. try_get-empties valid fuel q) fits h

-- One round of the clean-up on a queue that is not empty.
clean-round :
    (fuel : ℕ) (p : Pool) (now : ℕ) (kept : List ℕ) (removed c : ℕ) (rest : List ℕ)
    → p.idle ≡ c ∷ rest
    → clean (suc fuel) p now kept removed ≡ (
        if ltb p.idle_timeout (now - p.last_used c)
          && ltb p.min_connections (sub64 (length p.all) removed)
        then clean fuel (remove_connection (record p { idle = rest }) c) now kept (removed + 1)
        else clean fuel (record p { idle = rest }) now (kept ++ (c ∷ [])) removed)
unfolding clean
clean-round fuel p now kept removed c rest e = ground arith

clean-stop :
    (fuel : ℕ) (p : Pool) (now : ℕ) (kept : List ℕ) (removed : ℕ)
    → p.idle ≡ []
    → clean (suc fuel) p now kept removed ≡ (record p { idle = kept }, removed)
unfolding clean
clean-stop fuel p now kept removed e = ground arith

clean_fuel_at :
    (fuel : ℕ) (p : Pool) (now : ℕ) (kept : List ℕ) (removed : ℕ) (queue : List ℕ)
    → p.idle ≡ queue
    → ((q : Pool) (kept : List ℕ) (removed : ℕ)
        → length q.idle ≤ fuel
        → clean (suc fuel) q now kept removed ≡ clean fuel q now kept removed)
    → length p.idle ≤ suc fuel
    → clean (suc (suc fuel)) p now kept removed ≡ clean (suc fuel) p now kept removed
unfolding remove_connection
clean_fuel_at fuel p now kept removed [] e ih fits =
    clean-stop (suc fuel) p now kept removed e ∙ sym (clean-stop fuel p now kept removed e)
clean_fuel_at fuel p now kept removed (c ∷ rest) e ih fits =
    clean-round (suc fuel) p now kept removed c rest e
    ∙ branches
    ∙ sym (clean-round fuel p now kept removed c rest e)
  where
    short : length rest ≤ fuel
    short = ground arith

    test : Bool
    test =
        ltb p.idle_timeout (now - p.last_used c)
        && ltb p.min_connections (sub64 (length p.all) removed)

    branches :
        (if test
          then clean
              (suc fuel)
              (remove_connection (record p { idle = rest }) c)
              now
              kept
              (removed + 1)
          else clean (suc fuel) (record p { idle = rest }) now (kept ++ (c ∷ [])) removed)
        ≡ (if test
            then clean fuel (remove_connection (record p { idle = rest }) c) now kept (removed + 1)
            else clean fuel (record p { idle = rest }) now (kept ++ (c ∷ [])) removed)
    branches =
        ap
          (λ x.
            if test
            then x
            else clean (suc fuel) (record p { idle = rest }) now (kept ++ (c ∷ [])) removed)
          (ih (remove_connection (record p { idle = rest }) c) kept (removed + 1)
            (omega (arith, length-without-le c rest, short)))
        ∙ ap
            (λ x.
              if test
              then clean fuel (remove_connection (record p { idle = rest }) c) now kept
                  (removed + 1)
              else x)
            (ih (record p { idle = rest }) (kept ++ (c ∷ [])) removed short)

nothing_left : (xs : List ℕ) → length xs ≤ 0 → xs ≡ []
nothing_left [] h = refl
nothing_left (x ∷ xs) h = absurd (omega arith)

-- Fuel beyond the length of the queue changes nothing in the loop of a clean-up, which has ended
-- by then.
pub clean_fuel :
    (fuel : ℕ) (p : Pool) (now : ℕ) (kept : List ℕ) (removed : ℕ)
    → length p.idle ≤ fuel
    → clean (suc fuel) p now kept removed ≡ clean fuel p now kept removed
unfolding clean
clean_fuel zero p now kept removed fits = clean-stop 0 p now kept removed (nothing_left p.idle fits)
clean_fuel (suc fuel) p now kept removed fits =
    clean_fuel_at fuel p now kept removed p.idle refl
      (λ q kept removed. clean_fuel fuel q now kept removed) fits

-- `acquire_connection` sends its caller to wait only when it has left the queue empty and the set
-- holds at least `max_connections`.
pub waits_when_full :
    (valid : ℕ → Bool) (p : Pool) (now : ℕ)
    → (acquire valid p now).0 ≡ waits
    → let q = (acquire valid p now).1 in (q.idle ≡ []) × (q.max_connections ≤ length q.all)
unfolding acquire can_create
waits_when_full valid p now h =
    ground (arith, try_get-empties valid (length p.idle) asked (omega arith))
  where
    asked : Pool
    asked = record p { stats = record p.stats { total_requests = add64 p.total_requests 1 } }
