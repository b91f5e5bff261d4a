-- ===== src/Monitor/Race.antt =====
-- The compare-and-swap loop by which `record_request_success` raises a maximum, run by several
-- threads on one counter. A step of a thread is its load, or one test with the exchange that follows.
use flowcoro.Base.{
  ℕ, ◌≡◌, ◌≤◌, refl, ◌∙◌, Bool, true, false, not, ◌&&◌, ◌||◌, List, [], ◌∷◌, ltb, leb, ◌==◌, arith,
  if◌then◌else◌, update, Bool-cases, inl, inr,
}

-- Where a thread stands: before its load, in the loop with what it last saw, or behind it.
pub data Place : Type 0 where
  begins : Place
  tries : ℕ → Place
  ends : Place

pub record Counter : Type 0 where
  pub maximum : ℕ
  pub place : ℕ → Place  -- of each thread

-- A round: the exchange may fail although the value is as it was last seen (`spurious`).
unfoldable pub try_round : Bool → ℕ → ℕ → ℕ → Place × ℕ
try_round spurious value seen current =
    if ltb seen value
    then if (current == seen) && not spurious then (ends, value) else (tries current, current)
    else (ends, current)

unfoldable pub thread_step : Bool → ℕ → Place → ℕ → Place × ℕ
unfolding try_round
thread_step spurious value begins current = (tries current, current)
thread_step spurious value (tries seen) current = try_round spurious value seen current
thread_step spurious value ends current = (ends, current)

module _ (value : ℕ → ℕ) where
  unfoldable pub race_step : Counter → ℕ × Bool → Counter
  unfolding thread_step
  race_step c (i, spurious) =
      let (p, n) = thread_step spurious (value i) (c.place i) c.maximum in
      record { maximum = n; place = update c.place i p }

  unfoldable pub race : Counter → List (ℕ × Bool) → Counter
  unfolding race_step
  race c [] = c
  race c (s ∷ ss) = race (race_step c s) ss

abbrev pub start : ℕ → Counter
start n = record { maximum = n; place = λ _. begins }

abbrev pub has_ended : Place → Bool
has_ended begins = false
has_ended (tries seen) = false
has_ended ends = true

-- What a thread last saw is no longer above the maximum, and a thread that has ended is covered.
abbrev covered : ℕ → Place → ℕ → Bool
covered value begins maximum = true
covered value (tries seen) maximum = leb seen maximum
covered value ends maximum = leb value maximum

-- A step covers its thread, lowers nothing, and sets the maximum only to the thread's value, at
-- its end.
record Advanced (value n : ℕ) (r : Place × ℕ) : Type 0 where
  is_covered : covered value r.0 r.1 ≡ true
  not_lower : n ≤ r.1
  own : ((r.1 == n) || ((r.1 == value) && has_ended r.0)) ≡ true

try_round-Advanced :
    (spurious : Bool) (value seen n : ℕ)
    → seen ≤ n
    → Advanced value n (try_round spurious value seen n)
unfolding try_round
try_round-Advanced spurious value seen n v = record {
  is_covered = ground arith;
  not_lower = ground arith;
  own = ground arith;
}

thread_step-Advanced :
    (spurious : Bool) (value : ℕ) (p : Place) (n : ℕ)
    → covered value p n ≡ true
    → Advanced value n (thread_step spurious value p n)
unfolding thread_step
thread_step-Advanced spurious value begins n v = record {
  is_covered = ground arith;
  not_lower = omega arith;
  own = ground arith;
}
thread_step-Advanced spurious value (tries seen) n v =
    try_round-Advanced spurious value seen n (ground (arith, v))
thread_step-Advanced spurious value ends n v = record {
  is_covered = v;
  not_lower = omega arith;
  own = ground arith;
}

covered_later :
    (value : ℕ) (p : Place) (n k : ℕ) → n ≤ k → covered value p n ≡ true → covered value p k ≡ true
covered_later value begins n k h v = refl
covered_later value (tries seen) n k h v = ground (arith, v)
covered_later value ends n k h v = ground (arith, v)

covered_ended :
    (value : ℕ) (p : Place) (n : ℕ) → has_ended p ≡ true → covered value p n ≡ true → value ≤ n
covered_ended value begins n e v = absurd (cc)
covered_ended value (tries seen) n e v = absurd (cc)
covered_ended value ends n e v = ground (arith, v)

-- The maximum is the first value or that of a thread that has ended.
pub data IsOwned (value : ℕ → ℕ) (first : ℕ) (c : Counter) : Type 0 where
  by_nobody : c.maximum ≡ first → IsOwned value first c
  by_thread : (i : ℕ) → c.maximum ≡ value i → has_ended (c.place i) ≡ true → IsOwned value first c

record IsCovered (value : ℕ → ℕ) (first : ℕ) (c : Counter) : Type 0 where
  each : (i : ℕ) → covered (value i) (c.place i) c.maximum ≡ true
  raised : first ≤ c.maximum
  owned : IsOwned value first c

has_ended_later :
    (spurious : Bool) (value : ℕ) (p : Place) (n : ℕ)
    → has_ended p ≡ true
    → has_ended (thread_step spurious value p n).0 ≡ true
unfolding thread_step
has_ended_later spurious value begins n e = e
has_ended_later spurious value (tries seen) n e = absurd (cc)
has_ended_later spurious value ends n e = refl

module _ (value : ℕ → ℕ) (first : ℕ) where
  IsOwned-race_step :
      (c : Counter) (i : ℕ) (spurious : Bool)
      → Advanced (value i) c.maximum (thread_step spurious (value i) (c.place i) c.maximum)
      → IsOwned value first c
      → IsOwned value first (race_step value c (i, spurious))
  unfolding race_step
  IsOwned-race_step c i spurious a o =
      elim (Bool-cases ((thread_step spurious (value i) (c.place i) c.maximum).1 == c.maximum)) [
        | inl same ↦ kept o (ground (arith, same))
        | inr new ↦ by_thread i (ground (arith, new, a.own)) (ground (arith, new, a.own))
      ]
    where
      kept :
          IsOwned value first c
          → (thread_step spurious (value i) (c.place i) c.maximum).1 ≡ c.maximum
          → IsOwned value first (race_step value c (i, spurious))
      kept (by_nobody e) same = by_nobody (same ∙ e)
      kept (by_thread j e over) same =
          by_thread j (same ∙ e)
            (ground (arith, over, has_ended_later spurious (value i) (c.place i) c.maximum))

  race_step-IsCovered :
      (c : Counter) (i : ℕ) (spurious : Bool)
      → IsCovered value first c
      → IsCovered value first (race_step value c (i, spurious))
  unfolding race_step
  race_step-IsCovered c i spurious v =
      let a = thread_step-Advanced spurious (value i) (c.place i) c.maximum (v.each i) in
      record {
        each = λ j. elim (Bool-cases (i == j)) [
          | inl e ↦ ground (arith, e, a.is_covered)
          | inr e ↦ rw e (covered_later (value j) (c.place j) c.maximum _ a.not_lower (v.each j))
        ];
        raised = omega (arith, a.not_lower, v.raised);
        owned = IsOwned-race_step c i spurious a v.owned;
      }

  race-IsCovered :
      (ss : List (ℕ × Bool)) (c : Counter)
      → IsCovered value first c
      → IsCovered value first (race value c ss)
  unfolding race
  race-IsCovered [] c v = v
  race-IsCovered ((i, spurious) ∷ ss) c v =
      race-IsCovered ss (race_step value c (i, spurious)) (race_step-IsCovered c i spurious v)

-- However the threads that raise a maximum interleave, and whichever exchanges fail for no
-- reason: once a thread has ended its loop, the maximum is at least its value and at least the
-- first one, and it is the first one or the value of a thread that has ended.
pub max_of_race :
    (value : ℕ → ℕ) (first : ℕ) (ss : List (ℕ × Bool)) (i : ℕ)
    → has_ended ((race value (start first) ss).place i) ≡ true
    → let c = race value (start first) ss in
      (first ≤ c.maximum) × (value i ≤ c.maximum) × IsOwned value first c
max_of_race value first ss i over =
    let v =
      race-IsCovered value first ss (start first)
        record { each = λ j. refl; raised = omega arith; owned = by_nobody refl } in
    (v.raised, covered_ended (value i) _ _ over (v.each i), v.owned)
