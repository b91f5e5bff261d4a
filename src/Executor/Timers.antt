-- ===== src/Executor/Timers.antt =====
-- The timers that `process_timers` fires and the ones that it leaves.
use mathlib.Core.Path.{subst}
use flowcoro.Base.{
  ℕ, zero, suc, ◌+◌, ◌≤◌, ◌≡◌, refl, Bool, true, ◌&&◌, Option, none, some, List, [], ◌∷◌, length,
  leb, Bool-cases, inl, inr, arith, occurrences,
}
use flowcoro.Executor.{Timer, earliest, due, handles}

-- Every deadline is `least` or later.
abbrev pub all_from : ℕ → List Timer → Bool
all_from least [] = true
all_from least (t ∷ ts) = leb least t.deadline && all_from least ts

-- The deadlines never fall.
abbrev pub in_order : List Timer → Bool
in_order [] = true
in_order (t ∷ ts) = all_from t.deadline ts && in_order ts

-- Every deadline has come.
abbrev pub all_by : ℕ → List Timer → Bool
all_by now [] = true
all_by now (t ∷ ts) = leb t.deadline now && all_by now ts

all_from_trans : (a b : ℕ) (ts : List Timer) → a ≤ b → all_from b ts ≡ true → all_from a ts ≡ true
all_from_trans a b [] h all = refl
all_from_trans a b (t ∷ ts) h all = ground (arith, all_from_trans a b ts)

-- What `earliest` says of the entries that it splits.
abbrev Split : List Timer → Option (Timer × List Timer) → Type 0
Split ts none = ts ≡ []
Split ts (some (m, rest)) =
    (length ts ≡ suc (length rest))
    × (all_from m.deadline rest ≡ true)
    × (all_from m.deadline ts ≡ true)
    × ((i : ℕ) → occurrences i (handles ts) ≡ occurrences i (m.handle ∷ handles rest))
    × ((least : ℕ) → all_from least ts ≡ true → (least ≤ m.deadline) × (all_from least rest ≡ true))

earliest-Split_at :
    (t : Timer) (ts : List Timer) (o : Option (Timer × List Timer))
    → earliest ts ≡ o
    → Split ts o
    → Split (t ∷ ts) (earliest (t ∷ ts))
unfolding earliest
earliest-Split_at t ts none e s =
    rw (e, s) (refl, refl, ground arith, λ i. refl, λ least h. (ground arith, refl))
earliest-Split_at t ts (some (m, rest)) e (len, low, all, same, from) =
    rw e (elim (Bool-cases (leb t.deadline m.deadline)) [
      | inl first ↦ rw first (
        refl,
        all_from_trans t.deadline m.deadline ts (ground arith) all,
        ground (arith, all_from_trans t.deadline m.deadline ts),
        λ i. refl,
        λ least h. ground arith,
      )
      | inr later ↦ rw later (
        omega arith,
        ground arith,
        ground arith,
        λ i. omega (arith, same i),
        λ least h. ground (arith, from least),
      )
    ])

earliest-Split : (ts : List Timer) → Split ts (earliest ts)
unfolding earliest
earliest-Split [] = refl
earliest-Split (t ∷ ts) = earliest-Split_at t ts (earliest ts) refl (earliest-Split ts)

earliest-some :
    (ts : List Timer) (m : Timer) (rest : List Timer)
    → earliest ts ≡ some (m, rest)
    → Split ts (some (m, rest))
earliest-some ts m rest e = subst (Split ts) e (earliest-Split ts)

earliest-none : (ts : List Timer) → earliest ts ≡ none → ts ≡ []
earliest-none ts e = subst (Split ts) e (earliest-Split ts)

-- What the loop fires and what it leaves.
pub record Fired (now : ℕ) (ts : List Timer) (r : List Timer × List Timer) : Type 0 where
  pub over : (least : ℕ) → all_from least ts ≡ true → all_from least r.0 ≡ true
  pub ordered : in_order r.0 ≡ true
  pub left : all_from (suc now) r.1 ≡ true
  pub reached : all_by now r.0 ≡ true
  pub same :
      (i : ℕ)
      → occurrences i (handles ts) ≡ occurrences i (handles r.0) + occurrences i (handles r.1)

due-Fired_at :
    (fuel now : ℕ) (ts : List Timer) (o : Option (Timer × List Timer))
    → earliest ts ≡ o
    → ((us : List Timer) → length us ≤ fuel → Fired now us (due fuel now us))
    → length ts ≤ suc fuel
    → Fired now ts (due (suc fuel) now ts)
unfolding due
due-Fired_at fuel now ts none e ih h =
    let gone = earliest-none ts e in
    rw (e, gone, due)
      record {
        over = λ least a. refl;
        ordered = refl;
        left = refl;
        reached = refl;
        same = λ i. omega arith;
      }
due-Fired_at fuel now ts (some (m, rest)) e ih h =
    let (len, low, all, same, from) = earliest-some ts m rest e in
    let later = ih rest (omega arith) in
    elim (Bool-cases (leb m.deadline now)) [
      | inl come ↦
          rw (e, come, due)
            record {
              over = λ least a. ground (arith, from least, later.over least);
              ordered = ground (arith, later.over m.deadline, later.ordered);
              left = later.left;
              reached = ground (arith, later.reached);
              same = λ i. omega (arith, same i, later.same i);
            }
      | inr early ↦
          rw (e, early, due)
            record {
              over = λ least a. refl;
              ordered = refl;
              left = all_from_trans (suc now) m.deadline ts (ground arith) all;
              reached = refl;
              same = λ i. omega arith;
            }
    ]

pub due-Fired : (fuel now : ℕ) (ts : List Timer) → length ts ≤ fuel → Fired now ts (due fuel now ts)
unfolding due
due-Fired zero now [] h = record {
  over = λ least a. refl;
  ordered = refl;
  left = refl;
  reached = refl;
  same = λ i. omega arith;
}
due-Fired zero now (t ∷ ts) h = absurd (omega arith)
due-Fired (suc fuel) now ts h =
    due-Fired_at fuel now ts (earliest ts) refl (λ us. due-Fired fuel now us) h

-- The timers that a tick pops come in the order of their deadlines and are due, and those that it
-- leaves have later deadlines than the time of the tick.
pub timers_in_order :
    (now : ℕ) (ts : List Timer)
    → let (fired, rest) = due (length ts) now ts in
      (in_order fired ≡ true) × (all_by now fired ≡ true) × (all_from (suc now) rest ≡ true)
timers_in_order now ts =
    let f = due-Fired (length ts) now ts (omega arith) in (f.ordered, f.reached, f.left)
