-- ===== src/StringBuffer/Growth.antt =====
-- The loop that doubles the capacity.
use flowcoro.Base.{
  ℕ, zero, suc, ◌+◌, ◌*◌, ◌^◌, ◌%◌, ◌≤◌, ◌<◌, ◌≡◌, refl, ap, true, none, some, ltb, word, arith,
  Bool-cases, mod_twice, ◌-◌, inl, inr, ◌⊎◌,
}
use flowcoro.StringBuffer.{grow, growth_fuel}
use native.Mathlib.Nat.{pow-suc, zero-add, suc-add}

record Grown (fuel capacity required : ℕ) : Type 0 where
  new_capacity : ℕ
  found : grow fuel capacity required ≡ some new_capacity
  enough : required ≤ new_capacity
  least : (new_capacity ≡ capacity) ⊎ (new_capacity < required * 2)

grow_again :
    (fuel capacity required : ℕ)
    → capacity < required
    → required * 2 ≤ word
    → Grown fuel (capacity * 2 % word) required
    → Grown (suc fuel) capacity required
unfolding grow
grow_again fuel capacity required below fits g = record {
  new_capacity = g.new_capacity;
  found = ground (arith, g.found);
  enough = g.enough;
  least = inr (ground (arith, g.least));
}

grow-Grown :
    (fuel capacity required : ℕ)
    → required ≤ capacity * 2 ^ fuel
    → required * 2 ≤ word
    → Grown fuel capacity required
unfolding grow
grow-Grown zero capacity required reach fits = record {
  new_capacity = capacity;
  found = ground arith;
  enough = omega arith;
  least = inl refl;
}
grow-Grown (suc fuel) capacity required reach fits = elim (Bool-cases (ltb capacity required)) [
  | inl below ↦
      grow_again fuel capacity required (ground arith) fits
        (grow-Grown fuel (capacity * 2 % word) required (doubled below) fits)
  | inr met ↦ record {
    new_capacity = capacity;
    found = ground arith;
    enough = ground arith;
    least = inl refl;
  }
]
  where
    doubled : ltb capacity required ≡ true → required ≤ capacity * 2 % word * 2 ^ fuel
    doubled below =
        let same : capacity * 2 % word ≡ capacity * 2 = ground arith in
        rw same (omega (arith, ap (λ (t : ℕ). capacity * t) (pow-suc 2 fuel)))

-- From capacity 0 the loop makes no progress.
pub grow_zero : (fuel required : ℕ) → 0 < required → grow fuel 0 required ≡ none
unfolding grow
grow_zero zero required some_room = ground arith
grow_zero (suc fuel) required some_room = ground (arith, grow_zero fuel required some_room)

-- Once the bits of the capacity have gone, no further round helps.
grow_on :
    (fuel more q capacity required : ℕ)
    → capacity < word
    → capacity * 2 ^ fuel ≡ q * word
    → grow fuel capacity required ≡ none
    → grow (fuel + more) capacity required ≡ none
unfolding grow
grow_on zero more q capacity required fits lost stuck =
    let empty : capacity ≡ 0 = omega arith in
    rw (empty, zero-add) (grow_zero more required (ground (arith, stuck)))
grow_on (suc fuel) more q capacity required fits lost stuck =
    elim (mod_twice word (capacity * 2) (omega arith)) [
      | inl (below, same) ↦ rw suc-add (
          ground (
            arith,
            grow_on fuel more q (capacity * 2 % word) required (omega arith)
                (rw same (omega (arith, ap (λ (t : ℕ). capacity * t) (pow-suc 2 fuel)))),
          ))
      | inr (over, less) ↦ rw suc-add (
          ground (
            arith,
            grow_on fuel more (q - 2 ^ fuel) (capacity * 2 % word) required (omega arith) (
                omega (
                  arith,
                  ap (λ (t : ℕ). t * 2 ^ fuel) less,
                  ap (λ (t : ℕ). capacity * t) (pow-suc 2 fuel),
                )),
          ))
    ]

-- The rounds of the model are all that matter: a loop that has not ended by then never does.
pub hangs_for_ever :
    (more capacity required : ℕ)
    → capacity < word
    → grow growth_fuel capacity required ≡ none
    → grow (growth_fuel + more) capacity required ≡ none
hangs_for_ever more capacity required fits stuck =
    grow_on growth_fuel more capacity capacity required fits refl stuck

pub record Room (capacity required : ℕ) : Type 0 where
  pub new_capacity : ℕ
  pub found : grow growth_fuel capacity required ≡ some new_capacity
  pub enough : required ≤ new_capacity
  pub least : new_capacity < required * 2

-- A capacity other than 0 is doubled until the bytes fit, and no further.
pub grow-Room :
    (capacity required : ℕ)
    → 0 < capacity
    → capacity < required
    → required * 2 ≤ word
    → Room capacity required
grow-Room capacity required some_room below fits =
    let g = grow-Grown growth_fuel capacity required (omega arith) fits in
    record {
      new_capacity = g.new_capacity;
      found = g.found;
      enough = g.enough;
      least = ground (arith, g.least, g.enough);
    }
