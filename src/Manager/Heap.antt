-- ===== src/Manager/Heap.antt =====
-- The timers of the heap: which one `pop_top` takes.
use flowcoro.Base.{
  ℕ, suc, ◌≡◌, ◌≤◌, refl, Bool, true, ◌&&◌, Option, none, some, List, [], ◌∷◌, ◌++◌, leb, length,
  occurrences, arith, Bool-cases, inl, inr,
}
use mathlib.Core.Path.{subst}
use flowcoro.Manager.{TimerEntry, pop_top}

abbrev pub ids : List TimerEntry → List ℕ
ids [] = []
ids (t ∷ ts) = t.timer_id ∷ ids ts

-- Every time has come.
abbrev pub all_by : ℕ → List TimerEntry → Bool
all_by now [] = true
all_by now (t ∷ ts) = leb t.when now && all_by now ts

-- Every time is `least` or later.
abbrev pub all_from : ℕ → List TimerEntry → Bool
all_from least [] = true
all_from least (t ∷ ts) = leb least t.when && all_from least ts

pub all_from_trans :
    (a b : ℕ) (ts : List TimerEntry) → a ≤ b → all_from b ts ≡ true → all_from a ts ≡ true
all_from_trans a b [] h all = refl
all_from_trans a b (t ∷ ts) h all = ground (arith, all_from_trans a b ts)

pub all_by-append_one :
    (now : ℕ) (e : TimerEntry) (ts : List TimerEntry)
    → all_by now ts ≡ true
    → e.when ≤ now
    → all_by now (ts ++ e ∷ []) ≡ true
all_by-append_one now e [] a b = ground arith
all_by-append_one now e (t ∷ ts) a b = ground (arith, all_by-append_one now e ts)

pub occurrences-append_one :
    (i : ℕ) (e : TimerEntry) (ts : List TimerEntry)
    → occurrences i (ids (ts ++ e ∷ [])) ≡ occurrences i (e.timer_id ∷ ids ts)
occurrences-append_one i e [] = refl
occurrences-append_one i e (t ∷ ts) = ground (arith, occurrences-append_one i e ts)

-- What `pop_top` says of the entries that it splits.
abbrev pub Popped : List TimerEntry → Option (TimerEntry × List TimerEntry) → Type 0
Popped ts none = ts ≡ []
Popped ts (some (e, rest)) =
    (length ts ≡ suc (length rest))
    × (all_from e.when ts ≡ true)
    × ((i : ℕ) → occurrences i (ids ts) ≡ occurrences i (e.timer_id ∷ ids rest))

pop_top-Popped_at :
    (t : TimerEntry) (ts : List TimerEntry) (o : Option (TimerEntry × List TimerEntry))
    → pop_top ts ≡ o
    → Popped ts o
    → Popped (t ∷ ts) (pop_top (t ∷ ts))
unfolding pop_top
pop_top-Popped_at t ts none e s = rw (e, s) (refl, ground arith, λ i. refl)
pop_top-Popped_at t ts (some (m, rest)) e (len, all, same) =
    rw e (elim (Bool-cases (leb t.when m.when)) [
      | inl first ↦ rw first (refl, ground (arith, all_from_trans t.when m.when ts), λ i. refl)
      | inr later ↦ rw later (omega arith, ground arith, λ i. omega (arith, same i))
    ])

pub pop_top-Popped : (ts : List TimerEntry) → Popped ts (pop_top ts)
unfolding pop_top
pop_top-Popped [] = refl
pop_top-Popped (t ∷ ts) = pop_top-Popped_at t ts (pop_top ts) refl (pop_top-Popped ts)

pub popped :
    (ts : List TimerEntry) (o : Option (TimerEntry × List TimerEntry))
    → pop_top ts ≡ o
    → Popped ts o
popped ts o e = subst (Popped ts) e (pop_top-Popped ts)
