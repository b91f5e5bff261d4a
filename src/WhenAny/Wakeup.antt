-- ===== src/WhenAny/Wakeup.antt =====
-- How often the caller is scheduled.
use flowcoro.Base.{
  ℕ, ◌+◌, ◌≡◌, ◌≤◌, refl, Bool, true, false, Option, none, some, List, [], ◌∷◌, length, ltb, ◌==◌,
  arith, if◌then◌else◌, Bool-cases, inl, inr,
}
use flowcoro.WhenAny.{
  Any, Selector, works, has_lost, stores_index, stores_result, wakes, has_ended, Caller, asks,
  registers, checks_again, wakes_itself, has_suspended, goes_on, State, init, is_set, move_selector,
  selector_step, caller_step, resume_step, never_suspends, Event, selects, calls, resumes, step,
  run,
}

abbrev pub one_if : Bool → ℕ
one_if true = 1
one_if false = 0

-- The address has been stored.
abbrev pub has_registered : Caller → Bool
has_registered asks = false
has_registered registers = false
has_registered checks_again = true
has_registered wakes_itself = true
has_registered has_suspended = true
has_registered goes_on = false

abbrev pub is_suspended : Caller → Bool
is_suspended asks = false
is_suspended registers = false
is_suspended checks_again = false
is_suspended wakes_itself = false
is_suspended has_suspended = true
is_suspended goes_on = false

abbrev pub is_over : Selector → Bool
is_over works = false
is_over has_lost = false
is_over stores_index = false
is_over stores_result = false
is_over wakes = false
is_over has_ended = true

-- The selector is the winner.
abbrev pub has_won : Selector → Bool
has_won works = false
has_won has_lost = false
has_won stores_index = true
has_won stores_result = true
has_won wakes = true
has_won has_ended = true

abbrev pub is_winner : ℕ → Option ℕ → Bool
is_winner i none = false
is_winner i (some j) = i == j

pub record IsSound (s : State) : Type 0 where
  pub won : (i : ℕ) → has_won (s.selector i) ≡ is_winner i s.winner
  pub tokens : one_if s.waiter + s.scheduled ≡ one_if (has_registered s.caller)
  pub awaited :
      (i : ℕ) → is_suspended s.caller ≡ true → is_over (s.selector i) ≡ true → s.waiter ≡ false
  pub once : length s.reads ≤ s.scheduled + one_if (never_suspends s.caller)

over_won : (p : Selector) → is_over p ≡ true → has_won p ≡ true
over_won works h = absurd (cc)
over_won has_lost h = absurd (cc)
over_won stores_index h = absurd (cc)
over_won stores_result h = absurd (cc)
over_won wakes h = absurd (cc)
over_won has_ended h = refl

try_win-IsSound :
    (s : State) (i : ℕ)
    → s.selector i ≡ works
    → IsSound s
    → (w : Option ℕ) → s.winner ≡ w
    → IsSound (
        if is_set w
        then move_selector s i has_lost
        else move_selector (record s { winner = some i }) i stores_index)
try_win-IsSound s i at v none free = record {
  won = λ j. ground (arith, at, free, v.won j);
  tokens = v.tokens;
  awaited = λ j. ground (arith, v.awaited j);
  once = v.once;
}
try_win-IsSound s i at v (some k) taken = record {
  won = λ j. ground (arith, at, v.won i, v.won j);
  tokens = v.tokens;
  awaited = λ j. ground (arith, v.awaited j);
  once = v.once;
}

selector_step-IsSound :
    (outcome : ℕ → Any) (s : State) (i : ℕ) (p : Selector)
    → s.selector i ≡ p
    → IsSound s
    → IsSound (selector_step outcome s i p)
unfolding selector_step
selector_step-IsSound outcome s i works at v = try_win-IsSound s i at v s.winner refl
selector_step-IsSound outcome s i has_lost at v = v
selector_step-IsSound outcome s i stores_index at v = record {
  won = λ j. ground (arith, at, v.won i, v.won j);
  tokens = v.tokens;
  awaited = λ j. ground (arith, at, v.awaited j);
  once = v.once;
}
selector_step-IsSound outcome s i stores_result at v = record {
  won = λ j. ground (arith, at, v.won i, v.won j);
  tokens = v.tokens;
  awaited = λ j. ground (arith, at, v.awaited j);
  once = v.once;
}
selector_step-IsSound outcome s i wakes at v = record {
  won = λ j. ground (arith, at, v.won i, v.won j);
  tokens = ground (arith, v.tokens);
  awaited = λ j. ground (arith, at, v.awaited j);
  once = ground (arith, v.once);
}
selector_step-IsSound outcome s i has_ended at v = v

caller_step-IsSound :
    (s : State) (c : Caller) → s.caller ≡ c → IsSound s → IsSound (caller_step s c)
unfolding caller_step
caller_step-IsSound s asks at v = record {
  won = v.won;
  tokens = ground (arith, at, v.tokens);
  awaited = λ j. ground arith;
  once = ground (arith, at, v.once);
}
caller_step-IsSound s registers at v = record {
  won = v.won;
  tokens = ground (arith, at, v.tokens);
  awaited = λ j h. absurd (cc);
  once = ground (arith, at, v.once);
}
caller_step-IsSound s checks_again at v = check_again s.winner refl
  where
    check_again :
        (w : Option ℕ)
        → s.winner ≡ w
        → IsSound (record s { caller = if is_set w then wakes_itself else has_suspended })
    check_again none free = record {
      won = v.won;
      tokens = ground (arith, at, v.tokens);
      awaited = λ j h over. ground (arith, free, v.won j, over_won (s.selector j) over);
      once = ground (arith, at, v.once);
    }
    check_again (some k) taken = record {
      won = v.won;
      tokens = ground (arith, at, v.tokens);
      awaited = λ j h. absurd (cc);
      once = ground (arith, at, v.once);
    }
caller_step-IsSound s wakes_itself at v = record {
  won = ground (arith, v.won);
  tokens = ground (arith, at, v.tokens);
  awaited = λ j. ground arith;
  once = ground (arith, at, v.once);
}
caller_step-IsSound s has_suspended at v = v
caller_step-IsSound s goes_on at v = v

resume_step-IsSound : (s : State) → IsSound s → IsSound (resume_step s)
unfolding resume_step
resume_step-IsSound s v =
    elim (Bool-cases
      (ltb (length s.reads) (s.scheduled + (if never_suspends s.caller then 1 else 0)))) [
        | inl goes ↦
            rw (goes, resume_step)
              record {
                won = v.won;
                tokens = v.tokens;
                awaited = v.awaited;
                once = ground (arith, goes);
              }
        | inr stays ↦ rw (stays, resume_step) v
      ]

pub step-IsSound :
    (outcome : ℕ → Any) (s : State) (e : Event) → IsSound s → IsSound (step outcome s e)
unfolding step
step-IsSound outcome s (selects i) v = selector_step-IsSound outcome s i (s.selector i) refl v
step-IsSound outcome s calls v = caller_step-IsSound s s.caller refl v
step-IsSound outcome s resumes v = resume_step-IsSound s v

pub run-IsSound :
    (outcome : ℕ → Any) (es : List Event) (s : State) → IsSound s → IsSound (run outcome s es)
unfolding run
run-IsSound outcome [] s v = v
run-IsSound outcome (e ∷ es) s v =
    run-IsSound outcome es (step outcome s e) (step-IsSound outcome s e v)

pub init-IsSound : IsSound init
unfolding init
init-IsSound = record {
  won = λ i. refl;
  tokens = refl;
  awaited = λ i h. absurd (cc);
  once = omega arith;
}

-- In every interleaving of `when_any` the caller comes behind its await at most once.
pub resumed_at_most_once :
    (outcome : ℕ → Any) (es : List Event) → length (run outcome init es).reads ≤ 1
resumed_at_most_once outcome es =
    let v = run-IsSound outcome es init init-IsSound in
    at_most_one (run outcome init es).caller (run outcome init es).waiter _ _ v.tokens v.once
  where
    at_most_one :
        (c : Caller) (w : Bool) (n k : ℕ)
        → one_if w + n ≡ one_if (has_registered c)
        → k ≤ n + one_if (never_suspends c)
        → k ≤ 1
    at_most_one c w n k h j = ground arith
