-- ===== src/WhenAny/Reading.antt =====
-- What the caller reads behind its await.
use flowcoro.Base.{
  ℕ, ◌≡◌, refl, ap, Bool, true, false, Option, none, some, List, [], ◌∷◌, arith, if◌then◌else◌,
}
use flowcoro.WhenAny.{
  Any, empty, Selector, works, has_lost, stores_index, stores_result, wakes, has_ended, Caller,
  asks, registers, checks_again, wakes_itself, has_suspended, goes_on, State, init, is_set,
  move_selector, selector_step, caller_step, resume_step, Event, selects, calls, resumes, step, run,
  times_out, with_timeout,
}
use flowcoro.WhenAny.Wakeup.{has_won, is_over, is_winner, IsSound, step-IsSound, init-IsSound}

-- A selector that has stored its index, and one that has stored the result.
abbrev has_stored : Selector → Bool
has_stored works = false
has_stored has_lost = false
has_stored stores_index = false
has_stored stores_result = true
has_stored wakes = true
has_stored has_ended = true

abbrev has_delivered : Selector → Bool
has_delivered works = false
has_delivered has_lost = false
has_delivered stores_index = false
has_delivered stores_result = false
has_delivered wakes = true
has_delivered has_ended = true

stored_won : (p : Selector) → has_stored p ≡ true → has_won p ≡ true
stored_won works h = absurd (cc)
stored_won has_lost h = absurd (cc)
stored_won stores_index h = absurd (cc)
stored_won stores_result h = refl
stored_won wakes h = refl
stored_won has_ended h = refl

delivered_won : (p : Selector) → has_delivered p ≡ true → has_won p ≡ true
delivered_won works h = absurd (cc)
delivered_won has_lost h = absurd (cc)
delivered_won stores_index h = absurd (cc)
delivered_won stores_result h = absurd (cc)
delivered_won wakes h = refl
delivered_won has_ended h = refl

over_delivered : (p : Selector) → is_over p ≡ true → has_delivered p ≡ true
over_delivered works h = absurd (cc)
over_delivered has_lost h = absurd (cc)
over_delivered stores_index h = absurd (cc)
over_delivered stores_result h = absurd (cc)
over_delivered wakes h = absurd (cc)
over_delivered has_ended h = refl

over_stored : (p : Selector) → is_over p ≡ true → has_stored p ≡ true
over_stored works h = absurd (cc)
over_stored has_lost h = absurd (cc)
over_stored stores_index h = absurd (cc)
over_stored stores_result h = absurd (cc)
over_stored wakes h = absurd (cc)
over_stored has_ended h = refl

only_winner : (w : Option ℕ) (i j : ℕ) → is_winner i w ≡ true → is_winner j w ≡ true → i ≡ j
only_winner none i j h k = absurd (cc)
only_winner (some n) i j h k = ground (arith, h, k)

module _ (outcome : ℕ → Any) where
  record IsSettled (s : State) : Type 0 where
    index : (i : ℕ) → has_stored (s.selector i) ≡ true → s.winner_index ≡ some i
    stored : (i : ℕ) → has_delivered (s.selector i) ≡ true → s.result ≡ outcome i

  selector_step-IsSettled :
      (s : State) (i : ℕ) (p : Selector)
      → s.selector i ≡ p
      → IsSound s
      → IsSettled s
      → IsSettled (selector_step outcome s i p)
  unfolding selector_step
  selector_step-IsSettled s i works at w v = try_win s.winner
    where
      try_win :
          (o : Option ℕ)
          → IsSettled (
              if is_set o
              then move_selector s i has_lost
              else move_selector (record s { winner = some i }) i stores_index)
      try_win none = record {
        index = λ j. ground (arith, at, v.index j);
        stored = λ j. ground (arith, at, v.stored j);
      }
      try_win (some k) = record {
        index = λ j. ground (arith, at, v.index j);
        stored = λ j. ground (arith, at, v.stored j);
      }
  selector_step-IsSettled s i has_lost at w v = v
  selector_step-IsSettled s i stores_index at w v = record {
    index = λ j h. ap some (
        ground
          (arith, at, h, stored_won (s.selector j), w.won i, w.won j, only_winner s.winner i j));
    stored = λ j. ground (arith, at, v.stored j);
  }
  selector_step-IsSettled s i stores_result at w v = record {
    index = λ j. ground (arith, at, v.index j, v.index i);
    stored = λ j h. ap outcome (
        ground
          (arith, at, h, delivered_won (s.selector j), w.won i, w.won j, only_winner s.winner i j));
  }
  selector_step-IsSettled s i wakes at w v = record {
    index = λ j. ground (arith, at, v.index j, v.index i);
    stored = λ j. ground (arith, at, v.stored j, v.stored i);
  }
  selector_step-IsSettled s i has_ended at w v = v

  caller_step-IsSettled : (s : State) (c : Caller) → IsSettled s → IsSettled (caller_step s c)
  unfolding caller_step
  caller_step-IsSettled s asks v = record { index = v.index; stored = v.stored }
  caller_step-IsSettled s registers v = record { index = v.index; stored = v.stored }
  caller_step-IsSettled s checks_again v = record { index = v.index; stored = v.stored }
  caller_step-IsSettled s wakes_itself v = record {
    index = λ j. ground (arith, v.index j);
    stored = λ j. ground (arith, v.stored j);
  }
  caller_step-IsSettled s has_suspended v = v
  caller_step-IsSettled s goes_on v = v

  step-IsSettled : (s : State) (e : Event) → IsSound s → IsSettled s → IsSettled (step outcome s e)
  unfolding step resume_step
  step-IsSettled s (selects i) w v = selector_step-IsSettled s i (s.selector i) refl w v
  step-IsSettled s calls w v = caller_step-IsSettled s s.caller v
  step-IsSettled s resumes w v = record {
    index = λ j. ground (arith, v.index j);
    stored = λ j. ground (arith, v.stored j);
  }

  run-IsSettled :
      (es : List Event) (s : State) → IsSound s → IsSettled s → IsSettled (run outcome s es)
  unfolding run
  run-IsSettled [] s w v = v
  run-IsSettled (e ∷ es) s w v =
      run-IsSettled es (step outcome s e) (step-IsSound outcome s e w) (step-IsSettled s e w v)

  init-IsSettled : IsSettled init
  unfolding init
  init-IsSettled = record { index = λ j h. absurd (cc); stored = λ j h. absurd (cc) }

  -- In every interleaving of `when_any`, once a selector has ended as the winner, the index and
  -- the result are its own, whatever the others do.
  pub settled_after_end :
      (es : List Event) (i : ℕ)
      → is_over ((run outcome init es).selector i) ≡ true
      → ((run outcome init es).winner_index ≡ some i) × ((run outcome init es).result ≡ outcome i)
  settled_after_end es i over =
      let v = run-IsSettled es init init-IsSound init-IsSettled in
      (v.index i (over_stored _ over), v.stored i (over_delivered _ over))

  -- Whichever task ends first and whatever it gives, a caller that comes to its await right after
  -- the winner's exchange goes on with no index and no result, and `with_timeout` takes that for
  -- a timeout.
  pub early_reading :
      (i : ℕ)
      → ((run outcome init (selects i ∷ calls ∷ resumes ∷ [])).reads ≡ (none, empty) ∷ [])
        × (with_timeout (none, empty) ≡ times_out)
  unfolding run step init selector_step caller_step resume_step with_timeout
  early_reading i = (refl, refl)
