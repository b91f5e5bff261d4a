-- ===== src/Cancellation/Unregistered.antt =====
-- What `unregister_callback` achieves against a thread that is firing the callbacks.
use flowcoro.Base.{
  occurrences, ℕ, ◌<◌, ◌≡◌, refl, ◌∙◌, Bool, true, false, not, ◌&&◌, List, [], ◌∷◌, ◌==◌,
  if◌then◌else◌, arith,
}
use flowcoro.Cancellation.{
  Node, Firing, not_started, marking, testing, calling, finished, State, register, unregister_node,
  unregister, cancel, mark, mark_all, may_call, fire, Event, registers, unregisters, cancels, fires,
  step, run,
}

-- Each linked node of this number is unregistered.
abbrev pub gone : ℕ → List Node → Bool
gone i [] = true
gone i (x ∷ xs) = (if x.id == i then x.unregistered else true) && gone i xs

-- The firing thread is not between its test of this node and its call.
abbrev pub not_calling : ℕ → Firing → Bool
not_calling i (calling j l) = not (j == i)
not_calling i _ = true

gone-unregister_node : (i : ℕ) (xs : List Node) → gone i (unregister_node i xs) ≡ true
unfolding unregister_node
gone-unregister_node i [] = refl
gone-unregister_node i (x ∷ xs) = ground (arith, gone-unregister_node i xs)

gone-unregister_other :
    (i j : ℕ) (xs : List Node) → gone i xs ≡ true → gone i (unregister_node j xs) ≡ true
unfolding unregister_node
gone-unregister_other i j [] h = refl
gone-unregister_other i j (x ∷ xs) h = ground (arith, gone-unregister_other i j xs)

gone-mark_all : (i : ℕ) (xs : List Node) → gone i xs ≡ true → gone i (mark_all xs) ≡ true
unfolding mark_all mark
gone-mark_all i [] h = refl
gone-mark_all i (x ∷ xs) h = ground (arith, gone-mark_all i xs)

may_call-gone : (i : ℕ) (xs : List Node) → gone i xs ≡ true → may_call i xs ≡ false
unfolding may_call
may_call-gone i [] h = refl
may_call-gone i (x ∷ xs) h = ground (arith, may_call-gone i xs)

record IsGone (s : State) (i : ℕ) : Type 0 where
  old : i < s.next_id
  unlinked : gone i s.nodes ≡ true
  clear : not_calling i s.firing ≡ true

fire-IsGone :
    (f : Firing) (s : State) (i : ℕ)
    → s.firing ≡ f
    → IsGone s i
    → IsGone (fire f s) i × (occurrences i (fire f s).calls ≡ occurrences i s.calls)
unfolding fire
fire-IsGone not_started s i e g = (g, refl)
fire-IsGone marking s i e g = ground (arith, gone-mark_all i s.nodes g.unlinked)
fire-IsGone (testing []) s i e g = ground arith
fire-IsGone (testing (j ∷ rest)) s i e g = ground (arith, may_call-gone i s.nodes g.unlinked)
fire-IsGone (calling j rest) s i e g = ground arith
fire-IsGone finished s i e g = (g, refl)

step-IsGone :
    (s : State) (e : Event) (i : ℕ)
    → IsGone s i
    → IsGone (step s e) i × (occurrences i (step s e).calls ≡ occurrences i s.calls)
unfolding step register unregister cancel
step-IsGone s registers i g = ground arith
step-IsGone s (unregisters j) i g = ground (arith, gone-unregister_other i j s.nodes g.unlinked)
step-IsGone s cancels i g = ground arith
step-IsGone s fires i g = fire-IsGone s.firing s i refl g

run-IsGone :
    (s : State) (es : List Event) (i : ℕ)
    → IsGone s i
    → occurrences i (run s es).calls ≡ occurrences i s.calls
unfolding run
run-IsGone s [] i g = refl
run-IsGone s (e ∷ es) i g =
    let (g', same) = step-IsGone s e i g in run-IsGone (step s e) es i g' ∙ same

-- A registered callback that is unregistered while the firing thread is not between its test and
-- its call is not called from then on, whatever happens later.
pub unregister_stops_calls :
    (s : State) (i : ℕ) (es : List Event)
    → i < s.next_id
    → not_calling i s.firing ≡ true
    → occurrences i (run (unregister s i) es).calls ≡ occurrences i s.calls
unfolding unregister
unregister_stops_calls s i es old clear =
    run-IsGone (unregister s i) es i
      (record { old = old; unlinked = gone-unregister_node i s.nodes; clear = clear })

-- A callback that is unregistered after the firing thread has tested it is still called.
pub unregister_too_late :
    (s : State) (i : ℕ) (rest : List ℕ)
    → s.firing ≡ calling i rest
    → (run s (unregisters i ∷ fires ∷ [])).calls ≡ i ∷ s.calls
unfolding run step unregister fire
unregister_too_late s i rest e = ground arith
