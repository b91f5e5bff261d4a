-- ===== src/Cancellation/Calls.antt =====
-- How often a callback is called (include/flowcoro/cancellation.h).
use flowcoro.Base.{occurrences, ℕ, ◌+◌, ◌≤◌, ◌≡◌, refl, false, List, [], ◌∷◌, arith}
use flowcoro.Cancellation.{
  Node, Firing, not_started, marking, testing, calling, finished, State, init, register,
  unregister_node, unregister, cancel, mark, mark_all, ids, fire, Event, registers, unregisters,
  cancels, fires, step, run,
}

-- The nodes that `fire_callbacks` may still come to.
abbrev pub pending : Firing → List Node → List ℕ
pending not_started nodes = ids nodes
pending marking nodes = ids nodes
pending (testing l) nodes = l
pending (calling i l) nodes = i ∷ l
pending finished nodes = []

abbrev pub to_come : State → List ℕ
to_come s = pending s.firing s.nodes

pub ids-unregister_node : (i : ℕ) (xs : List Node) → ids (unregister_node i xs) ≡ ids xs
unfolding ids unregister_node
ids-unregister_node i [] = refl
ids-unregister_node i (x ∷ xs) = ground (arith, ids-unregister_node i xs)

pub ids-mark_all : (xs : List Node) → ids (mark_all xs) ≡ ids xs
unfolding ids mark_all mark
ids-mark_all [] = refl
ids-mark_all (x ∷ xs) = ground (arith, ids-mark_all xs)

-- What holds of every callback `i`.
pub record IsOnce (s : State) (i : ℕ) : Type 0 where
  pub once : occurrences i s.calls + occurrences i (to_come s) ≤ 1
  pub new : s.next_id ≤ i → occurrences i s.calls + occurrences i (to_come s) ≡ 0
  pub waits : s.cancelled ≡ false → s.firing ≡ not_started

register-IsOnce : (s : State) (i : ℕ) → IsOnce s i → IsOnce (register s) i
unfolding register ids
register-IsOnce s i o = ground arith

unregister-IsOnce : (s : State) (j i : ℕ) → IsOnce s i → IsOnce (unregister s j) i
unfolding unregister
unregister-IsOnce s j i o = ground (arith, ids-unregister_node j s.nodes)

cancel-IsOnce : (s : State) (i : ℕ) → IsOnce s i → IsOnce (cancel s) i
unfolding cancel
cancel-IsOnce s i o = ground arith

fire-IsOnce : (f : Firing) (s : State) (i : ℕ) → s.firing ≡ f → IsOnce s i → IsOnce (fire f s) i
unfolding fire
fire-IsOnce not_started s i e o = o
fire-IsOnce marking s i e o = ground arith
fire-IsOnce (testing []) s i e o = ground arith
fire-IsOnce (testing (j ∷ rest)) s i e o = ground arith
fire-IsOnce (calling j rest) s i e o = ground arith
fire-IsOnce finished s i e o = o

step-IsOnce : (s : State) (e : Event) (i : ℕ) → IsOnce s i → IsOnce (step s e) i
unfolding step
step-IsOnce s registers i o = register-IsOnce s i o
step-IsOnce s (unregisters j) i o = unregister-IsOnce s j i o
step-IsOnce s cancels i o = cancel-IsOnce s i o
step-IsOnce s fires i o = fire-IsOnce s.firing s i refl o

run-IsOnce : (s : State) (es : List Event) (i : ℕ) → IsOnce s i → IsOnce (run s es) i
unfolding run
run-IsOnce s [] i o = o
run-IsOnce s (e ∷ es) i o = run-IsOnce (step s e) es i (step-IsOnce s e i o)

init-IsOnce : (i : ℕ) → IsOnce init i
unfolding init ids
init-IsOnce i = ground arith

-- In every interleaving from a new source no callback is called twice.
pub called_at_most_once : (es : List Event) (i : ℕ) → occurrences i (run init es).calls ≤ 1
called_at_most_once es i = let o = run-IsOnce init es i (init-IsOnce i) in omega (arith, o.once)
