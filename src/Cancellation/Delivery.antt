-- ===== src/Cancellation/Delivery.antt =====
-- The delivery of a callback that is registered and stays so (include/flowcoro/cancellation.h).
use flowcoro.Base.{
  occurrences, ℕ, length, ◌-◌, ◌*◌, suc, ◌+◌, ◌≤◌, ◌<◌, ◌≡◌, ◌≢◌, refl, Bool, true, false, not,
  List, [], ◌∷◌, ◌==◌, if◌then◌else◌, arith,
}
use flowcoro.Cancellation.{
  Node, Firing, not_started, marking, testing, calling, finished, State, init, register,
  unregister_node, unregister, cancel, mark, mark_all, ids, may_call, fire, Event, registers,
  unregisters, cancels, fires, step, run,
}
use flowcoro.Cancellation.Calls.{to_come, ids-unregister_node}

-- The node is linked and nobody has unregistered it.
abbrev kept : ℕ → List Node → Bool
kept i [] = false
kept i (x ∷ xs) = if x.id == i then not x.unregistered else kept i xs

kept-unregister_node :
    (i j : ℕ) (xs : List Node) → j ≢ i → kept i (unregister_node j xs) ≡ kept i xs
unfolding unregister_node
kept-unregister_node i j [] ne = refl
kept-unregister_node i j (x ∷ xs) ne = ground (arith, kept-unregister_node i j xs ne)

may_call-unregister_node :
    (i j : ℕ) (xs : List Node) → j ≢ i → may_call i (unregister_node j xs) ≡ may_call i xs
unfolding unregister_node may_call
may_call-unregister_node i j [] ne = refl
may_call-unregister_node i j (x ∷ xs) ne = ground (arith, may_call-unregister_node i j xs ne)

may_call-mark_all : (i : ℕ) (xs : List Node) → kept i xs ≡ true → may_call i (mark_all xs) ≡ true
unfolding mark_all mark may_call
may_call-mark_all i [] h = cc
may_call-mark_all i (x ∷ xs) h = ground (arith, may_call-mark_all i xs)

-- The firing thread will find the node callable when it comes to it.
abbrev ready : ℕ → Firing → List Node → Bool
ready i not_started nodes = kept i nodes
ready i marking nodes = kept i nodes
ready i (testing l) nodes = may_call i nodes
ready i (calling j l) nodes = may_call i nodes
ready i finished nodes = true

-- What holds of a callback `i` that nobody unregisters.
record IsDue (s : State) (i : ℕ) : Type 0 where
  due : i < s.next_id → occurrences i s.calls + occurrences i (to_come s) ≡ 1
  new : s.next_id ≤ i → occurrences i s.calls + occurrences i (to_come s) ≡ 0
  callable : 0 < occurrences i (to_come s) → ready i s.firing s.nodes ≡ true
  waits : s.cancelled ≡ false → s.firing ≡ not_started

register-IsDue : (s : State) (i : ℕ) → IsDue s i → IsDue (register s) i
unfolding register ids
register-IsDue s i o = ground arith

unregister-IsDue : (s : State) (j i : ℕ) → j ≢ i → IsDue s i → IsDue (unregister s j) i
unfolding unregister
unregister-IsDue s j i ne o = ground (
  arith,
  ids-unregister_node j s.nodes,
  kept-unregister_node i j s.nodes ne,
  may_call-unregister_node i j s.nodes ne,
)

cancel-IsDue : (s : State) (i : ℕ) → IsDue s i → IsDue (cancel s) i
unfolding cancel
cancel-IsDue s i o = ground arith

fire-IsDue : (f : Firing) (s : State) (i : ℕ) → s.firing ≡ f → IsDue s i → IsDue (fire f s) i
unfolding fire
fire-IsDue not_started s i e o = o
fire-IsDue marking s i e o = ground (arith, may_call-mark_all i s.nodes)
fire-IsDue (testing []) s i e o = ground arith
fire-IsDue (testing (j ∷ rest)) s i e o = ground arith
fire-IsDue (calling j rest) s i e o = ground arith
fire-IsDue finished s i e o = o

-- No event of the history unregisters `i`.
abbrev pub Keeps : ℕ → List Event → Type 0
Keeps i [] = Unit {0}
Keeps i (unregisters j ∷ es) = (j ≢ i) × Keeps i es
Keeps i (registers ∷ es) = Keeps i es
Keeps i (cancels ∷ es) = Keeps i es
Keeps i (fires ∷ es) = Keeps i es

run-IsDue : (s : State) (es : List Event) (i : ℕ) → Keeps i es → IsDue s i → IsDue (run s es) i
unfolding run step
run-IsDue s [] i k o = o
run-IsDue s (registers ∷ es) i k o = run-IsDue (register s) es i k (register-IsDue s i o)
run-IsDue s (unregisters j ∷ es) i k o =
    run-IsDue (unregister s j) es i k.1 (unregister-IsDue s j i k.0 o)
run-IsDue s (cancels ∷ es) i k o = run-IsDue (cancel s) es i k (cancel-IsDue s i o)
run-IsDue s (fires ∷ es) i k o = run-IsDue (fire s.firing s) es i k (fire-IsDue s.firing s i refl o)

init-IsDue : (i : ℕ) → IsDue init i
unfolding init ids
init-IsDue i = ground arith

-- In every interleaving from a new source, once the firing thread has finished, a callback that
-- was registered, before the cancellation or after it, and that nobody unregisters has been
-- called exactly once.
pub called_exactly_once :
    (es : List Event) (i : ℕ)
    → Keeps i es
    → i < (run init es).next_id
    → (run init es).firing ≡ finished
    → occurrences i (run init es).calls ≡ 1
called_exactly_once es i k reg done =
    let o = run-IsDue init es i k (init-IsDue i) in ground (arith, o.due reg)

-- Steps that the firing thread has still to make.
abbrev pub fires_left : State → ℕ
fires_left s = work s.firing s.nodes
  where
    work : Firing → List Node → ℕ
    work not_started nodes = 0
    work marking nodes = 2 + 2 * length (ids nodes)
    work (testing l) nodes = 1 + 2 * length l
    work (calling i l) nodes = 2 + 2 * length l
    work finished nodes = 0

abbrev pub fires_in : List Event → ℕ
fires_in [] = 0
fires_in (fires ∷ es) = suc (fires_in es)
fires_in (registers ∷ es) = fires_in es
fires_in (unregisters i ∷ es) = fires_in es
fires_in (cancels ∷ es) = fires_in es

record IsFiring (s : State) : Type 0 where
  set : s.cancelled ≡ true
  begun : s.firing ≢ not_started

fire-IsFiring :
    (f : Firing) (s : State)
    → s.firing ≡ f
    → IsFiring s
    → IsFiring (fire f s) × (fires_left (fire f s) ≤ fires_left s - 1)
unfolding fire
fire-IsFiring not_started s e h = absurd (h.begun e)
fire-IsFiring marking s e h = ground arith
fire-IsFiring (testing []) s e h = ground arith
fire-IsFiring (testing (j ∷ rest)) s e h = ground arith
fire-IsFiring (calling j rest) s e h = ground arith
fire-IsFiring finished s e h = ground arith

step-IsFiring :
    (s : State) (e : Event)
    → IsFiring s
    → IsFiring (step s e) × (fires_left (step s e) ≤ fires_left s - fires_in (e ∷ []))
unfolding step register unregister cancel
step-IsFiring s registers h = ground arith
step-IsFiring s (unregisters i) h = ground (arith, ids-unregister_node i s.nodes)
step-IsFiring s cancels h = ground arith
step-IsFiring s fires h = fire-IsFiring s.firing s refl h

fires_left-eq-zero :
    (f : Firing) (s : State) → s.firing ≡ f → IsFiring s → fires_left s ≡ 0 → s.firing ≡ finished
fires_left-eq-zero not_started s e h z = absurd (h.begun e)
fires_left-eq-zero marking s e h z = ground arith
fires_left-eq-zero (testing l) s e h z = ground arith
fires_left-eq-zero (calling i l) s e h z = ground arith
fires_left-eq-zero finished s e h z = e

run-IsFiring :
    (es : List Event) (s : State)
    → IsFiring s
    → fires_left s ≤ fires_in es
    → (run s es).firing ≡ finished
unfolding run
run-IsFiring [] s h enough = fires_left-eq-zero s.firing s refl h (omega arith)
run-IsFiring (e ∷ es) s h enough =
    let (h', less) = step-IsFiring s e h in run-IsFiring es (step s e) h' (one_more e less enough)
  where
    one_more :
        (e : Event) {a b : ℕ} → a ≤ b - fires_in (e ∷ []) → b ≤ fires_in (e ∷ es) → a ≤ fires_in es
    one_more registers p q = omega arith
    one_more (unregisters i) p q = omega arith
    one_more cancels p q = omega arith
    one_more fires p q = omega arith

-- On a cancelled state whose firing thread has begun, that thread has finished once it has made
-- as many steps as `fires_left` counts, whatever the other threads do between them.
pub firing_finishes :
    (s : State) (es : List Event)
    → s.cancelled ≡ true
    → s.firing ≢ not_started
    → fires_left s ≤ fires_in es
    → (run s es).firing ≡ finished
firing_finishes s es set begun enough =
    run-IsFiring es s (record { set = set; begun = begun }) enough
