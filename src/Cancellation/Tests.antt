-- ===== src/Cancellation/Tests.antt =====
-- Cancellation on concrete interleavings.
use flowcoro.Base.{occurrences, ◌≡◌, ◌≢◌, refl, List, [], ◌∷◌, arith}
use flowcoro.Cancellation.{
  State, Event, registers, unregisters, cancels, fires, not_started, finished, init, register,
  unregister, unregister_node, cancel, mark, mark_all, ids, may_call, fire, step, run,
}
use flowcoro.Cancellation.Delivery.{called_exactly_once, firing_finishes}
use flowcoro.Cancellation.Unregistered.{unregister_stops_calls}

-- Two callbacks, one of which is unregistered while the other is called, and a late third.
abbrev busy : List Event
busy =
    registers
    ∷ registers
    ∷ cancels
    ∷ fires
    ∷ fires
    ∷ unregisters 0
    ∷ fires
    ∷ registers
    ∷ fires
    ∷ fires
    ∷ cancels
    ∷ []

-- The firing thread has tested callback 1 and is about to call it.
abbrev about_to_call : State
about_to_call = run init (registers ∷ registers ∷ cancels ∷ fires ∷ fires ∷ [])

begun : (run init (registers ∷ cancels ∷ [])).firing ≢ not_started
unfolding init run step register cancel
begun = λ e. cc

called_exactly_once_example : occurrences 1 (run init busy).calls ≡ 1
unfolding init run step register cancel unregister unregister_node fire mark_all mark ids may_call
called_exactly_once_example = called_exactly_once busy 1 (omega arith, tt) (omega arith) refl

firing_finishes_example :
    (run
      (run init (registers ∷ cancels ∷ []))
      (fires ∷ registers ∷ fires ∷ fires ∷ fires ∷ [])).firing
    ≡ finished
unfolding init run step register cancel ids
firing_finishes_example =
    firing_finishes (run init (registers ∷ cancels ∷ []))
      (fires ∷ registers ∷ fires ∷ fires ∷ fires ∷ []) refl begun (omega arith)

unregister_stops_calls_example :
    occurrences 0 (run (unregister about_to_call 0) (fires ∷ fires ∷ [])).calls ≡ 0
unfolding init run step register cancel fire mark_all mark ids may_call
unregister_stops_calls_example =
    unregister_stops_calls about_to_call 0 (fires ∷ fires ∷ []) (omega arith) refl
