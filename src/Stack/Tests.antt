-- ===== src/Stack/Tests.antt =====
-- Two pushes and a pop that overlap.
use flowcoro.Base.{◌≡◌, true, false, List, [], ◌∷◌}
use flowcoro.Stack.{push, pop, Event, steps, init, run}
use flowcoro.Stack.Contents.{replay}
use flowcoro.Stack.Effects.{is_allowed, effects_of_stack}

-- Thread 1 publishes first, so the exchange of thread 0 fails once; thread 2 pops.
abbrev busy : List Event
busy =
    steps 0 (push 50) false
    ∷ steps 1 (push 60) false
    ∷ steps 1 pop false
    ∷ steps 0 pop false
    ∷ steps 2 pop false
    ∷ steps 2 pop false
    ∷ steps 2 pop false
    ∷ steps 0 pop false
    ∷ steps 2 pop false
    ∷ steps 2 pop false
    ∷ []

effects_of_stack_example : is_allowed (replay (run init busy).effects) ≡ true
effects_of_stack_example = effects_of_stack busy
