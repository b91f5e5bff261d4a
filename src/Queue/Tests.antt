-- ===== src/Queue/Tests.antt =====
-- Two producers and two consumers.
use flowcoro.Base.{◌≡◌, ◌≤◌, ◌<◌, ◌⊎◌, refl, true, false, List, [], ◌∷◌, occurrences, arith}
use flowcoro.Queue.{
  takes, Event, enqueues, dequeues, init, step, run, enqueue_step, dequeue_step, decide,
}
use flowcoro.Queue.Taken.{node_handed_out_once, empty_was_empty}

-- Producer 1 links its node before producer 0, and consumer 0 is overtaken by consumer 1.
abbrev busy : List Event
busy =
    enqueues 0 50
    ∷ enqueues 1 60
    ∷ enqueues 1 0
    ∷ dequeues 0 false
    ∷ dequeues 0 false
    ∷ dequeues 0 false
    ∷ enqueues 0 0
    ∷ dequeues 0 false
    ∷ dequeues 1 false
    ∷ dequeues 1 false
    ∷ dequeues 1 false
    ∷ dequeues 1 false
    ∷ dequeues 1 false
    ∷ dequeues 1 false
    ∷ dequeues 1 false
    ∷ dequeues 1 false
    ∷ dequeues 0 false
    ∷ dequeues 0 false
    ∷ []

-- Consumer 2 asks a queue to which nothing has come.
abbrev idle : List Event
idle =
    dequeues 2 false
    ∷ dequeues 2 false
    ∷ dequeues 2 false
    ∷ dequeues 2 false
    ∷ dequeues 2 false
    ∷ []

node_handed_out_once_example :
    let s = run init busy in
    (s.head ≤ s.tail)
    × (s.head < 1 → (s.has_data 1 ≡ true) × (occurrences 1 s.given ≡ 0))
    × (1 ≤ s.head
        → ((occurrences 1 s.given ≡ 1) × (s.has_data 1 ≡ false))
          ⊎ ((occurrences 1 s.given ≡ 0)
              × (s.has_data 1 ≡ true)
              × (s.consumer (s.owner 1) ≡ takes 1)))
unfolding run step init enqueue_step dequeue_step decide
node_handed_out_once_example = node_handed_out_once busy 1 (omega arith) (omega arith)

empty_was_empty_example : (run init idle).saw_empty 2 ≡ true
unfolding run step init enqueue_step dequeue_step decide
empty_was_empty_example = empty_was_empty idle 2 refl
