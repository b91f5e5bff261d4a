-- ===== src/Cancellation.antt =====
-- `detail::CancellationState`, `CancellationToken` and `CancellationTokenSource` of
-- include/flowcoro/cancellation.h: the callbacks of one shared cancellation flag. The spinlock
-- makes each locked section one step; the loop of `fire_callbacks` that runs the callbacks holds
-- no lock, so each of its tests and each of its calls is a step of its own.
pub mod Calls
pub mod Delivery
pub mod Unregistered
mod Tests
use flowcoro.Base.{
  ℕ, suc, ◌+◌, ◌≡◌, Bool, true, false, not, ◌&&◌, List, [], ◌∷◌, ◌++◌, ◌==◌, if◌then◌else◌,
}

-- `CallbackNode`. Its number stands for the node's address and for its `fn` and `ctx`.
pub record Node : Type 0 where
  pub id : ℕ
  pub unregistered : Bool
  pub fired : Bool

-- Where the thread that won the `exchange` of `cancel` stands in `fire_callbacks`.
pub data Firing : Type 0 where
  not_started : Firing
  marking : Firing  -- before the locked loop
  testing : List ℕ → Firing  -- the nodes that the unlocked loop has still to reach
  calling : ℕ → List ℕ → Firing  -- its test has passed for this node, before `fn(ctx)`
  finished : Firing

pub record State : Type 0 where
  pub cancelled : Bool
  pub nodes : List Node  -- newest first, as `callbacks_head` links them
  pub next_id : ℕ
  pub firing : Firing
  pub calls : List ℕ  -- the callbacks that have been called, latest first

pub init : State
init = record { cancelled = false; nodes = []; next_id = 0; firing = not_started; calls = [] }

-- `register_callback`: on a cancelled state the callback is called at once and not linked.
pub register : State → State
register s =
    if s.cancelled
    then record s { next_id = suc s.next_id; calls = s.next_id ∷ s.calls }
    else record s {
      nodes = record { id = s.next_id; unregistered = false; fired = false } ∷ s.nodes;
      next_id = suc s.next_id;
    }

pub unregister_node : ℕ → List Node → List Node
unregister_node i [] = []
unregister_node i (x ∷ xs) =
    (if x.id == i then record x { unregistered = true } else x) ∷ unregister_node i xs

-- `unregister_callback`
pub unregister : State → ℕ → State
unfolding unregister_node
unregister s i = record s { nodes = unregister_node i s.nodes }

-- `cancel`: the first caller goes on to `fire_callbacks`, any later one returns.
pub cancel : State → State
cancel s = if s.cancelled then s else record s { cancelled = true; firing = marking }

-- The locked loop of `fire_callbacks`.
pub mark : Node → Node
mark x = if not x.fired && not x.unregistered then record x { fired = true } else x

pub mark_all : List Node → List Node
unfolding mark
mark_all [] = []
mark_all (x ∷ xs) = mark x ∷ mark_all xs

pub ids : List Node → List ℕ
ids [] = []
ids (x ∷ xs) = x.id ∷ ids xs

-- The test of the unlocked loop, made on the node as it is now.
pub may_call : ℕ → List Node → Bool
may_call i [] = false
may_call i (x ∷ xs) = if x.id == i then x.fired && not x.unregistered else may_call i xs

-- One step of the thread in `fire_callbacks`.
pub fire : Firing → State → State
unfolding mark_all ids may_call
fire not_started s = s
fire marking s = record s { nodes = mark_all s.nodes; firing = testing (ids s.nodes) }
fire (testing []) s = record s { firing = finished }
fire (testing (i ∷ rest)) s =
    if may_call i s.nodes
    then record s { firing = calling i rest }
    else record s { firing = testing rest }
fire (calling i rest) s = record s { calls = i ∷ s.calls; firing = testing rest }
fire finished s = s

pub data Event : Type 0 where
  registers : Event
  unregisters : ℕ → Event
  cancels : Event
  fires : Event

pub step : State → Event → State
unfolding register unregister cancel fire
step s registers = register s
step s (unregisters i) = unregister s i
step s cancels = cancel s
step s fires = fire s.firing s

pub run : State → List Event → State
unfolding step
run s [] = s
run s (e ∷ es) = run (step s e) es
