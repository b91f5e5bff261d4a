-- ===== src/Stack.antt =====
-- `Stack` of include/flowcoro/lockfree.h. A node is a number, given in the order in which nodes are made;
-- no number comes back, since hazard pointers keep a node's memory. Each atomic operation is a step, and
-- the steps of all threads interleave in any order.
pub mod Contents
pub mod Effects
mod Tests
use flowcoro.Base.{
  ℕ, zero, suc, ◌+◌, Bool, true, false, not, ◌&&◌, Option, none, some, List, [], ◌∷◌, ◌==◌,
  if◌then◌else◌, update,
}

-- A thread, by the operation that comes next, with what it has loaded; a node is 0 for `nullptr`.
pub data Thread : Type 0 where
  is_idle : Thread
  publishes : ℕ → ℕ → Thread  -- the new node, and the head that was last seen
  loads_head : Thread
  confirms : ℕ → Thread
  loads_next : ℕ → Thread
  swings : ℕ → ℕ → Thread
  has_popped : ℕ → Thread
  found_empty : Thread

-- What has taken effect: a push, a pop, or the finding that there is no item.
pub data Effect : Type 0 where
  pushed : ℕ → Effect
  popped : ℕ → Effect
  was_empty : Effect

pub record State : Type 0 where
  pub head : ℕ
  pub next : ℕ → ℕ
  pub payload : ℕ → ℕ
  pub made : ℕ  -- how many nodes have been made
  pub thread : ℕ → Thread
  pub maker : ℕ → ℕ  -- the thread that made a node
  pub is_published : ℕ → Bool  -- whether a node has been the head
  pub effects : List Effect  -- the last one first

pub init : State
init = record {
  head = 0;
  next = λ _. 0;
  payload = λ _. 0;
  made = 0;
  thread = λ _. is_idle;
  maker = λ _. 0;
  is_published = λ _. false;
  effects = [];
}

abbrev pub goes : State → ℕ → Thread → State
goes s i t = record s { thread = update s.thread i t }

pub data Call : Type 0 where
  push : ℕ → Call
  pop : Call

-- `push` makes its node and loads the head.
abbrev pub begin_push : State → ℕ → ℕ → State
begin_push s i item = record s {
  made = suc s.made;
  payload = update s.payload (suc s.made) item;
  next = update s.next (suc s.made) s.head;
  maker = update s.maker (suc s.made) i;
  thread = update s.thread i (publishes (suc s.made) s.head);
}

abbrev pub end_push : State → ℕ → ℕ → State
end_push s i n = record s {
  head = n;
  is_published = update s.is_published n true;
  effects = pushed n ∷ s.effects;
  thread = update s.thread i is_idle;
}

abbrev pub end_pop : State → ℕ → ℕ → ℕ → State
end_pop s i h n = record s {
  head = n;
  effects = popped h ∷ s.effects;
  thread = update s.thread i (has_popped h);
}

-- A step of `push` or of `pop`; the weak exchanges may fail for no reason (`spurious`).
pub advance : State → ℕ → Call → Bool → Thread → State
advance s i (push item) spurious is_idle = begin_push s i item
advance s i pop spurious is_idle = goes s i loads_head
advance s i call spurious (publishes n old) =
    if (s.head == old) && not spurious
    then end_push s i n
    else goes (record s { next = update s.next n s.head }) i (publishes n s.head)
advance s i call spurious loads_head =
    if s.head == 0
    then goes (record s { effects = was_empty ∷ s.effects }) i found_empty
    else goes s i (confirms s.head)
advance s i call spurious (confirms h) = goes s i (if s.head == h then loads_next h else loads_head)
advance s i call spurious (loads_next h) = goes s i (swings h (s.next h))
advance s i call spurious (swings h n) =
    if (s.head == h) && not spurious then end_pop s i h n else goes s i loads_head
advance s i call spurious (has_popped h) = goes s i is_idle
advance s i call spurious found_empty = goes s i is_idle

pub data Event : Type 0 where
  steps : ℕ → Call → Bool → Event

pub step : State → Event → State
unfolding advance
step s (steps i call spurious) = advance s i call spurious (s.thread i)

pub run : State → List Event → State
unfolding step
run s [] = s
run s (e ∷ es) = run (step s e) es
