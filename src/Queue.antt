-- ===== src/Queue.antt =====
-- `Queue` of include/flowcoro/lockfree.h. A node is the number of the exchange of `tail` that put it
-- there, 0 for the first dummy; no number comes back, since hazard pointers keep a node's memory. Each
-- atomic operation is a step, and the steps of all threads interleave in any order.
pub mod Nodes
pub mod Claims
pub mod Taken
mod Tests
use flowcoro.Base.{
  ℕ, zero, suc, ◌+◌, Bool, true, false, not, ◌&&◌, List, [], ◌∷◌, ◌==◌, if◌then◌else◌, update,
}

-- A producer: between its calls, or before it links the node that it has put behind `n`.
pub data Producer : Type 0 where
  is_idle : Producer
  links : ℕ → Producer

-- A consumer, by the operation that comes next in `dequeue`, with what it has loaded: `head_node`,
-- `tail_node` and whether `next` is set; the last three are what a call ends with.
pub data Consumer : Type 0 where
  loads_head : Consumer
  confirms : ℕ → Consumer
  loads_tail : ℕ → Consumer
  loads_next : ℕ → ℕ → Consumer
  decides : ℕ → ℕ → Bool → Consumer
  confirms_again : ℕ → Consumer
  swings : ℕ → Consumer
  takes : ℕ → Consumer
  has_taken : ℕ → Consumer
  found_empty : Consumer
  found_null : Consumer

pub record State : Type 0 where
  pub head : ℕ
  pub tail : ℕ
  pub linked : ℕ → Bool  -- whether `next` of a node is stored
  pub payload : ℕ → ℕ  -- the item of a node
  pub has_data : ℕ → Bool  -- whether `data` is not null
  pub producer : ℕ → Producer
  pub consumer : ℕ → Consumer
  pub owner : ℕ → ℕ  -- the consumer that moved the head to a node
  pub given : List ℕ  -- the nodes whose items were handed out, the last one first
  pub saw_empty : ℕ → Bool  -- of each consumer, when it last loaded the tail

pub init : State
init = record {
  head = 0;
  tail = 0;
  linked = λ _. false;
  payload = λ _. 0;
  has_data = λ _. false;
  producer = λ _. is_idle;
  consumer = λ _. loads_head;
  owner = λ _. 0;
  given = [];
  saw_empty = λ _. false;
}

-- `enqueue`: the exchange of `tail`, then the store of `next`.
pub enqueue_step : State → ℕ → ℕ → Producer → State
enqueue_step s p item is_idle = record s {
  tail = suc s.tail;
  payload = update s.payload (suc s.tail) item;
  has_data = update s.has_data (suc s.tail) true;
  producer = update s.producer p (links s.tail);
}
enqueue_step s p item (links n) = record s {
  linked = update s.linked n true;
  producer = update s.producer p is_idle;
}

abbrev pub goes : State → ℕ → Consumer → State
goes s c k = record s { consumer = update s.consumer c k }

-- The tests after the loads: an exchange of `tail` that is behind is tried, then all begins again.
pub decide : State → ℕ → ℕ → ℕ → Bool → State
decide s c h t next =
    if h == t
    then if next
      then goes (record s { tail = if s.tail == t then suc h else s.tail }) c loads_head
      else goes s c found_empty
    else if next
    then goes s c (confirms_again h)
    else goes s c loads_head

-- `dequeue`; the weak exchange of `head` may fail for no reason (`spurious`).
pub dequeue_step : State → ℕ → Bool → Consumer → State
unfolding decide
dequeue_step s c spurious loads_head = goes s c (confirms s.head)
dequeue_step s c spurious (confirms h) = goes s c (if s.head == h then loads_tail h else loads_head)
dequeue_step s c spurious (loads_tail h) =
    goes (record s { saw_empty = update s.saw_empty c (s.head == s.tail) }) c (loads_next h s.tail)
dequeue_step s c spurious (loads_next h t) = goes s c (decides h t (s.linked h))
dequeue_step s c spurious (decides h t next) = decide s c h t next
dequeue_step s c spurious (confirms_again h) =
    goes s c (if s.head == h then swings h else loads_head)
dequeue_step s c spurious (swings h) =
    if (s.head == h) && not spurious
    then goes (record s { head = suc h; owner = update s.owner (suc h) c }) c (takes (suc h))
    else goes s c loads_head
dequeue_step s c spurious (takes n) =
    if s.has_data n
    then goes (record s { has_data = update s.has_data n false; given = n ∷ s.given }) c
        (has_taken n)
    else goes s c found_null
dequeue_step s c spurious (has_taken n) = goes s c loads_head
dequeue_step s c spurious found_empty = goes s c loads_head
dequeue_step s c spurious found_null = goes s c loads_head

pub data Event : Type 0 where
  enqueues : ℕ → ℕ → Event  -- a producer, and its item if it begins a call
  dequeues : ℕ → Bool → Event

pub step : State → Event → State
unfolding enqueue_step dequeue_step
step s (enqueues p item) = enqueue_step s p item (s.producer p)
step s (dequeues c spurious) = dequeue_step s c spurious (s.consumer c)

pub run : State → List Event → State
unfolding step
run s [] = s
run s (e ∷ es) = run (step s e) es
