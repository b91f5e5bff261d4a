-- ===== src/Memory.antt =====
-- `SimpleMemoryPool` of include/flowcoro/memory_pool.h. A block is its address, 0 for null. Each
-- atomic operation on a free list, each access to `next`, and each call of the system is a step, and
-- the steps of all threads interleave in any order.
pub mod Blocks
pub mod Moves
pub mod Owners
pub mod Sizes
pub mod Rooms
mod Tests
use flowcoro.Base.{
  ℕ, zero, suc, ◌+◌, ◌-◌, Bool, true, false, not, ◌&&◌, ◌||◌, List, [], ◌∷◌, get_or, leb, ltb,
  if◌then◌else◌, update, ◌==◌, add64, sub64,
}

abbrev pub size_classes : List ℕ
size_classes = 32 ∷ 64 ∷ 128 ∷ 256 ∷ 512 ∷ 1024 ∷ []

abbrev pub num_size_classes : ℕ
num_size_classes = 6

-- `FreeList::MAX_CACHED`
abbrev pub max_cached : ℕ
max_cached = 64

-- `sizeof(MemoryBlock)`: two words, on a machine where the data has an alignment of 16.
abbrev pub header_size : ℕ
header_size = 16

-- The loop of `get_size_class_index`, from class `i` on.
pub class_from : List ℕ → ℕ → ℕ → ℕ
class_from [] size i = i
class_from (c ∷ cs) size i =
    let later = class_from cs size (i + 1) in if leb size c then i else later

pub get_size_class_index : ℕ → ℕ
unfolding class_from
get_size_class_index size = class_from size_classes size 0

-- A thread, by the operation that comes next; `i` is a size class, `size` what was asked for, `b` the
-- block, `h` and `n` what it has loaded of the head and of its `next`.
pub data Place : Type 0 where
  is_idle : Place
  loads_head : (i size : ℕ) → Place
  loads_next : (i size h : ℕ) → Place
  swaps : (i size h n : ℕ) → Place
  counts_down : (i : ℕ) → Place
  mallocs : (asked size : ℕ) → Place
  tests_count : (i b : ℕ) → Place
  frees : (b : ℕ) → Place
  loads_top : (i b : ℕ) → Place
  links : (i b h : ℕ) → Place
  pushes : (i b h : ℕ) → Place
  counts_up : (i : ℕ) → Place

-- Where a block is; read by no step.
pub data Where : Type 0 where
  nowhere : Where
  in_hand : Where
  moving : ℕ → Where
  listed : ℕ → Where

pub record Memory : Type 0 where
  pub head : ℕ → ℕ  -- of each free list
  pub count : ℕ → ℕ
  pub next : ℕ → ℕ  -- of each block, as are the next three
  pub size : ℕ → ℕ
  pub room : ℕ → ℕ  -- the bytes that `malloc` gave
  pub live : ℕ → Bool  -- given by `malloc` and not freed
  pub place : ℕ → Place
  pub holders : ℕ → ℕ  -- how many calls of `allocate` have got a block that was not given back
  pub wanted : ℕ → ℕ  -- what the last of them asked for; read by no step, as are the next four
  pub spot : ℕ → Where
  pub chain : ℕ → List ℕ
  pub stale : ℕ → Bool  -- of a thread: `next` of the block it has loaded was written since
  pub aba : Bool  -- a thread has exchanged the head for such an old `next`

pub init : Memory
init = record {
  head = λ _. 0;
  count = λ _. 0;
  next = λ _. 0;
  size = λ _. 0;
  room = λ _. 0;
  live = λ _. false;
  place = λ _. is_idle;
  holders = λ _. 0;
  wanted = λ _. 0;
  spot = λ _. nowhere;
  chain = λ _. [];
  stale = λ _. false;
  aba = false;
}

abbrev pub goes : Memory → ℕ → Place → Memory
goes m t k = record m { place = update m.place t k }

-- Where `allocate` begins.
pub allocate_from : ℕ → Place
unfolding get_size_class_index
allocate_from size =
    let index = get_size_class_index size in
    if leb num_size_classes index then mallocs size size else loads_head index size

-- The loop of `pop_from_freelist`, when the head is loaded: at null a block of the class is made.
abbrev pub with_head : ℕ → ℕ → ℕ → Place
with_head i size h = if h == 0 then mallocs (get_or size_classes i 0) size else loads_next i size h

abbrev pub tail_of : List ℕ → List ℕ
tail_of [] = []
tail_of (b ∷ bs) = bs

-- The exchange of the head for what was its `next`.
pub popped : Memory → (t i size h n : ℕ) → Memory
popped m t i size h n = record m {
  head = update m.head i n;
  place = update m.place t (counts_down i);
  holders = update m.holders h (suc (m.holders h));
  wanted = update m.wanted h size;
  spot = update m.spot h in_hand;
  chain = λ j. if j == i then tail_of (m.chain i) else m.chain j;
  aba = m.aba || m.stale t;
}

-- `malloc` gives null or a block that is not live; `sizeof(MemoryBlock) + size` wraps.
pub malloc_step : Memory → (t asked size given : ℕ) → Memory
malloc_step m t asked size given =
    if given == 0 then goes m t is_idle else if m.live given then m else record m {
      size = update m.size given asked;
      room = update m.room given (add64 header_size asked);
      live = update m.live given true;
      place = update m.place t is_idle;
      holders = update m.holders given (suc (m.holders given));
      wanted = update m.wanted given size;
      spot = update m.spot given in_hand;
    }

abbrev pub reads : ℕ → Place → Bool
reads b (swaps i size h n) = h == b
reads b _ = false

-- The store of `next` in `push_to_freelist`.
pub linked : Memory → (t i b h : ℕ) → Memory
linked m t i b h = record m {
  next = update m.next b h;
  place = update m.place t (pushes i b h);
  stale = λ d. m.stale d || reads b (m.place d);
}

pub pushed : Memory → (t i b : ℕ) → Memory
pushed m t i b = record m {
  head = update m.head i b;
  place = update m.place t (counts_up i);
  spot = update m.spot b (listed i);
  chain = λ j. if j == i then b ∷ m.chain i else m.chain j;
}

-- `free`
pub freed : Memory → (t b : ℕ) → Memory
freed m t b = record m {
  live = update m.live b false;
  place = update m.place t is_idle;
  spot = update m.spot b nowhere;
}

-- The next operation of a thread in `allocate` or `deallocate`. A weak exchange may fail for no
-- reason (`spurious`), and after a failure it has loaded the head again.
pub pool_step : Memory → (t : ℕ) → (spurious : Bool) → (given : ℕ) → Place → Memory
unfolding popped malloc_step linked pushed freed
pool_step m t spurious given is_idle = m
pool_step m t spurious given (loads_head i size) = goes m t (with_head i size (m.head i))
pool_step m t spurious given (loads_next i size h) =
    goes (record m { stale = update m.stale t false }) t (swaps i size h (m.next h))
pool_step m t spurious given (swaps i size h n) =
    if (m.head i == h) && not spurious
    then popped m t i size h n
    else goes m t (with_head i size (m.head i))
pool_step m t spurious given (counts_down i) =
    goes (record m { count = update m.count i (sub64 (m.count i) 1) }) t is_idle
pool_step m t spurious given (mallocs asked size) = malloc_step m t asked size given
pool_step m t spurious given (tests_count i b) =
    goes m t (if leb max_cached (m.count i) then frees b else loads_top i b)
pool_step m t spurious given (frees b) = freed m t b
pool_step m t spurious given (loads_top i b) = goes m t (links i b (m.head i))
pool_step m t spurious given (links i b h) = linked m t i b h
pool_step m t spurious given (pushes i b h) =
    if (m.head i == h) && not spurious then pushed m t i b else goes m t (links i b (m.head i))
pool_step m t spurious given (counts_up i) =
    goes (record m { count = update m.count i (add64 (m.count i) 1) }) t is_idle

abbrev pub at_rest : Place → Bool
at_rest is_idle = true
at_rest _ = false

-- The call of `deallocate` on a block that a client holds.
pub deallocate_begin : Memory → (t b : ℕ) → Memory
unfolding get_size_class_index
deallocate_begin m t b =
    let index = get_size_class_index (m.size b) in
    record m {
      place =
          update m.place t (if leb num_size_classes index then frees b else tests_count index b);
      holders = update m.holders b (m.holders b - 1);
      spot = update m.spot b (moving t);
    }

pub data Event : Type 0 where
  allocates : (t size : ℕ) → Event
  deallocates : (t b : ℕ) → Event
  continues : (t : ℕ) → (spurious : Bool) → (given : ℕ) → Event

-- A thread begins a call when it is in none, and clients give back only what they hold.
pub step : Memory → Event → Memory
unfolding allocate_from pool_step deallocate_begin
step m (allocates t size) = if at_rest (m.place t) then goes m t (allocate_from size) else m
step m (deallocates t b) =
    if at_rest (m.place t) && ltb 0 (m.holders b) then deallocate_begin m t b else m
step m (continues t spurious given) = pool_step m t spurious given (m.place t)

pub run : Memory → List Event → Memory
unfolding step
run m [] = m
run m (e ∷ es) = run (step m e) es
