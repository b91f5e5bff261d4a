-- ===== src/StringBuffer.antt =====
-- `StringBuffer` of include/flowcoro/buffer.h. Bytes are numbers; `data_` is a function from
-- positions to bytes with the number of bytes behind it; what is in memory that the allocator hands
-- out is an argument, and `snprintf` is one: what it would print.
pub mod Growth
pub mod Cells
pub mod Contents
pub mod History
mod Tests
use flowcoro.Base.{
  ℕ, zero, suc, ◌+◌, ◌*◌, ◌%◌, Bool, true, false, not, ◌&&◌, ◌++◌, Option, none, some, List, [],
  ◌∷◌, ltb, leb, ◌==◌, if◌then◌else◌, length, take, update, add64, word,
}

abbrev pub max_small_string : ℕ
max_small_string = 23

pub record Buffer : Type 0 where
  pub cells : ℕ → ℕ  -- what `data_` points to
  pub room : ℕ  -- how many bytes there are, none at a null pointer
  pub capacity : ℕ
  pub size : ℕ
  pub use_small_buffer : Bool

-- A call returns, or goes round its loop for ever, or leaves the bounds of an array.
pub data Outcome : Type 0 where
  returns : Buffer → Outcome
  hangs : Outcome
  overruns : Outcome

abbrev pub then_on : Outcome → (Buffer → Outcome) → Outcome
then_on (returns b) f = f b
then_on hangs f = hangs
then_on overruns f = overruns

-- The loop of `ensure_capacity`, at most `fuel` rounds of it.
pub grow : ℕ → ℕ → ℕ → Option ℕ
grow zero capacity required = if ltb capacity required then none else some capacity
grow (suc fuel) capacity required =
    let later = grow fuel (capacity * 2 % word) required in
    if ltb capacity required then later else some capacity

-- A word has no bits left after so many doublings.
abbrev pub growth_fuel : ℕ
growth_fuel = 64

abbrev pub copied : (ℕ → ℕ) → ℕ → (ℕ → ℕ) → ℕ → ℕ
copied from n onto i = if ltb i n then from i else onto i

-- `memcpy` to position `at`.
pub written : (ℕ → ℕ) → ℕ → List ℕ → ℕ → ℕ
written cells at [] = cells
written cells at (x ∷ xs) = written (update cells at x) (suc at) xs

-- The copy, the new size and the closing zero.
abbrev pub put : Buffer → List ℕ → Buffer
put b s = record b {
  cells = update (written b.cells b.size s) (add64 b.size (length s)) 0;
  size = add64 b.size (length s);
}

pub clear : Buffer → Buffer
clear b = record b { size = 0; cells = update b.cells 0 0 }

-- The move constructor: the new buffer, and what is left of the one that was moved from.
pub moved_to : (ℕ → ℕ) → Buffer → Buffer
moved_to fresh b =
    if b.use_small_buffer then record b { cells = copied b.cells (b.size + 1) fresh } else b

pub moved_from : Buffer → Buffer
moved_from b =
    if b.use_small_buffer
    then record b { size = 0; capacity = 0 }
    else record b { cells = λ _. 0; room = 0; size = 0; capacity = 0 }

module _ (fresh : ℕ → ℕ) where
  -- The constructor: the small buffer has one byte more than `max_small_string`.
  pub new_buffer : ℕ → Buffer
  new_buffer initial_capacity = record {
    cells = update fresh 0 0;
    room = if ltb max_small_string initial_capacity then initial_capacity else max_small_string + 1;
    capacity = initial_capacity;
    size = 0;
    use_small_buffer = not (ltb max_small_string initial_capacity);
  }

  abbrev pub enlarged : Buffer → ℕ → Buffer
  enlarged b new_capacity = record b {
    cells = copied b.cells (b.size + 1) fresh;
    room = new_capacity;
    capacity = new_capacity;
    use_small_buffer = false;
  }

  -- The two branches after the loop: a small buffer that is still large enough stays as it is.
  pub regrown : Buffer → Option ℕ → Outcome
  regrown b none = hangs
  regrown b (some new_capacity) =
      if b.use_small_buffer && leb new_capacity max_small_string
      then returns b
      else returns (enlarged b new_capacity)

  pub ensure_capacity : Buffer → ℕ → Outcome
  unfolding regrown
  ensure_capacity b required =
      if leb required b.capacity
      then returns b
      else regrown b (grow growth_fuel b.capacity required)

  pub append : Buffer → List ℕ → Outcome
  unfolding ensure_capacity written
  append b s =
      then_on (ensure_capacity b (add64 (add64 b.size (length s)) 1)) (λ r. returns (put r s))

  pub append_char : Buffer → ℕ → Outcome
  unfolding ensure_capacity written
  append_char b c = then_on (ensure_capacity b (add64 b.size 2)) (λ r. returns (put r (c ∷ [])))

  -- `snprintf` puts at most 1023 bytes and a zero into `temp_buffer` and gives the length of all
  -- that it had to print; so many bytes are then read from `temp_buffer`.
  pub append_printed : Buffer → List ℕ → Outcome
  unfolding append
  append_printed b printed =
      if ltb 1024 (length printed)
      then overruns
      else append b (take 1023 printed ++ (if length printed == 1024 then 0 ∷ [] else []))

  pub append_format : Buffer → List ℕ → Outcome
  unfolding append_printed
  append_format b [] = returns b
  append_format b (c ∷ printed) = append_printed b (c ∷ printed)

  pub resize : Buffer → ℕ → Outcome
  unfolding ensure_capacity
  resize b new_size =
      then_on (ensure_capacity b (add64 new_size 1))
        (λ r. returns (record r { size = new_size; cells = update r.cells new_size 0 }))
