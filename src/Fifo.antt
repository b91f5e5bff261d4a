-- ===== src/Fifo.antt =====
-- A first-in first-out queue of at most `cap` items, oldest first.
use flowcoro.Base.{
  ℕ, ◌-◌, min, Bool, true, false, Option, none, some, List, [], ◌∷◌, ◌++◌, take, drop, length, ltb,
  if◌then◌else◌,
}

module _ {ℓ} {A : Type ℓ} where
  unfoldable pub push : ℕ → List A → A → Bool × List A
  push cap q x = if ltb (length q) cap then (true, q ++ (x ∷ [])) else (false, q)

  unfoldable pub pop : List A → Option A × List A
  pop [] = (none, [])
  pop (x ∷ q) = (some x, q)

  unfoldable pub push_batch : ℕ → List A → List A → ℕ × List A
  push_batch cap q xs = let n = min (length xs) (cap - length q) in (n, q ++ take n xs)

  unfoldable pub pop_batch : List A → ℕ → List A × List A
  pop_batch q count = (take count q, drop count q)

-- What a client asks of a queue, and what it is told.
pub data Op {ℓ} (A : Type ℓ) : Type ℓ where
  puts : A → Op A
  gets : Op A
  puts_all : List A → Op A
  gets_up_to : ℕ → Op A

pub data Reply {ℓ} (A : Type ℓ) : Type ℓ where
  taken : Bool → Reply A
  got : Option A → Reply A
  taken_all : ℕ → Reply A
  got_all : List A → Reply A

module _ {ℓ} {A : Type ℓ} where
  unfoldable pub step : ℕ → List A → Op A → Reply A × List A
  unfolding push pop push_batch pop_batch
  step cap q (puts x) = let (s, q') = push cap q x in (taken s, q')
  step cap q gets = let (out, q') = pop q in (got out, q')
  step cap q (puts_all xs) = let (n, q') = push_batch cap q xs in (taken_all n, q')
  step cap q (gets_up_to n) = let (out, q') = pop_batch q n in (got_all out, q')

  unfoldable pub run : ℕ → List A → List (Op A) → List (Reply A)
  unfolding step
  run cap q [] = []
  run cap q (op ∷ ops) = let (reply, q') = step cap q op in reply ∷ run cap q' ops
