-- ===== src/Ring/Slots.antt =====
-- `lockfree::RingBuffer<T, Size>` of include/flowcoro/lockfree.h: a ring whose slots carry a
-- valid flag. `Size = 2 ^ k`, which its static_assert asks for; `d` is the `T{}` of a slot.
pub mod Refine
use flowcoro.Base.{
  ℕ, ◌+◌, ◌^◌, Bool, true, false, not, Option, none, some, List, get_or, set, replicate, add64,
  ◌==◌, if◌then◌else◌,
}
use flowcoro.Ring.Cache.{masked}

-- `Slot` holds `data` and `valid`; the model keeps the two arrays side by side.
pub record Slots {ℓ} (A : Type ℓ) : Type ℓ where
  pub items : List A
  pub valid : List Bool
  pub head : ℕ
  pub tail : ℕ

module _ {ℓ} {A : Type ℓ} (d : A) (k : ℕ) where
  pub init : Slots A
  init = record { items = replicate (2 ^ k) d; valid = replicate (2 ^ k) false; head = 0; tail = 0 }

  pub push : Slots A → A → Bool × Slots A
  push r item =
      let next_tail = masked k (add64 r.tail 1) in
      if next_tail == r.head then (false, r) else (
        true,
        record r {
          items = set r.items r.tail item;
          valid = set r.valid r.tail true;
          tail = next_tail;
        },
      )

  pub pop : Slots A → Option A × Slots A
  pop r =
      if r.head == r.tail
      then (none, r)
      else if not (get_or r.valid r.head false)
      then (none, r)
      else (
        some (get_or r.items r.head d),
        record r { valid = set r.valid r.head false; head = masked k (add64 r.head 1) },
      )

  pub empty : Slots A → Bool
  empty r = r.head == r.tail

  pub full : Slots A → Bool
  full r = masked k (add64 r.tail 1) == r.head
