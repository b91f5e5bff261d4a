-- ===== src/Ring/Cache.antt =====
-- `CacheFriendlyRingBuffer<T, Capacity>` of include/flowcoro/buffer.h. The template argument is
-- `Capacity = 2 ^ k`, which its static_assert asks for; `d` is the `T()` of the constructor.
pub mod Valid
pub mod Refine
pub mod Batch
use flowcoro.Base.{
  ℕ, zero, suc, ◌+◌, ◌-◌, ◌^◌, min, Bool, true, false, Option, none, some, List, [], ◌∷◌, get_or,
  set, take, replicate, length, low_mask, bit_and, add64, sub64, ◌==◌, if◌then◌else◌,
}

pub record Cache {ℓ} (A : Type ℓ) : Type ℓ where
  pub cells : List A
  pub write_pos : ℕ
  pub read_pos : ℕ

module _ {ℓ} {A : Type ℓ} (d : A) (k : ℕ) where
  unfoldable pub init : Cache A
  init = record { cells = replicate (2 ^ k) d; write_pos = 0; read_pos = 0 }

module _ (k : ℕ) where
  -- `x & MASK`
  abbrev pub masked : ℕ → ℕ
  masked x = bit_and x (low_mask k)

module _ {ℓ} {A : Type ℓ} (k : ℕ) where
  -- Both overloads: a moved item is the item.
  unfoldable pub push : Cache A → A → Bool × Cache A
  push r item =
      let next_write_pos = masked k (add64 r.write_pos 1) in
      if next_write_pos == r.read_pos
      then (false, r)
      else (true, record r { cells = set r.cells r.write_pos item; write_pos = next_write_pos })

  pub empty : Cache A → Bool
  empty r = r.read_pos == r.write_pos

  pub full : Cache A → Bool
  full r = masked k (add64 r.write_pos 1) == r.read_pos

  pub size : Cache A → ℕ
  size r = masked k (sub64 r.write_pos r.read_pos)

  -- The loop of `push_batch`: item `i` goes to cell `(write_pos + i) & MASK`.
  pub store_from : List A → ℕ → ℕ → List A → List A
  store_from cells write_pos i [] = cells
  store_from cells write_pos i (x ∷ xs) =
      store_from (set cells (masked k (add64 write_pos i)) x) write_pos (i + 1) xs

  -- The list is `items[0 .. count)`. The result is the number of items taken.
  pub push_batch : Cache A → List A → ℕ × Cache A
  push_batch r items =
      let available = masked k (sub64 (sub64 r.read_pos r.write_pos) 1) in
      let to_push = min (length items) available in
      if to_push == 0 then (0, r) else (
        to_push,
        record r {
          cells = store_from r.cells r.write_pos 0 (take to_push items);
          write_pos = masked k (add64 r.write_pos to_push);
        },
      )

module _ {ℓ} {A : Type ℓ} (d : A) (k : ℕ) where
  -- The option is what goes through the reference argument.
  unfoldable pub pop : Cache A → Option A × Cache A
  pop r = if r.read_pos == r.write_pos then (none, r) else (
    some (get_or r.cells r.read_pos d),
    record r { read_pos = masked k (add64 r.read_pos 1) },
  )

  -- The loop of `pop_batch`, from item `i` on, with `left` rounds to go.
  pub load_from : List A → ℕ → ℕ → ℕ → List A
  load_from cells read_pos i zero = []
  load_from cells read_pos i (suc left) =
      get_or cells (masked k (add64 read_pos i)) d ∷ load_from cells read_pos (i + 1) left

  -- The list is what has been written to `items`; its length is the result.
  pub pop_batch : Cache A → ℕ → List A × Cache A
  pop_batch r count =
      let available = masked k (sub64 r.write_pos r.read_pos) in
      let to_pop = min count available in
      if to_pop == 0 then ([], r) else (
        load_from r.cells r.read_pos 0 to_pop,
        record r { read_pos = masked k (add64 r.read_pos to_pop) },
      )
