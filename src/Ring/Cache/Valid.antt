-- ===== src/Ring/Cache/Valid.antt =====
-- The representation invariant of the ring, and its positions as plain remainders.
use native.Mathlib.Nat.{one-le-pow, mod-add-mod}
use flowcoro.Base.{
  ℕ, ◌+◌, ◌-◌, ◌%◌, ◌^◌, ◌≤◌, ◌<◌, ◌≡◌, sym, ap, ◌∙◌, List, arith, length, bit_and-low_mask,
  mod_twice, mod_word, sub64-mod, add64, sub64,
}
use flowcoro.Ring.Position.{between}
use flowcoro.Ring.Window.{window, length-window}
use flowcoro.Ring.Cache.{Cache, masked}

-- All cells are there and both positions are cells.
pub record IsValid {ℓ} {A : Type ℓ} (k : ℕ) (r : Cache A) : Type ℓ where
  pub cells_all : length r.cells ≡ 2 ^ k
  pub write_in : r.write_pos < 2 ^ k
  pub read_in : r.read_pos < 2 ^ k

-- The number of items between the positions.
abbrev pub count {ℓ} : {A : Type ℓ} → ℕ → Cache A → ℕ
count k r = between (2 ^ k) r.write_pos r.read_pos

abbrev pub contents {ℓ} : {A : Type ℓ} → A → ℕ → Cache A → List A
contents d k r = window d (2 ^ k) r.cells r.read_pos (count k r)

pub length-contents {ℓ} :
    {A : Type ℓ} (d : A) (k : ℕ) (r : Cache A) → length (contents d k r) ≡ count k r
length-contents d k r = length-window d (2 ^ k) r.cells r.read_pos (count k r)

-- Free and used cells, counted from either position, make up all but one cell.
room : (n w r : ℕ) → w < n → r < n → ((r + n - w) % n + (n - 1)) % n + (w + n - r) % n + 1 ≡ n
room n w r hw hr = ground (
  arith,
  mod_twice n (r + n - w),
  mod_twice n (w + n - r),
  mod_twice n ((r + n - w) % n + (n - 1)),
)

module _ (k : ℕ) (h : k ≤ 64) where
  pub masked_add : (a b : ℕ) → masked k (add64 a b) ≡ (a + b) % 2 ^ k
  masked_add a b = bit_and-low_mask k (add64 a b) ∙ mod_word k (a + b) h

  pub masked_sub : (a b : ℕ) → b ≤ 2 ^ k → masked k (sub64 a b) ≡ (a + 2 ^ k - b) % 2 ^ k
  masked_sub a b fits = bit_and-low_mask k (sub64 a b) ∙ sub64-mod k a b h fits

  -- `available` of `push_batch`: one cell always stays free.
  pub masked_room :
      (w r : ℕ)
      → w < 2 ^ k
      → r < 2 ^ k
      → masked k (sub64 (sub64 r w) 1) + (w + 2 ^ k - r) % 2 ^ k + 1 ≡ 2 ^ k
  masked_room w r hw hr = rw available (room (2 ^ k) w r hw hr)
    where
      n : ℕ
      n = 2 ^ k

      available : masked k (sub64 (sub64 r w) 1) ≡ ((r + n - w) % n + (n - 1)) % n
      available =
          masked_sub (sub64 r w) 1 (one-le-pow k 2 (omega arith))
          ∙ ap (λ t. t % n) (omega arith)
          ∙ sym (mod-add-mod (sub64 r w) n (n - 1))
          ∙ ap (λ t. (t + (n - 1)) % n) (sub64-mod k r w h (omega arith))
