-- ===== src/Base/Words.antt =====
-- `size_t`: 64-bit words as numbers, with the wrap-around written out.
use Prim.Native.Nat.{ℕ, zero, suc, ◌+◌, ◌-◌, ◌*◌, ◌/◌, ◌%◌, ◌^◌, ◌≤◌, ◌<◌}
use mathlib.Core.Path.{◌≡◌, sym, ap, ◌∙◌}
use native.Mathlib.Nat.{
  pow-suc, one-le-pow, add-zero, add-suc, add-mul-mod_self_right, mod-eq_of_lt, mod-eq-sub-mod,
}
use native.Mathlib.Decide.{dec_lt}
use mathlib.Core.Logic.{◌⊎◌, inl, inr}
use native.Mathlib.Numerals.{sub-one}
use native.Mathlib.Omega.{arith}

abbrev pub word : ℕ
word = 2 ^ 64

abbrev pub add64 : ℕ → ℕ → ℕ
add64 a b = (a + b) % word

abbrev pub sub64 : ℕ → ℕ → ℕ
sub64 a b = (a + word - b) % word

pow_split : (k j : ℕ) → 2 ^ (k + j) ≡ 2 ^ j * 2 ^ k
pow_split k zero = rw add-zero (omega arith)
pow_split k (suc j) = rw (add-suc, pow-suc 2 (k + j), pow-suc 2 j, pow_split k j) (omega arith)

-- A word is a whole number of blocks of `2 ^ k`.
word_split : (k : ℕ) → k ≤ 64 → word ≡ 2 ^ (64 - k) * 2 ^ k
word_split k h = ap (λ e. 2 ^ e) (sum) ∙ pow_split k (64 - k)
  where
    sum : 64 ≡ k + (64 - k)
    sum = omega arith

-- Reducing to a word first changes no lower bits.
pub mod_word : (k x : ℕ) → k ≤ 64 → x % word % 2 ^ k ≡ x % 2 ^ k
mod_word k x h =
    sym (add-mul-mod_self_right (x % word) (x / word * 2 ^ (64 - k)) (2 ^ k))
    ∙ ap (λ t. t % 2 ^ k) whole
  where
    whole : x % word + x / word * 2 ^ (64 - k) * 2 ^ k ≡ x
    whole = omega (arith, ap (λ (t : ℕ). x / word * t) (word_split k h))

pred-mul-add : (m n : ℕ) → 0 < m → (m - 1) * n + n ≡ m * n
pred-mul-add zero n h = absurd (omega arith)
pred-mul-add (suc m) n h = rw sub-one (omega arith)

-- A difference of positions, reduced to `k` bits.
pub sub64-mod : (k a b : ℕ) → k ≤ 64 → b ≤ 2 ^ k → sub64 a b % 2 ^ k ≡ (a + 2 ^ k - b) % 2 ^ k
sub64-mod k a b h fits =
    mod_word k (a + word - b) h
    ∙ ap (λ t. t % 2 ^ k) whole
    ∙ add-mul-mod_self_right (a + 2 ^ k - b) (2 ^ (64 - k) - 1) (2 ^ k)
  where
    blocks : (2 ^ (64 - k) - 1) * 2 ^ k + 2 ^ k ≡ word
    blocks =
        pred-mul-add (2 ^ (64 - k)) (2 ^ k) (one-le-pow (64 - k) 2 (omega arith))
        ∙ sym (word_split k h)

    whole : a + word - b ≡ a + 2 ^ k - b + (2 ^ (64 - k) - 1) * 2 ^ k
    whole = omega (arith, blocks)

-- A number below `n + n` needs at most one subtraction.
pub mod_twice : (n x : ℕ) → x < n + n → ((x < n) × (x % n ≡ x)) ⊎ ((n ≤ x) × (x % n + n ≡ x))
mod_twice n x h = elim (dec_lt x n) [
  | yes below ↦ inl (below, mod-eq_of_lt below)
  | no over ↦ inr (
    omega arith,
    omega (
      arith,
      mod-eq-sub-mod {n = x} {m = n} (omega arith),
      mod-eq_of_lt {n = x - n} {m = n} (omega arith),
    ),
  )
]
