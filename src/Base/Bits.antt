-- ===== src/Base/Bits.antt =====
-- `&` with a mask of low bits.
use Prim.Native.Nat.{
  ℕ, zero, suc, ◌+◌, ◌-◌, ◌*◌, ◌/◌, ◌%◌, ◌^◌, ◌≤◌, ◌<◌, min, bit_and, digits, bit_and-bitwise,
}
use mathlib.Core.Path.{◌≡◌, ap, ◌∙◌}
use native.Mathlib.Nat.{pow-suc, one-le-pow}
use native.Mathlib.Omega.{arith}

abbrev pub low_mask : ℕ → ℕ
low_mask k = 2 ^ k - 1

-- The recursion that `&` stands for, on `fuel` digits.
abbrev and_upto : ℕ → ℕ → ℕ → ℕ
and_upto fuel a b = digits (λ b. zero) min fuel a b

-- Halving a mask drops its lowest one.
low_mask-halved : (k : ℕ) → (low_mask (suc k) / 2 ≡ low_mask k) × (low_mask (suc k) % 2 ≡ 1)
low_mask-halved k =
    (omega (arith, pow-suc 2 k, one-le-pow k 2), omega (arith, pow-suc 2 k, one-le-pow k 2))

and_upto-mask :
    (fuel k a q r : ℕ) → a ≤ fuel → a ≡ q * 2 ^ k + r → r < 2 ^ k → and_upto fuel a (low_mask k) ≡ r
and_upto-mask zero k a q r le e lt = omega arith
and_upto-mask (suc fuel) k zero q r le e lt = omega arith
and_upto-mask (suc fuel) zero (suc a) q r le e lt = omega (
  arith,
  and_upto-mask fuel zero (suc a / 2) (suc a / 2) 0 (omega arith) (omega arith) (omega arith),
)
and_upto-mask (suc fuel) (suc k) (suc a) q r le e lt =
    let (half, odd) = low_mask-halved k in
    rw (half, odd)
      (omega (
        arith,
        and_upto-mask fuel k (suc a / 2) q (r / 2) (omega arith) (split_half)
            (omega (arith, pow-suc 2 k)),
        split_odd,
      ))
  where
    scaled : q * 2 ^ suc k ≡ 2 * (q * 2 ^ k)
    scaled = omega (arith, ap (λ (t : ℕ). q * t) (pow-suc 2 k))

    split_half : suc a / 2 ≡ q * 2 ^ k + r / 2
    split_half = omega (arith, scaled)

    split_odd : suc a % 2 ≡ r % 2
    split_odd = omega (arith, scaled)

pub bit_and-low_mask : (k a : ℕ) → bit_and a (low_mask k) ≡ a % 2 ^ k
bit_and-low_mask k a =
    bit_and-bitwise a (low_mask k)
    ∙ and_upto-mask a k a (a / 2 ^ k) (a % 2 ^ k) (omega arith) (grind arith)
        (omega (arith, one-le-pow k 2))
