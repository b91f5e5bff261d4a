-- ===== src/Base/Maps.antt =====
-- Functions from numbers as finite maps, and membership in a list of numbers as a test.
use Prim.Native.Nat.{ℕ}
use mathlib.Core.Path.{◌≡◌}
use mathlib.Core.Bool.{Bool, true, false, ◌||◌}
use mathlib.Core.List.{List, [], ◌∷◌, ◌++◌}
use native.Mathlib.Omega.{arith}
use flowcoro.Base.Tests.{◌==◌, if◌then◌else◌}

abbrev pub update {ℓ} : {A : Type ℓ} → (ℕ → A) → ℕ → A → ℕ → A
update f i a j = if i == j then a else f j

abbrev pub has : ℕ → List ℕ → Bool
has i [] = false
has i (x ∷ xs) = (x == i) || has i xs

pub has-append_right : (i : ℕ) (xs ys : List ℕ) → has i ys ≡ true → has i (xs ++ ys) ≡ true
has-append_right i [] ys h = h
has-append_right i (x ∷ xs) ys h = ground (arith, has-append_right i xs ys h)

pub has-append_left : (i : ℕ) (xs ys : List ℕ) → has i xs ≡ true → has i (xs ++ ys) ≡ true
has-append_left i [] ys h = cc
has-append_left i (x ∷ xs) ys h = ground (arith, has-append_left i xs ys)

pub has_self : (i : ℕ) (xs : List ℕ) → has i (i ∷ xs) ≡ true
has_self i xs = ground arith
