-- ===== src/Base/Counts.antt =====
-- How often a number occurs in a list.
use Prim.Native.Nat.{ℕ, ◌+◌}
use mathlib.Core.Path.{◌≡◌, refl}
use mathlib.Core.List.{List, [], ◌∷◌, ◌++◌}
use native.Mathlib.Omega.{arith}
use flowcoro.Base.Tests.{◌==◌, if◌then◌else◌}

abbrev pub occurrences : ℕ → List ℕ → ℕ
occurrences i [] = 0
occurrences i (x ∷ xs) = (if x == i then 1 else 0) + occurrences i xs

pub occurrences-append :
    (i : ℕ) (xs ys : List ℕ) → occurrences i (xs ++ ys) ≡ occurrences i xs + occurrences i ys
occurrences-append i [] ys = omega arith
occurrences-append i (x ∷ xs) ys = omega (arith, occurrences-append i xs ys)

pub none_occur : (xs : List ℕ) → ((i : ℕ) → occurrences i xs ≡ 0) → xs ≡ []
none_occur [] h = refl
none_occur (x ∷ xs) h = ground (arith, h x)
