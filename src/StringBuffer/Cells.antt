-- ===== src/StringBuffer/Cells.antt =====
-- Bytes in memory, read as a list.
use flowcoro.Base.{
  ℕ, zero, suc, ◌+◌, ◌≤◌, ◌<◌, ◌≡◌, refl, ap, ◌∙◌, List, [], ◌∷◌, ◌++◌, length, take, update, arith,
}
use flowcoro.StringBuffer.{written}
use native.Mathlib.Nat.{zero-add, add-zero, suc-add, add-suc}

abbrev pub read : (ℕ → ℕ) → ℕ → ℕ → List ℕ
read cells from zero = []
read cells from (suc n) = cells from ∷ read cells (suc from) n

pub length-read : (cells : ℕ → ℕ) (from n : ℕ) → length (read cells from n) ≡ n
length-read cells from zero = refl
length-read cells from (suc n) = omega (arith, length-read cells (suc from) n)

pub read_agree :
    (a b : ℕ → ℕ) (from n : ℕ)
    → ((i : ℕ) → from ≤ i → i < from + n → a i ≡ b i)
    → read a from n ≡ read b from n
read_agree a b from zero same = refl
read_agree a b from (suc n) same =
    ap (λ x. x ∷ read a (suc from) n) (same from (omega arith) (omega arith))
    ∙ ap (λ xs. b from ∷ xs)
        (read_agree a b (suc from) n (λ i h k. same i (omega arith) (omega arith)))

pub read-append :
    (cells : ℕ → ℕ) (from m n : ℕ)
    → read cells from (m + n) ≡ read cells from m ++ read cells (from + m) n
read-append cells from zero n = simp (zero-add, add-zero) refl
read-append cells from (suc m) n =
    simp (suc-add, add-suc)
      (ap (λ xs. cells from ∷ xs)
        (read-append cells (suc from) m n
          ∙ ap (λ k. read cells (suc from) m ++ read cells k n) moved))
  where
    moved : suc from + m ≡ suc (from + m)
    moved = omega arith

pub take-read :
    (cells : ℕ → ℕ) (from m n : ℕ) → m ≤ n → take m (read cells from n) ≡ read cells from m
take-read cells from zero n h = refl
take-read cells from (suc m) zero h = absurd (omega arith)
take-read cells from (suc m) (suc n) h =
    ap (λ xs. cells from ∷ xs) (take-read cells (suc from) m n (omega arith))

pub written_below :
    (cells : ℕ → ℕ) (at : ℕ) (s : List ℕ) (i : ℕ) → i < at → written cells at s i ≡ cells i
unfolding written
written_below cells at [] i h = refl
written_below cells at (x ∷ s) i h =
    ground (arith, written_below (update cells at x) (suc at) s i (omega arith))

pub read-written :
    (cells : ℕ → ℕ) (at : ℕ) (s : List ℕ) → read (written cells at s) at (length s) ≡ s
unfolding written
read-written cells at [] = refl
read-written cells at (x ∷ s) = ground (
  arith,
  read-written (update cells at x) (suc at) s,
  written_below (update cells at x) (suc at) s at (omega arith),
)
