-- ===== src/Hazard/Lists.antt =====
-- Lists without repetitions, and what a scan keeps of one.
use flowcoro.Base.{
  ℕ, suc, ◌≤◌, ◌≡◌, refl, Bool, true, false, not, ◌&&◌, List, [], ◌∷◌, ◌++◌, ◌==◌, length, has,
  if◌then◌else◌, arith, Bool-cases, inl, inr,
}
use flowcoro.Hazard.{kept}

abbrev pub distinct : List ℕ → Bool
distinct [] = true
distinct (a ∷ bs) = not (has a bs) && distinct bs

pub has-append_one :
    (a h : ℕ) (xs : List ℕ) → has a (xs ++ h ∷ []) ≡ true → (h == a) ≡ false → has a xs ≡ true
has-append_one a h [] e ne = ground (arith)
has-append_one a h (x ∷ xs) e ne = ground (arith, has-append_one a h xs)

pub distinct-append_one :
    (h : ℕ) (xs : List ℕ) → has h xs ≡ false → distinct xs ≡ true → distinct (xs ++ h ∷ []) ≡ true
distinct-append_one h [] e d = refl
distinct-append_one h (x ∷ xs) e d = ground (arith, distinct-append_one h xs, has-append_one x h xs)

pub has-kept : (a : ℕ) (found xs : List ℕ) → has a (kept found xs) ≡ has a xs && has a found
has-kept a found [] = refl
has-kept a found (x ∷ xs) = ground (arith, has-kept a found xs)

pub distinct-kept : (found xs : List ℕ) → distinct xs ≡ true → distinct (kept found xs) ≡ true
distinct-kept found [] d = refl
distinct-kept found (x ∷ xs) d = ground (arith, distinct-kept found xs, has-kept x found xs)

-- Without the first `a`.
abbrev remove_first : ℕ → List ℕ → List ℕ
remove_first a [] = []
remove_first a (b ∷ bs) = if b == a then bs else b ∷ remove_first a bs

length-remove_first :
    (a : ℕ) (xs : List ℕ) → has a xs ≡ true → length xs ≡ suc (length (remove_first a xs))
length-remove_first a [] h = absurd (cc)
length-remove_first a (x ∷ xs) h = ground (arith, length-remove_first a xs)

has-remove_first : (a b : ℕ) (xs : List ℕ) → (a == b) ≡ false → has b (remove_first a xs) ≡ has b xs
has-remove_first a b [] ne = refl
has-remove_first a b (x ∷ xs) ne = ground (arith, has-remove_first a b xs ne)

kept-remove_first :
    (a : ℕ) (found xs : List ℕ) → has a xs ≡ false → kept (remove_first a found) xs ≡ kept found xs
kept-remove_first a found [] h = refl
kept-remove_first a found (x ∷ xs) h =
    ground (arith, kept-remove_first a found xs, has-remove_first a x found, h)

-- A list without repetitions keeps no more nodes than were found.
pub length-kept : (found xs : List ℕ) → distinct xs ≡ true → length (kept found xs) ≤ length found
length-kept found [] d = omega arith
length-kept found (x ∷ xs) d = elim (Bool-cases (has x found)) [
  | inl e ↦ rw e (
      ground (
        arith,
        length-remove_first x found e,
        length-kept (remove_first x found) xs,
        kept-remove_first x found xs,
        d,
      ))
  | inr e ↦ rw e (length-kept found xs (ground (arith, d)))
]
