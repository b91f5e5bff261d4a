-- ===== src/Text.antt =====
-- Texts as lists of bytes, with the searches of `std::string` and `std::getline`.
pub mod Search
use flowcoro.Base.{
  ℕ, Bool, true, false, not, ◌&&◌, Option, none, some, List, [], ◌∷◌, ◌++◌, ◌==◌, if◌then◌else◌,
}

abbrev pub Text : Type 0
Text = List ℕ

-- The texts before and behind the first `c`: what `find` and two `substr` give.
unfoldable pub split_at : ℕ → Text → Option (Text × Text)
split_at c [] = none
split_at c (x ∷ xs) =
    if x == c
    then some ([], xs)
    else elim (split_at c xs) [ none ↦ none | some (a, b) ↦ some (x ∷ a, b) ]

abbrev pub before_first : ℕ → List Text → List Text
before_first x [] = (x ∷ []) ∷ []
before_first x (l ∷ ls) = (x ∷ l) ∷ ls

-- What a loop of `std::getline` with the delimiter `c` reads: no empty text behind the last one.
unfoldable pub split_on : ℕ → Text → List Text
split_on c [] = []
split_on c (x ∷ xs) = let rest = split_on c xs in if x == c then [] ∷ rest else before_first x rest

abbrev pub text_eq : Text → Text → Bool
text_eq [] [] = true
text_eq [] (y ∷ ys) = false
text_eq (x ∷ xs) [] = false
text_eq (x ∷ xs) (y ∷ ys) = (x == y) && text_eq xs ys

-- `c` does not occur.
abbrev pub lacks : ℕ → Text → Bool
lacks c [] = true
lacks c (x ∷ xs) = not (x == c) && lacks c xs

-- What follows a prefix.
unfoldable pub strip_prefix : Text → Text → Option Text
strip_prefix [] xs = some xs
strip_prefix (p ∷ ps) [] = none
strip_prefix (p ∷ ps) (x ∷ xs) = let rest = strip_prefix ps xs in if p == x then rest else none

-- What follows the first occurrence of a text that is not empty: `find` and `substr`.
unfoldable pub after : Text → Text → Option Text
after ps [] = none
after ps (x ∷ xs) =
    let later = after ps xs in
    elim (strip_prefix ps (x ∷ xs)) [ none ↦ later | some rest ↦ some rest ]

-- What comes before the first occurrence of a text that is not empty.
unfoldable pub before : Text → Text → Option Text
before ps [] = none
before ps (x ∷ xs) =
    let later = before ps xs in
    elim (strip_prefix ps (x ∷ xs)) [
      | none ↦ elim later [ none ↦ none | some front ↦ some (x ∷ front) ]
      | some rest ↦ some []
    ]

-- What comes before the last `c`: `rfind` and `substr`.
unfoldable pub before_last : ℕ → Text → Option Text
before_last c [] = none
before_last c (x ∷ xs) = elim (before_last c xs) [
  | some front ↦ some (x ∷ front)
  | none ↦ if x == c then some [] else none
]
