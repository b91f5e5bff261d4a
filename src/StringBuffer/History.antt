-- ===== src/StringBuffer/History.antt =====
-- Sequences of calls on one buffer, and buffers that are moved from.
use flowcoro.Base.{
  ℕ, ◌+◌, ◌<◌, ◌≡◌, refl, ap, ◌∙◌, Bool, true, false, ◌&&◌, none, List, [], ◌∷◌, ◌++◌, length,
  arith, if◌then◌else◌, ltb, leb, add64, word,
}
use flowcoro.StringBuffer.{
  Buffer, Outcome, returns, hangs, then_on, grow, growth_fuel, regrown, ensure_capacity, append,
  append_char, append_format, clear, copied, moved_to, moved_from,
}
use flowcoro.StringBuffer.Cells.{read_agree}
use flowcoro.StringBuffer.Contents.{to_string, IsWhole, Holds}
use flowcoro.StringBuffer.Growth.{grow_zero}

pub data Op : Type 0 where
  appends : List ℕ → Op
  appends_char : ℕ → Op
  formats : List ℕ → Op
  clears : Op

module _ (fresh : ℕ → ℕ) where
  pub step : Buffer → Op → Outcome
  unfolding append append_char append_format clear
  step b (appends s) = append fresh b s
  step b (appends_char c) = append_char fresh b c
  step b (formats printed) = append_format fresh b printed
  step b clears = returns (clear b)

  pub run : Buffer → List Op → Outcome
  unfolding step
  run b [] = returns b
  run b (o ∷ os) = then_on (step b o) (λ r. run r os)

-- The text that the calls put together.
abbrev pub text_after : List ℕ → List Op → List ℕ
text_after s [] = s
text_after s (appends t ∷ os) = text_after (s ++ t) os
text_after s (appends_char c ∷ os) = text_after (s ++ (c ∷ [])) os
text_after s (formats t ∷ os) = text_after (s ++ t) os
text_after s (clears ∷ os) = text_after [] os

-- How many bytes all calls together append.
abbrev pub bytes : List Op → ℕ
bytes [] = 0
bytes (appends t ∷ os) = length t + bytes os
bytes (appends_char c ∷ os) = 1 + bytes os
bytes (formats t ∷ os) = length t + bytes os
bytes (clears ∷ os) = bytes os

-- What is formatted is shorter than the buffer that it is printed to.
abbrev pub formats_fit : List Op → Bool
formats_fit [] = true
formats_fit (appends t ∷ os) = formats_fit os
formats_fit (appends_char c ∷ os) = formats_fit os
formats_fit (formats t ∷ os) = ltb (length t) 1024 && formats_fit os
formats_fit (clears ∷ os) = formats_fit os

module _ (fresh : ℕ → ℕ) where
  ensure_hangs :
      (b : Buffer) (required : ℕ)
      → b.capacity ≡ 0
      → 0 < required
      → ensure_capacity fresh b required ≡ hangs
  unfolding ensure_capacity regrown
  ensure_hangs b required empty some_room =
      let stuck : grow growth_fuel b.capacity required ≡ none =
        ap (λ c. grow growth_fuel c required) empty ∙ grow_zero growth_fuel required some_room in
      let short : leb required b.capacity ≡ false = ground arith in
      simp (short, stuck, regrown) refl

-- A buffer that is moved holds its text in the new place, and to append to the one that was moved
-- from never returns: its loop ends after no number of rounds.
pub moved_buffer :
    (memory fresh : ℕ → ℕ) (b : Buffer) (s : List ℕ)
    → IsWhole b
    → length s + 1 < word
    → Holds (to_string b) (moved_to memory b)
      × (append fresh (moved_from b) s ≡ hangs)
      × ((rounds : ℕ) → grow rounds (moved_from b).capacity (length s + 1) ≡ none)
unfolding moved_to moved_from append
moved_buffer memory fresh b s w few = (
  by_flag b.use_small_buffer,
  rw
      (ensure_hangs fresh (moved_from b) (add64 (add64 (moved_from b).size (length s)) 1) empty
        needed)
      refl,
  λ rounds.
      ap (λ c. grow rounds c (length s + 1)) empty ∙ grow_zero rounds (length s + 1) (omega arith),
)
  where
    empty : (moved_from b).capacity ≡ 0
    empty = ground arith

    needed : 0 < add64 (add64 (moved_from b).size (length s)) 1
    needed = let none_left : (moved_from b).size ≡ 0 = ground arith in omega (arith, none_left)

    by_flag :
        (f : Bool)
        → Holds
            (to_string b)
            (if f then record b { cells = copied b.cells (b.size + 1) memory } else b)
    by_flag true = (
      record {
        some_capacity = w.some_capacity;
        inside = w.inside;
        ended = ground (arith, w.ended);
        covered = w.covered;
        small = w.small;
      },
      read_agree (copied b.cells (b.size + 1) memory) b.cells 0 b.size (λ i h k. ground arith),
    )
    by_flag false = (w, refl)
