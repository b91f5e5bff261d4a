-- ===== src/StringBuffer/Contents.antt =====
-- What a buffer holds, and what the operations do to it.
use flowcoro.Base.{
  ℕ, ◌+◌, ◌*◌, ◌≤◌, ◌<◌, ◌≡◌, refl, ap, sym, ◌∙◌, true, ◌&&◌, some, List, [], ◌∷◌, ◌++◌, length,
  take, update, arith, leb, add64, word, Bool-cases, inl, inr,
}
use flowcoro.StringBuffer.{
  Buffer, Outcome, returns, hangs, overruns, then_on, max_small_string, written, new_buffer,
  enlarged, regrown, ensure_capacity, put, append, append_char, clear, resize,
}
use flowcoro.StringBuffer.Cells.{
  read, read_agree, read-append, take-read, written_below, read-written,
}
use native.Mathlib.Nat.{zero-add}
use flowcoro.StringBuffer.Growth.{grow-Room}

-- `to_string`
abbrev pub to_string : Buffer → List ℕ
to_string b = read b.cells 0 b.size

pub record IsWhole (b : Buffer) : Type 0 where
  pub some_capacity : 0 < b.capacity
  pub inside : b.size < b.room
  pub ended : b.cells b.size ≡ 0
  pub covered : b.capacity ≤ b.room
  pub small : b.use_small_buffer ≡ true → b.room ≡ max_small_string + 1

-- The call returns a buffer of which the predicate holds.
abbrev pub Returns : Outcome → (Buffer → Type 0) → Type 0
Returns (returns b) P = P b
Returns hangs P = ⊥
Returns overruns P = ⊥

returns_then :
    (o : Outcome) (f : Buffer → Buffer) (P Q : Buffer → Type 0)
    → Returns o P
    → ((r : Buffer) → P r → Q (f r))
    → Returns (then_on o (λ r. returns (f r))) Q
returns_then (returns b) f P Q p q = q b p
returns_then hangs f P Q p q = p
returns_then overruns f P Q p q = p

-- The buffer is in order and holds the text.
abbrev pub Holds : List ℕ → Buffer → Type 0
Holds s b = IsWhole b × (to_string b ≡ s)

module _ (fresh : ℕ → ℕ) where
  -- There is room for `required` bytes, and the contents are as they were.
  pub record Ready (b : Buffer) (required : ℕ) (r : Buffer) : Type 0 where
    pub whole : IsWhole r
    pub fits : required ≤ r.room
    pub same_size : r.size ≡ b.size
    pub kept : (i : ℕ) → i ≤ b.size → r.cells i ≡ b.cells i

  Ready-as_it_is : (b : Buffer) (required : ℕ) → IsWhole b → required ≤ b.room → Ready b required b
  Ready-as_it_is b required w h = record {
    whole = w;
    fits = h;
    same_size = refl;
    kept = λ i k. refl;
  }

  enlarged-Ready :
      (b : Buffer) (required new_capacity : ℕ)
      → IsWhole b
      → b.size < new_capacity
      → required ≤ new_capacity
      → Ready b required (enlarged fresh b new_capacity)
  enlarged-Ready b required new_capacity w h k = record {
    whole = record {
      some_capacity = omega (arith, h);
      inside = h;
      ended = ground (arith, w.ended);
      covered = omega arith;
      small = λ e. absurd (cc);
    };
    fits = k;
    same_size = refl;
    kept = λ i j. ground arith;
  }

  regrown-Ready :
      (b : Buffer) (required new_capacity : ℕ)
      → IsWhole b
      → b.size < new_capacity
      → required ≤ new_capacity
      → Returns (regrown fresh b (some new_capacity)) (Ready b required)
  unfolding regrown
  regrown-Ready b required new_capacity w h k =
      elim (Bool-cases (b.use_small_buffer && leb new_capacity max_small_string)) [
        | inl stays ↦ rw (stays, regrown) (Ready-as_it_is b required w (ground (arith, w.small)))
        | inr moves ↦ rw (moves, regrown) (enlarged-Ready b required new_capacity w h k)
      ]

  ensure_capacity-Ready :
      (b : Buffer) (required : ℕ)
      → IsWhole b
      → b.size < required
      → required * 2 ≤ word
      → Returns (ensure_capacity fresh b required) (Ready b required)
  unfolding ensure_capacity
  ensure_capacity-Ready b required w h k = elim (Bool-cases (leb required b.capacity)) [
    | inl enough ↦
        rw (enough, ensure_capacity) (Ready-as_it_is b required w (ground (arith, w.covered)))
    | inr short ↦
        let g = grow-Room b.capacity required w.some_capacity (ground arith) k in
        rw (short, ensure_capacity, g.found)
          (regrown-Ready b required g.new_capacity w (omega (arith, g.enough)) g.enough)
  ]

  put-to_string :
      (b r : Buffer) (s : List ℕ)
      → b.size + length s + 1 < word
      → Ready b (b.size + length s + 1) r
      → to_string (put r s) ≡ to_string b ++ s
  put-to_string b r s few y =
      let m : add64 r.size (length s) ≡ r.size + length s = omega (arith, y.same_size) in
      ap (λ n. read (update at n 0) 0 n) m
      ∙ read_agree (update at (r.size + length s) 0) at 0 (r.size + length s)
          (λ i h k. ground arith)
      ∙ read-append at 0 r.size (length s)
      ∙ ap (λ xs. xs ++ read at (0 + r.size) (length s)) front
      ∙ ap (λ xs. to_string b ++ xs) (rw zero-add (read-written r.cells r.size s))
    where
      at : ℕ → ℕ
      at = written r.cells r.size s

      front : read at 0 r.size ≡ to_string b
      front =
          read_agree at b.cells 0 r.size (λ i h k.
            written_below r.cells r.size s i (omega arith) ∙ y.kept i (omega (arith, y.same_size)))
          ∙ ap (λ n. read b.cells 0 n) y.same_size

  put-IsWhole :
      (b r : Buffer) (s : List ℕ)
      → b.size + length s + 1 < word
      → Ready b (b.size + length s + 1) r
      → IsWhole (put r s)
  put-IsWhole b r s few y =
      let m : add64 r.size (length s) ≡ r.size + length s = omega (arith, y.same_size) in
      record {
        some_capacity = y.whole.some_capacity;
        inside = omega (arith, y.fits, y.same_size);
        ended = ground arith;
        covered = y.whole.covered;
        small = y.whole.small;
      }

  pub append_lem :
      (b : Buffer) (s : List ℕ)
      → IsWhole b
      → (b.size + length s + 1) * 2 ≤ word
      → Returns (append fresh b s) (Holds (to_string b ++ s))
  unfolding append
  append_lem b s w few =
      let m : add64 (add64 b.size (length s)) 1 ≡ b.size + length s + 1 = omega arith in
      rw m (
        returns_then (ensure_capacity fresh b (b.size + length s + 1)) (λ r. put r s)
          (Ready b (b.size + length s + 1)) (Holds (to_string b ++ s))
          (ensure_capacity-Ready b (b.size + length s + 1) w (omega arith) few)
          (λ r y. (put-IsWhole b r s (omega arith) y, put-to_string b r s (omega arith) y)))

  pub append_char_lem :
      (b : Buffer) (c : ℕ)
      → IsWhole b
      → (b.size + 2) * 2 ≤ word
      → Returns (append_char fresh b c) (Holds (to_string b ++ (c ∷ [])))
  unfolding append_char
  append_char_lem b c w few =
      let m : add64 b.size 2 ≡ b.size + 1 + 1 = omega arith in
      rw m (
        returns_then (ensure_capacity fresh b (b.size + 1 + 1)) (λ r. put r (c ∷ []))
          (Ready b (b.size + 1 + 1)) (Holds (to_string b ++ (c ∷ [])))
          (ensure_capacity-Ready b (b.size + 1 + 1) w (omega arith) (omega arith))
          (λ r y.
            (put-IsWhole b r (c ∷ []) (omega arith) y, put-to_string b r (c ∷ []) (omega arith) y)))

  -- Shrinking below the capacity keeps the front of the text.
  pub resize_lem :
      (b : Buffer) (n : ℕ)
      → IsWhole b
      → n ≤ b.size
      → n < b.capacity
      → b.capacity < word
      → Returns (resize fresh b n) (Holds (take n (to_string b)))
  unfolding resize ensure_capacity
  resize_lem b n w less fits few =
      let within : leb (add64 n 1) b.capacity ≡ true = ground arith in
      rw (within, resize, ensure_capacity)
        (
          record {
            some_capacity = w.some_capacity;
            inside = omega (arith, w.inside);
            ended = ground arith;
            covered = w.covered;
            small = w.small;
          },
          read_agree (update b.cells n 0) b.cells 0 n (λ i h k. ground arith)
              ∙ sym (take-read b.cells 0 n b.size less),
        )

pub clear_lem : (b : Buffer) → IsWhole b → Holds [] (clear b)
unfolding clear
clear_lem b w = (
  record {
    some_capacity = w.some_capacity;
    inside = omega (arith, w.inside);
    ended = ground arith;
    covered = w.covered;
    small = w.small;
  },
  refl,
)

pub new_buffer_lem : (fresh : ℕ → ℕ) (n : ℕ) → 0 < n → Holds [] (new_buffer fresh n)
unfolding new_buffer
new_buffer_lem fresh n h = (
  record {
    some_capacity = h;
    inside = ground arith;
    ended = ground arith;
    covered = ground arith;
    small = λ e. ground (arith, e);
  },
  refl,
)
