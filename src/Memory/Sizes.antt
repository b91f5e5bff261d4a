-- ===== src/Memory/Sizes.antt =====
-- How large a block is that is handed out.
use flowcoro.Base.{
  ℕ, suc, ◌≡◌, ◌≤◌, ◌<◌, sym, ap, true, false, ◌==◌, get_or, update, arith, Bool-cases, inl, inr,
  add64,
}
use flowcoro.Memory.{
  Place, is_idle, loads_head, loads_next, swaps, counts_down, mallocs, tests_count, frees,
  loads_top, links, pushes, counts_up, nowhere, in_hand, listed, Memory, goes, with_head, popped,
  linked, pushed, freed, size_classes, get_size_class_index, class_from, header_size,
}
use flowcoro.Memory.Blocks.{in_hands, Knows, IsSound}

abbrev pub class_size : ℕ → ℕ
class_size i = get_or size_classes i 0

-- A thread asks for a class that is large enough, and puts a block into the list of its class.
abbrev pub Fits : (ℕ → ℕ) → Place → Type 0
Fits size_of (loads_head i size) = (i < 6) × (size ≤ class_size i)
Fits size_of (loads_next i size h) = (i < 6) × (size ≤ class_size i)
Fits size_of (swaps i size h n) = (i < 6) × (size ≤ class_size i)
Fits size_of (mallocs asked size) =
    (size ≤ asked)
    × (get_size_class_index asked < 6 → asked ≡ class_size (get_size_class_index asked))
Fits size_of (tests_count i b) = size_of b ≡ class_size i
Fits size_of (loads_top i b) = size_of b ≡ class_size i
Fits size_of (links i b h) = size_of b ≡ class_size i
Fits size_of (pushes i b h) = size_of b ≡ class_size i
Fits size_of _ = Unit {0}

pub record IsFitting (m : Memory) : Type 0 where
  pub at_home : (i b : ℕ) → m.spot b ≡ listed i → m.size b ≡ class_size i
  pub exact :
      (b : ℕ)
      → m.live b ≡ true
      → get_size_class_index (m.size b) < 6
      → m.size b ≡ class_size (get_size_class_index (m.size b))
  pub roomy : (b : ℕ) → m.live b ≡ true → m.room b ≡ add64 header_size (m.size b)
  pub enough : (b : ℕ) → in_hands (m.spot b) ≡ 1 → m.wanted b ≤ m.size b
  pub fits : (t : ℕ) → Fits m.size (m.place t)

pub Fits-update :
    (size_of : ℕ → ℕ) (place : ℕ → Place) (t : ℕ) (k : Place)
    → Fits size_of k
    → ((d : ℕ) → Fits size_of (place d))
    → (d : ℕ) → Fits size_of (update place t k d)
Fits-update size_of place t k own v d = elim (Bool-cases (t == d)) [
  | inl e ↦ rw e own
  | inr e ↦ rw e (v d)
]

-- A class is large enough for what it was found for.
pub class_fits :
    (size : ℕ) → get_size_class_index size < 6 → size ≤ class_size (get_size_class_index size)
unfolding get_size_class_index class_from
class_fits size h = ground arith

-- The size of every class belongs to it.
index_of_class : (i : ℕ) → i < 6 → get_size_class_index (class_size i) ≡ i
unfolding get_size_class_index class_from
index_of_class i h = ground arith

class_exact : (i : ℕ) → i < 6 → class_size i ≡ class_size (get_size_class_index (class_size i))
class_exact i h = ap class_size (sym (index_of_class i h))

pub goes-IsFitting :
    (m : Memory) (t : ℕ) (k : Place) → Fits m.size k → IsFitting m → IsFitting (goes m t k)
goes-IsFitting m t k own v = record {
  at_home = v.at_home;
  exact = v.exact;
  roomy = v.roomy;
  enough = v.enough;
  fits = Fits-update m.size m.place t k own v.fits;
}

Fits-with_head :
    (size_of : ℕ → ℕ) (i size h : ℕ)
    → i < 6
    → size ≤ class_size i
    → Fits size_of (with_head i size h)
Fits-with_head size_of i size h small big_enough = elim (Bool-cases (h == 0)) [
  | inl e ↦ rw e (big_enough, λ _. class_exact i small)
  | inr e ↦ rw e (small, big_enough)
]

pub with_head-IsFitting :
    (m : Memory) (t i size : ℕ)
    → i < 6
    → size ≤ class_size i
    → IsFitting m
    → IsFitting (goes m t (with_head i size (m.head i)))
with_head-IsFitting m t i size small big_enough v =
    goes-IsFitting m t (with_head i size (m.head i))
      (Fits-with_head m.size i size (m.head i) small big_enough) v

pub popped-IsFitting :
    (m : Memory) (t i size h n : ℕ)
    → m.spot h ≡ listed i
    → size ≤ class_size i
    → IsFitting m
    → IsFitting (popped m t i size h n)
unfolding popped
popped-IsFitting m t i size h n is_listed big_enough v = record {
  at_home = λ j b at. ground (arith, v.at_home j b, at);
  exact = v.exact;
  roomy = v.roomy;
  enough = λ b out. ground (arith, v.enough b, v.at_home i h is_listed, out);
  fits = Fits-update m.size m.place t (counts_down i) tt v.fits;
}

-- A block of the system's is nobody's, so no thread was about to put it back.
Fits-given :
    (m : Memory) (d given asked : ℕ) (k : Place)
    → m.spot given ≡ nowhere
    → Knows m d k
    → Fits m.size k
    → Fits (update m.size given asked) k
Fits-given m d given asked is_idle was own v = tt
Fits-given m d given asked (loads_head i size) was own v = v
Fits-given m d given asked (loads_next i size h) was own v = v
Fits-given m d given asked (swaps i size h n) was own v = v
Fits-given m d given asked (counts_down i) was own v = tt
Fits-given m d given asked (mallocs a size) was own v = v
Fits-given m d given asked (tests_count i b) was own v = ground (arith, was, own, v)
Fits-given m d given asked (frees b) was own v = tt
Fits-given m d given asked (loads_top i b) was own v = ground (arith, was, own, v)
Fits-given m d given asked (links i b h) was own v = ground (arith, was, own, v)
Fits-given m d given asked (pushes i b h) was own v = ground (arith, was, own.0, v)
Fits-given m d given asked (counts_up i) was own v = tt

pub given-IsFitting :
    (m : Memory) (t asked size given : ℕ)
    → m.live given ≡ false
    → Fits m.size (mallocs asked size)
    → IsSound m
    → IsFitting m
    → IsFitting (record m {
      size = update m.size given asked;
      room = update m.room given (add64 header_size asked);
      live = update m.live given true;
      place = update m.place t is_idle;
      holders = update m.holders given (suc (m.holders given));
      wanted = update m.wanted given size;
      spot = update m.spot given in_hand;
    })
given-IsFitting m t asked size given unused (big_enough, exact) sound v = record {
  at_home = λ j b at. ground (arith, v.at_home j b, at);
  exact = λ b alive small. ground (arith, v.exact b, alive, small, exact);
  roomy = λ b alive. ground (arith, v.roomy b, alive);
  enough = λ b out. ground (arith, v.enough b, out);
  fits = Fits-update (update m.size given asked) m.place t is_idle tt (λ d.
      Fits-given m d given asked (m.place d) (sound.dead given unused) (sound.knows d) (v.fits d));
}

pub linked-IsFitting :
    (m : Memory) (t i b h : ℕ)
    → m.size b ≡ class_size i
    → IsFitting m
    → IsFitting (linked m t i b h)
unfolding linked
linked-IsFitting m t i b h own v = record {
  at_home = v.at_home;
  exact = v.exact;
  roomy = v.roomy;
  enough = v.enough;
  fits = Fits-update m.size m.place t (pushes i b h) own v.fits;
}

pub pushed-IsFitting :
    (m : Memory) (t i b : ℕ) → m.size b ≡ class_size i → IsFitting m → IsFitting (pushed m t i b)
unfolding pushed
pushed-IsFitting m t i b own v = record {
  at_home = λ j c at. ground (arith, own, v.at_home j c, at);
  exact = v.exact;
  roomy = v.roomy;
  enough = λ c out. ground (arith, v.enough c, out);
  fits = Fits-update m.size m.place t (counts_up i) tt v.fits;
}

pub freed-IsFitting : (m : Memory) (t b : ℕ) → IsFitting m → IsFitting (freed m t b)
unfolding freed
freed-IsFitting m t b v = record {
  at_home = λ j c at. ground (arith, v.at_home j c, at);
  exact = λ c alive. ground (arith, v.exact c, alive);
  roomy = λ c alive. ground (arith, v.roomy c, alive);
  enough = λ c out. ground (arith, v.enough c, out);
  fits = Fits-update m.size m.place t is_idle tt v.fits;
}
