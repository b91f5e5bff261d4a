-- ===== src/Memory/Blocks.antt =====
-- Where the blocks are, and what the threads know, while no old `next` has come into a list.
use flowcoro.Base.{
  ℕ, ◌≡◌, ◌≢◌, refl, sym, ◌∙◌, false, List, [], ◌∷◌, ◌==◌, if◌then◌else◌, update, occurrences,
  arith, Bool-cases, inl, inr,
}
use mathlib.Core.Path.{subst}
use flowcoro.Memory.{
  Place, is_idle, loads_head, loads_next, swaps, counts_down, mallocs, tests_count, frees,
  loads_top, links, pushes, counts_up, Where, nowhere, in_hand, moving, listed, Memory,
}

-- The list that a head and the `next` of its blocks make.
abbrev pub IsLinked : (ℕ → ℕ) → ℕ → List ℕ → Type 0
IsLinked next h [] = h ≡ 0
IsLinked next h (b ∷ bs) = (h ≡ b) × (b ≢ 0) × IsLinked next (next b) bs

abbrev pub listed_in : ℕ → Where → ℕ
listed_in i (listed j) = if i == j then 1 else 0
listed_in i _ = 0

abbrev pub in_hands : Where → ℕ
in_hands in_hand = 1
in_hands _ = 0

-- What a thread knows at each place.
abbrev pub Knows : Memory → ℕ → Place → Type 0
Knows m t (loads_next i size h) = h ≢ 0
Knows m t (swaps i size h n) = (h ≢ 0) × (m.stale t ≡ false → n ≡ m.next h)
Knows m t (tests_count i b) = m.spot b ≡ moving t
Knows m t (frees b) = m.spot b ≡ moving t
Knows m t (loads_top i b) = m.spot b ≡ moving t
Knows m t (links i b h) = m.spot b ≡ moving t
Knows m t (pushes i b h) = (m.spot b ≡ moving t) × (m.next b ≡ h)
Knows m t _ = Unit {0}

pub record IsSound (m : Memory) : Type 0 where
  pub chains : (i : ℕ) → IsLinked m.next (m.head i) (m.chain i)
  pub members : (i b : ℕ) → occurrences b (m.chain i) ≡ listed_in i (m.spot b)
  pub held : (b : ℕ) → m.holders b ≡ in_hands (m.spot b)
  pub dead : (b : ℕ) → m.live b ≡ false → m.spot b ≡ nowhere
  pub null : m.live 0 ≡ false
  pub knows : (t : ℕ) → Knows m t (m.place t)

-- What a step of another thread leaves to a thread.
pub record Leaves (m r : Memory) (d : ℕ) : Type 0 where
  pub stays : (b : ℕ) → m.spot b ≡ moving d → (r.spot b ≡ moving d) × (r.next b ≡ m.next b)
  pub old :
      (i size h n : ℕ)
      → m.place d ≡ swaps i size h n
      → r.stale d ≡ false
      → (m.stale d ≡ false) × (r.next h ≡ m.next h)

Knows-later :
    {m r : Memory} {d : ℕ} (k : Place) → m.place d ≡ k → Leaves m r d → Knows m d k → Knows r d k
Knows-later is_idle at g v = tt
Knows-later (loads_head i size) at g v = tt
Knows-later (loads_next i size h) at g v = v
Knows-later (swaps i size h n) at g (a, b) =
    (a, λ fresh. let (e, same) = g.old i size h n at fresh in b e ∙ sym same)
Knows-later (counts_down i) at g v = tt
Knows-later (mallocs asked size) at g v = tt
Knows-later (tests_count i b) at g v = (g.stays b v).0
Knows-later (frees b) at g v = (g.stays b v).0
Knows-later (loads_top i b) at g v = (g.stays b v).0
Knows-later (links i b h) at g v = (g.stays b v).0
Knows-later (pushes i b h) at g (a, e) = let (s, same) = g.stays b a in (s, same ∙ e)
Knows-later (counts_up i) at g v = tt

pub moved :
    (m r : Memory) (t : ℕ) (k : Place)
    → IsSound m
    → Knows r t k
    → ((d : ℕ) → (t == d) ≡ false → Leaves m r d)
    → (d : ℕ) → Knows r d (update m.place t k d)
moved m r t k v own others d = elim (Bool-cases (t == d)) [
  | inl e ↦ rw e (subst (λ x. Knows r x k) (ground (arith, e)) own)
  | inr e ↦ rw e (Knows-later {m = m} {r = r} {d = d} (m.place d) refl (others d e) (v.knows d))
]
