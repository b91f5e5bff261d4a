-- ===== src/Memory/Owners.antt =====
-- In every interleaving, whose a block is.
use flowcoro.Base.{
  ℕ, ◌≡◌, ◌≢◌, ◌≤◌, ◌<◌, refl, ◌∙◌, Bool, false, not, ◌&&◌, List, [], ◌∷◌, ◌==◌, ltb, leb, update,
  occurrences, arith, Bool-cases, inl, inr, add64, sub64,
}
use flowcoro.Memory.{
  Place, is_idle, loads_head, loads_next, swaps, counts_down, mallocs, tests_count, frees,
  loads_top, links, pushes, counts_up, Where, nowhere, in_hand, moving, listed, Memory, init, goes,
  with_head, allocate_from, popped, malloc_step, pool_step, at_rest, Event, allocates, deallocates,
  continues, step, run, max_cached, num_size_classes, get_size_class_index,
}
use flowcoro.Memory.Blocks.{IsLinked, listed_in, in_hands, Knows, IsSound, moved}
use flowcoro.Memory.Moves.{
  goes-IsSound, popped-IsSound, given-IsSound, linked-IsSound, pushed-IsSound, freed-IsSound,
  deallocate_begin-IsSound,
}

-- Sound while no thread has exchanged the head for a `next` that was written since it was loaded.
abbrev pub IsSafe : Memory → Type 0
IsSafe m = m.aba ≡ false → IsSound m

Knows-with_head : (m : Memory) (t i size h : ℕ) → Knows m t (with_head i size h)
Knows-with_head m t i size h = elim (Bool-cases (h == 0)) [
  | inl e ↦ rw e tt
  | inr e ↦ rw e (λ same. ground (arith, e, same))
]

with_head-IsSound :
    (m : Memory) (t i size : ℕ) → IsSound m → IsSound (goes m t (with_head i size (m.head i)))
with_head-IsSound m t i size v =
    goes-IsSound m t (with_head i size (m.head i)) v (Knows-with_head m t i size (m.head i))

loads_next-IsSound :
    (m : Memory) (t i size h : ℕ)
    → h ≢ 0
    → IsSound m
    → IsSound (goes (record m { stale = update m.stale t false }) t (swaps i size h (m.next h)))
loads_next-IsSound m t i size h some_block v = record {
  chains = v.chains;
  members = v.members;
  held = v.held;
  dead = v.dead;
  null = v.null;
  knows =
      moved m (record m { stale = update m.stale t false }) t (swaps i size h (m.next h)) v
        (some_block, λ _. refl)
        (λ d e. record {
          stays = λ b own. (own, refl);
          old = λ i size h n place fresh. (ground (arith, fresh, e), refl);
        });
}

counted-IsSound :
    (m : Memory) (t i n : ℕ)
    → IsSound m
    → IsSound (goes (record m { count = update m.count i n }) t is_idle)
counted-IsSound m t i n v = record {
  chains = v.chains;
  members = v.members;
  held = v.held;
  dead = v.dead;
  null = v.null;
  knows =
      moved m (record m { count = update m.count i n }) t is_idle v tt
        (λ d e. record {
          stays = λ b own. (own, refl);
          old = λ i size h n place fresh. (fresh, refl);
        });
}

malloc_step-IsSafe :
    (m : Memory) (t asked size given : ℕ) → IsSafe m → IsSafe (malloc_step m t asked size given)
unfolding malloc_step
malloc_step-IsSafe m t asked size given safe = elim (Bool-cases (given == 0)) [
  | inl e ↦ rw (e, malloc_step) (λ quiet. goes-IsSound m t is_idle (safe quiet) tt)
  | inr e ↦ elim (Bool-cases (m.live given)) [
    | inl f ↦ rw (e, f, malloc_step) safe
    | inr f ↦
        rw (e, f, malloc_step)
          (λ quiet.
            given-IsSound m t asked size given (λ same. ground (arith, e, same)) f (safe quiet))
  ]
]

swaps-IsSafe :
    (m : Memory) (t i size h n : ℕ)
    → m.head i ≡ h
    → (IsSound m → Knows m t (swaps i size h n))
    → IsSafe m
    → IsSafe (popped m t i size h n)
unfolding popped
swaps-IsSafe m t i size h n at own safe = λ quiet.
    let v = safe (ground (arith, quiet)) in
    popped-IsSound m t i size h n at (ground (arith, quiet)) (own v) v

pool_step-IsSafe :
    (m : Memory) (t : ℕ) (spurious : Bool) (given : ℕ) (k : Place)
    → (IsSound m → Knows m t k)
    → IsSafe m
    → IsSafe (pool_step m t spurious given k)
unfolding pool_step
pool_step-IsSafe m t spurious given is_idle own safe = safe
pool_step-IsSafe m t spurious given (loads_head i size) own safe =
    λ quiet. with_head-IsSound m t i size (safe quiet)
pool_step-IsSafe m t spurious given (loads_next i size h) own safe =
    λ quiet. loads_next-IsSound m t i size h (own (safe quiet)) (safe quiet)
pool_step-IsSafe m t spurious given (swaps i size h n) own safe =
    elim (Bool-cases ((m.head i == h) && not spurious)) [
      | inl e ↦ rw (e, pool_step) (swaps-IsSafe m t i size h n (ground (arith, e)) own safe)
      | inr e ↦ rw (e, pool_step) (λ quiet. with_head-IsSound m t i size (safe quiet))
    ]
pool_step-IsSafe m t spurious given (counts_down i) own safe =
    λ quiet. counted-IsSound m t i (sub64 (m.count i) 1) (safe quiet)
pool_step-IsSafe m t spurious given (mallocs asked size) own safe =
    malloc_step-IsSafe m t asked size given safe
pool_step-IsSafe m t spurious given (tests_count i b) own safe =
    elim (Bool-cases (leb max_cached (m.count i))) [
      | inl e ↦
          rw (e, pool_step) (λ quiet. goes-IsSound m t (frees b) (safe quiet) (own (safe quiet)))
      | inr e ↦
          rw (e, pool_step)
            (λ quiet. goes-IsSound m t (loads_top i b) (safe quiet) (own (safe quiet)))
    ]
pool_step-IsSafe m t spurious given (frees b) own safe =
    λ quiet. freed-IsSound m t b (own (safe quiet)) (safe quiet)
pool_step-IsSafe m t spurious given (loads_top i b) own safe =
    λ quiet. goes-IsSound m t (links i b (m.head i)) (safe quiet) (own (safe quiet))
pool_step-IsSafe m t spurious given (links i b h) own safe =
    λ quiet. linked-IsSound m t i b h (own (safe quiet)) (safe quiet)
pool_step-IsSafe m t spurious given (pushes i b h) own safe =
    elim (Bool-cases ((m.head i == h) && not spurious)) [
      | inl e ↦
          rw (e, pool_step)
            (λ quiet. pushed-IsSound m t i b h (ground (arith, e)) (own (safe quiet)) (safe quiet))
      | inr e ↦
          rw (e, pool_step)
            (λ quiet. goes-IsSound m t (links i b (m.head i)) (safe quiet) ((own (safe quiet)).0))
    ]
pool_step-IsSafe m t spurious given (counts_up i) own safe =
    λ quiet. counted-IsSound m t i (add64 (m.count i) 1) (safe quiet)

allocate-IsSound : (m : Memory) (t size : ℕ) → IsSound m → IsSound (goes m t (allocate_from size))
unfolding allocate_from
allocate-IsSound m t size v = elim (Bool-cases (leb num_size_classes (get_size_class_index size))) [
  | inl e ↦ rw (e, allocate_from) (goes-IsSound m t (mallocs size size) v tt)
  | inr e ↦
      rw (e, allocate_from) (goes-IsSound m t (loads_head (get_size_class_index size) size) v tt)
]

pub step-IsSafe : (m : Memory) (e : Event) → IsSafe m → IsSafe (step m e)
unfolding step
step-IsSafe m (allocates t size) safe = elim (Bool-cases (at_rest (m.place t))) [
  | inl e ↦ rw (e, step) (λ quiet. allocate-IsSound m t size (safe quiet))
  | inr e ↦ rw (e, step) safe
]
step-IsSafe m (deallocates t b) safe =
    elim (Bool-cases (at_rest (m.place t) && ltb 0 (m.holders b))) [
      | inl e ↦
          rw (e, step) (λ quiet. deallocate_begin-IsSound m t b (ground (arith, e)) (safe quiet))
      | inr e ↦ rw (e, step) safe
    ]
step-IsSafe m (continues t spurious given) safe =
    pool_step-IsSafe m t spurious given (m.place t) (λ v. v.knows t) safe

pub run-IsSafe : (es : List Event) (m : Memory) → IsSafe m → IsSafe (run m es)
unfolding run
run-IsSafe [] m safe = safe
run-IsSafe (e ∷ es) m safe = run-IsSafe es (step m e) (step-IsSafe m e safe)

pub init-IsSafe : IsSafe init
unfolding init
init-IsSafe = λ quiet. record {
  chains = λ i. refl;
  members = λ i b. refl;
  held = λ b. refl;
  dead = λ b gone. refl;
  null = refl;
  knows = λ t. tt;
}

pub at_most_one : (w : Where) → in_hands w ≤ 1
at_most_one nowhere = omega arith
at_most_one in_hand = omega arith
at_most_one (moving t) = omega arith
at_most_one (listed i) = omega arith

in_no_list : (i : ℕ) (w : Where) → 0 < in_hands w → listed_in i w ≡ 0
in_no_list i nowhere h = refl
in_no_list i in_hand h = refl
in_no_list i (moving t) h = refl
in_no_list i (listed j) h = absurd (omega arith)

-- In every interleaving of the calls of a new memory pool in which no thread has exchanged the
-- head of a free list for a `next` that was written again after the thread had loaded it: at most
-- one call of `allocate` has got a block that has not been given back, such a block is in no free
-- list, and each head, with the `next` of the blocks, makes its list.
pub one_holder :
    (es : List Event) (b : ℕ)
    → (run init es).aba ≡ false
    → let m = run init es in
      (m.holders b ≤ 1)
      × (0 < m.holders b → (i : ℕ) → occurrences b (m.chain i) ≡ 0)
      × ((i : ℕ) → IsLinked m.next (m.head i) (m.chain i))
one_holder es b quiet =
    let v = run-IsSafe es init init-IsSafe quiet in
    (
      omega (arith, v.held b, at_most_one ((run init es).spot b)),
      λ some_one i. v.members i b ∙ in_no_list i ((run init es).spot b) (omega (arith, v.held b)),
      v.chains,
    )
