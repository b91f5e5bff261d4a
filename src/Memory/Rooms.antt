-- ===== src/Memory/Rooms.antt =====
-- In every interleaving, whether a block that is handed out is large enough.
use flowcoro.Base.{
  ℕ, ◌+◌, ◌≡◌, ◌≤◌, ◌<◌, Bool, true, false, not, ◌&&◌, List, [], ◌∷◌, ◌==◌, ltb, leb, if◌then◌else◌,
  update, arith, Bool-cases, inl, inr, add64, sub64,
}
use flowcoro.Memory.{
  Place, is_idle, loads_head, loads_next, swaps, counts_down, mallocs, tests_count, frees,
  loads_top, links, pushes, counts_up, Memory, init, goes, allocate_from, popped, malloc_step,
  linked, pushed, freed, pool_step, at_rest, deallocate_begin, Event, allocates, deallocates,
  continues, step, run, max_cached, num_size_classes, get_size_class_index, header_size,
}
use flowcoro.Memory.Blocks.{Knows, IsSound}
use flowcoro.Memory.Moves.{popped_listed}
use flowcoro.Memory.Owners.{IsSafe, step-IsSafe, run-IsSafe, init-IsSafe, at_most_one}
use flowcoro.Base.{word}
use flowcoro.Memory.Sizes.{
  class_size, Fits, IsFitting, Fits-update, class_fits, goes-IsFitting, with_head-IsFitting,
  popped-IsFitting, given-IsFitting, linked-IsFitting, pushed-IsFitting, freed-IsFitting,
}

-- The class that a block goes back to is the one of its size.
deallocate_begin-IsFitting :
    (m : Memory) (t b : ℕ) → m.live b ≡ true → IsFitting m → IsFitting (deallocate_begin m t b)
unfolding deallocate_begin
deallocate_begin-IsFitting m t b alive v = record {
  at_home = λ j c at. ground (arith, v.at_home j c, at);
  exact = v.exact;
  roomy = v.roomy;
  enough = λ c out. ground (arith, v.enough c, out);
  fits =
      Fits-update m.size m.place t
        (if leb num_size_classes (get_size_class_index (m.size b))
          then frees b
          else tests_count (get_size_class_index (m.size b)) b)
        (elim (Bool-cases (leb num_size_classes (get_size_class_index (m.size b)))) [
          | inl e ↦ rw e tt
          | inr e ↦ rw e (v.exact b alive (ground (arith, e)))
        ])
        v.fits;
}

loads_next-IsFitting :
    (m : Memory) (t i size h : ℕ)
    → (i < 6) × (size ≤ class_size i)
    → IsFitting m
    → IsFitting (goes (record m { stale = update m.stale t false }) t (swaps i size h (m.next h)))
loads_next-IsFitting m t i size h own v = record {
  at_home = v.at_home;
  exact = v.exact;
  roomy = v.roomy;
  enough = v.enough;
  fits = Fits-update m.size m.place t (swaps i size h (m.next h)) own v.fits;
}

counted-IsFitting :
    (m : Memory) (t i n : ℕ)
    → IsFitting m
    → IsFitting (goes (record m { count = update m.count i n }) t is_idle)
counted-IsFitting m t i n v = record {
  at_home = v.at_home;
  exact = v.exact;
  roomy = v.roomy;
  enough = v.enough;
  fits = Fits-update m.size m.place t is_idle tt v.fits;
}

malloc_step-IsFitting :
    (m : Memory) (t asked size given : ℕ)
    → Fits m.size (mallocs asked size)
    → IsSound m
    → IsFitting m
    → IsFitting (malloc_step m t asked size given)
unfolding malloc_step
malloc_step-IsFitting m t asked size given own sound v = elim (Bool-cases (given == 0)) [
  | inl e ↦ rw (e, malloc_step) (goes-IsFitting m t is_idle tt v)
  | inr e ↦ elim (Bool-cases (m.live given)) [
    | inl f ↦ rw (e, f, malloc_step) v
    | inr f ↦ rw (e, f, malloc_step) (given-IsFitting m t asked size given f own sound v)
  ]
]

pool_step-IsFitting :
    (m : Memory) (t : ℕ) (spurious : Bool) (given : ℕ) (k : Place)
    → Knows m t k
    → Fits m.size k
    → IsSound m
    → IsFitting m
    → IsFitting (pool_step m t spurious given k)
unfolding pool_step
pool_step-IsFitting m t spurious given is_idle own fit sound v = v
pool_step-IsFitting m t spurious given (loads_head i size) own (small, fit) sound v =
    with_head-IsFitting m t i size small fit v
pool_step-IsFitting m t spurious given (loads_next i size h) own fit sound v =
    loads_next-IsFitting m t i size h fit v
pool_step-IsFitting m t spurious given (swaps i size h n) own (small, fit) sound v =
    elim (Bool-cases ((m.head i == h) && not spurious)) [
      | inl e ↦
          rw (e, pool_step)
            (popped-IsFitting m t i size h n (popped_listed m i h (ground (arith, e)) own.0 sound)
              fit v)
      | inr e ↦ rw (e, pool_step) (with_head-IsFitting m t i size small fit v)
    ]
pool_step-IsFitting m t spurious given (counts_down i) own fit sound v =
    counted-IsFitting m t i (sub64 (m.count i) 1) v
pool_step-IsFitting m t spurious given (mallocs asked size) own fit sound v =
    malloc_step-IsFitting m t asked size given fit sound v
pool_step-IsFitting m t spurious given (tests_count i b) own fit sound v =
    elim (Bool-cases (leb max_cached (m.count i))) [
      | inl e ↦ rw (e, pool_step) (goes-IsFitting m t (frees b) tt v)
      | inr e ↦ rw (e, pool_step) (goes-IsFitting m t (loads_top i b) fit v)
    ]
pool_step-IsFitting m t spurious given (frees b) own fit sound v = freed-IsFitting m t b v
pool_step-IsFitting m t spurious given (loads_top i b) own fit sound v =
    goes-IsFitting m t (links i b (m.head i)) fit v
pool_step-IsFitting m t spurious given (links i b h) own fit sound v =
    linked-IsFitting m t i b h fit v
pool_step-IsFitting m t spurious given (pushes i b h) own fit sound v =
    elim (Bool-cases ((m.head i == h) && not spurious)) [
      | inl e ↦ rw (e, pool_step) (pushed-IsFitting m t i b fit v)
      | inr e ↦ rw (e, pool_step) (goes-IsFitting m t (links i b (m.head i)) fit v)
    ]
pool_step-IsFitting m t spurious given (counts_up i) own fit sound v =
    counted-IsFitting m t i (add64 (m.count i) 1) v

allocate-IsFitting :
    (m : Memory) (t size : ℕ) → IsFitting m → IsFitting (goes m t (allocate_from size))
unfolding allocate_from
allocate-IsFitting m t size v =
    elim (Bool-cases (leb num_size_classes (get_size_class_index size))) [
      | inl e ↦
          rw (e, allocate_from)
            (goes-IsFitting m t (mallocs size size)
              (omega arith, λ small. absurd (ground (arith, e, small))) v)
      | inr e ↦
          let small : get_size_class_index size < 6 = ground (arith, e) in
          rw (e, allocate_from)
            (goes-IsFitting m t (loads_head (get_size_class_index size) size)
              (small, class_fits size small) v)
    ]

-- A block in a client's hands is live.
pub held_live : (m : Memory) (b : ℕ) → 0 < m.holders b → IsSound m → m.live b ≡ true
held_live m b some_one v = elim (Bool-cases (m.live b)) [
  | inl e ↦ e
  | inr e ↦ absurd (ground (arith, v.dead b e, v.held b, some_one))
]

-- What was exchanged for an old `next` stays known.
aba_stays : (m : Memory) (e : Event) → (step m e).aba ≡ false → m.aba ≡ false
unfolding step pool_step popped malloc_step linked pushed freed deallocate_begin
aba_stays m (allocates t size) h = ground arith
aba_stays m (deallocates t b) h = ground arith
aba_stays m (continues t spurious given) h = pool_step_at (m.place t) h
  where
    pool_step_at : (k : Place) → (pool_step m t spurious given k).aba ≡ false → m.aba ≡ false
    pool_step_at is_idle h = h
    pool_step_at (loads_head i size) h = h
    pool_step_at (loads_next i size g) h = h
    pool_step_at (swaps i size g n) h = ground arith
    pool_step_at (counts_down i) h = h
    pool_step_at (mallocs asked size) h = ground arith
    pool_step_at (tests_count i b) h = h
    pool_step_at (frees b) h = h
    pool_step_at (loads_top i b) h = h
    pool_step_at (links i b g) h = h
    pool_step_at (pushes i b g) h = ground arith
    pool_step_at (counts_up i) h = h

step-IsFitting : (m : Memory) (e : Event) → IsSound m → IsFitting m → IsFitting (step m e)
unfolding step
step-IsFitting m (allocates t size) sound v = elim (Bool-cases (at_rest (m.place t))) [
  | inl e ↦ rw (e, step) (allocate-IsFitting m t size v)
  | inr e ↦ rw (e, step) v
]
step-IsFitting m (deallocates t b) sound v =
    elim (Bool-cases (at_rest (m.place t) && ltb 0 (m.holders b))) [
      | inl e ↦
          rw (e, step)
            (deallocate_begin-IsFitting m t b (held_live m b (ground (arith, e)) sound) v)
      | inr e ↦ rw (e, step) v
    ]
step-IsFitting m (continues t spurious given) sound v =
    pool_step-IsFitting m t spurious given (m.place t) (sound.knows t) (v.fits t) sound v

run-IsFitting :
    (es : List Event) (m : Memory)
    → IsSafe m
    → (m.aba ≡ false → IsFitting m)
    → (run m es).aba ≡ false
    → IsFitting (run m es)
unfolding run
run-IsFitting [] m safe v quiet = v quiet
run-IsFitting (e ∷ es) m safe v quiet =
    run-IsFitting es (step m e) (step-IsSafe m e safe)
      (λ still. let before = aba_stays m e still in step-IsFitting m e (safe before) (v before))
      quiet

init-IsFitting : IsFitting init
unfolding init
init-IsFitting = record {
  at_home = λ i b at. absurd (cc);
  exact = λ b alive. absurd (cc);
  roomy = λ b alive. absurd (cc);
  enough = λ b out. omega arith;
  fits = λ t. tt;
}

-- In every interleaving of the calls of a new memory pool in which no thread has exchanged the
-- head of a free list for a `next` that was written again after the thread had loaded it: the
-- size of a block that a client has is at least what the client asked for, and if that size and
-- the header are less than `2 ^ 64` together, the room that the system gave is enough for the
-- header and what was asked for.
pub block_fits :
    (es : List Event) (b : ℕ)
    → (run init es).aba ≡ false
    → 0 < (run init es).holders b
    → let m = run init es in
      (m.wanted b ≤ m.size b)
      × (header_size + m.size b < word → header_size + m.wanted b ≤ m.room b)
block_fits es b quiet some_one =
    let sound = run-IsSafe es init init-IsSafe quiet in
    let v = run-IsFitting es init init-IsSafe (λ _. init-IsFitting) quiet in
    let enough =
      v.enough b (omega (arith, sound.held b, at_most_one ((run init es).spot b), some_one)) in
    (
      enough,
      λ no_wrap. ground (arith, v.roomy b (held_live (run init es) b some_one sound), enough),
    )
